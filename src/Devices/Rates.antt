-- ===== src/Devices/Rates.antt =====
-- Which frequencies rtc_write takes, and the rate that it sends for each.
use Prim.Native.Nat.{bit_and, bit_or}
use zbiggie.Prelude.{
  ℕ, zero, suc, ◌+◌, ◌-◌, ◌*◌, ◌%◌, ◌^◌, ◌≤◌, ◌<◌, ◌≡◌, ◌≢◌, ◌⊎◌, refl, arith, true, false,
  Bool-cases, inl, inr, none, some, ◌∷◌, ◌&&◌, ◌||◌, ◌==◌, minus_one, sle, slt, all_below,
  all_below_sound, ==_iff,
}
use zbiggie.Devices.{Ports, rtc_write, rate_of, change_rtc_freq}

rate_table :
    all_below 10 (λ e. elim (rate_of (2 ^ (e + 1))) [ none ↦ false | some r ↦ r == 15 - e ]) ≡ true
unfolding all_below rate_of
rate_table = refl

rate_of-pow : (e : ℕ) → e < 10 → rate_of (2 ^ (e + 1)) ≡ some (15 - e)
rate_of-pow e h = ground (
  arith,
  all_below_sound 10 (λ e. elim (rate_of (2 ^ (e + 1))) [ none ↦ false | some r ↦ r == 15 - e ]) e
      rate_table h,
)

register_table :
    all_below 256 (λ b.
      all_below 16 (λ r.
        let v = bit_or (bit_and b 0xF0) r % 256 in (v % 16 == r) && (v - v % 16 == b - b % 16)))
    ≡ true
unfolding all_below
register_table = refl

-- The rate takes the low half of the register; the high half stays.
register :
    (b r : ℕ)
    → b < 256
    → r < 16
    → let v = bit_or (bit_and b 0xF0) r % 256 in (v % 16 ≡ r) × (v - v % 16 ≡ b - b % 16)
register b r hb hr =
    ground (arith, all_below_sound 16 _ r (all_below_sound 256 _ b register_table hb) hr)

power_table : all_below 10 (λ e. 2 ^ (e + 1) * 2 ^ (15 - e - 1) == 32768) ≡ true
unfolding all_below
power_table = refl

change_rtc_freq-sent :
    (inb : Ports → ℕ → ℕ) (rate : ℕ) (p : Ports)
    → 2 < rate
    → rate < 16
    → inb ((0x70, 0x8A) ∷ p) 0x71 < 256
    → let b = inb ((0x70, 0x8A) ∷ p) 0x71 in
      (v w : ℕ) × (change_rtc_freq inb rate p
        ≡ (0, (0x70, w) ∷ (0x71, v) ∷ (0x70, 0x8A) ∷ (0x70, 0x8A) ∷ p))
      × (v % 16 ≡ rate)
      × (v - v % 16 ≡ b - b % 16)
unfolding change_rtc_freq
change_rtc_freq-sent inb rate p lo hi byte =
    let b = inb ((0x70, 0x8A) ∷ p) 0x71 in
    let v : ℕ = bit_or (bit_and b 0xF0) rate % 256 in
    let sent : Ports = (0x71, v) ∷ (0x70, 0x8A) ∷ (0x70, 0x8A) ∷ p in
    let e : (sle rate 2 || slt 15 rate) ≡ false = ground arith in
    (
      v,
      bit_and (inb sent 0x70) 0x7F % 256,
      rw e,
      (register b rate byte hi).0,
      (register b rate byte hi).1,
    )

-- Before devices that answer with bytes, rtc_write takes each power of two from 2 to 1024 hertz. It
-- puts the rate `r` with 32768 / 2 ^ (r - 1) hertz into the low half of register A, and keeps the
-- high half.
pub rtc_write-pow :
    (inb : Ports → ℕ → ℕ) (e : ℕ) (p : Ports)
    → ((q : Ports) (port : ℕ) → inb q port < 256)
    → 1 ≤ e
    → e ≤ 10
    → let b = inb ((0x70, 0x8A) ∷ p) 0x71 in
      (v w : ℕ) × (rtc_write inb (2 ^ e) 4 p
        ≡ (0, (0x70, w) ∷ (0x71, v) ∷ (0x70, 0x8A) ∷ (0x70, 0x8A) ∷ p))
      × (2 ^ e * 2 ^ (v % 16 - 1) ≡ 32768)
      × (v - v % 16 ≡ b - b % 16)
unfolding rtc_write
rtc_write-pow inb zero p bytes lo hi = absurd (omega arith)
rtc_write-pow inb (suc e) p bytes lo hi =
    let (v, w, run, rate, high) =
      change_rtc_freq-sent inb (15 - e) p (omega arith) (omega arith) (bytes _ _) in
    let same : e + 1 ≡ suc e = omega arith in
    let found : rate_of (2 ^ suc e) ≡ some (15 - e) = rw same at (rate_of-pow e (omega arith)) in
    let power : 2 ^ suc e * 2 ^ (15 - e - 1) ≡ 32768 =
      rw same at ((==_iff _ _).0 (all_below_sound 10 _ e power_table (omega arith))) in
    (v, w, rw found run, rw rate power, high)

-- rtc_write refuses every other frequency, and every count but 4, and sends nothing then.
pub rtc_write-refused :
    (inb : Ports → ℕ → ℕ) (frequency numbytes : ℕ) (p : Ports)
    → (numbytes ≢ 4) ⊎ ((e : ℕ) → 1 ≤ e → e ≤ 10 → frequency ≢ 2 ^ e)
    → rtc_write inb frequency numbytes p ≡ (minus_one, p)
unfolding rtc_write rate_of
rtc_write-refused inb frequency numbytes p (inl n) = ground arith
rtc_write-refused inb frequency numbytes p (inr other) = elim (Bool-cases (numbytes == 4)) [
  | inl four ↦ rw (four, unknown)
  | inr not4 ↦ rw not4
]
  where
    unknown : rate_of frequency ≡ none
    unknown =
        let n1 : frequency ≢ 2 = other 1 (omega arith) (omega arith) in
        let n2 : frequency ≢ 4 = other 2 (omega arith) (omega arith) in
        let n3 : frequency ≢ 8 = other 3 (omega arith) (omega arith) in
        let n4 : frequency ≢ 16 = other 4 (omega arith) (omega arith) in
        let n5 : frequency ≢ 32 = other 5 (omega arith) (omega arith) in
        let n6 : frequency ≢ 64 = other 6 (omega arith) (omega arith) in
        let n7 : frequency ≢ 128 = other 7 (omega arith) (omega arith) in
        let n8 : frequency ≢ 256 = other 8 (omega arith) (omega arith) in
        let n9 : frequency ≢ 512 = other 9 (omega arith) (omega arith) in
        let n10 : frequency ≢ 1024 = other 10 (omega arith) (omega arith) in ground arith
