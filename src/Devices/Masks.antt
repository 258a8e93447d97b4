-- ===== src/Devices/Masks.antt =====
-- What enable_irq and disable_irq do to the mask of an interrupt controller, and what i8259_init sends.
use Prim.Native.Nat.{bit_and, bit_or, bit_xor}
use zbiggie.Prelude.{
  ℕ, ◌-◌, ◌/◌, ◌%◌, ◌^◌, ◌<◌, ◌≡◌, refl, arith, true, ◌∷◌, Bool-cases, inl, inr, ◌==◌, ltb,
  if◌then◌else◌, all_below, all_below_sound, ==_iff,
}
use zbiggie.Devices.{Ports, data_port, line_bit, enable_irq, disable_irq}

set_table :
    all_below 256 (λ b. all_below 8 (λ i.
      all_below 8
        (λ j. bit_or b (2 ^ i) % 256 / 2 ^ j % 2 == (if j == i then 1 else b / 2 ^ j % 2))))
    ≡ true
unfolding all_below
set_table = refl

clear_table :
    all_below 256 (λ b. all_below 8 (λ i. all_below 8 (λ j.
      bit_and b (bit_xor 0xFFFF_FFFF (2 ^ i)) % 256 / 2 ^ j % 2
      == (if j == i then 0 else b / 2 ^ j % 2))))
    ≡ true
unfolding all_below
clear_table = refl

set_bit :
    (b i j : ℕ)
    → b < 256
    → i < 8
    → j < 8
    → bit_or b (2 ^ i) % 256 / 2 ^ j % 2 ≡ (if j == i then 1 else b / 2 ^ j % 2)
set_bit b i j hb hi hj =
    (==_iff _ _).0
      (all_below_sound 8 _ j (all_below_sound 8 _ i (all_below_sound 256 _ b set_table hb) hi) hj)

clear_bit :
    (b i j : ℕ)
    → b < 256
    → i < 8
    → j < 8
    → bit_and b (bit_xor 0xFFFF_FFFF (2 ^ i)) % 256 / 2 ^ j % 2
      ≡ (if j == i then 0 else b / 2 ^ j % 2)
clear_bit b i j hb hi hj =
    (==_iff _ _).0
      (all_below_sound 8 _ j (all_below_sound 8 _ i (all_below_sound 256 _ b clear_table hb) hi) hj)

-- The line's place on its controller.
line_bit-pow : (inb : Ports → ℕ → ℕ) (irq : ℕ) → irq < 16 → line_bit inb irq ≡ 2 ^ (irq % 8)
line_bit-pow inb irq h = elim (Bool-cases (ltb irq 8)) [
  | inl lt ↦ let e : irq % 8 ≡ irq = ground arith in rw (lt, e)
  | inr ge ↦ let e : irq % 8 ≡ irq - 8 = ground arith in rw (ge, e)
]

-- For each of the 16 lines, enable_irq sends one byte to the line's controller: the byte that it
-- read as the mask, with the line's bit set, which on this controller masks the line. disable_irq
-- sends that byte with the line's bit clear.
pub irq_masks :
    (inb : Ports → ℕ → ℕ) (irq : ℕ) (p : Ports)
    → irq < 16
    → inb p (data_port inb irq) < 256
    → let port = data_port inb irq in
      (v w : ℕ) × (enable_irq inb irq p ≡ (port, v) ∷ p)
      × (disable_irq inb irq p ≡ (port, w) ∷ p)
      × ((j : ℕ) → j < 8 → v / 2 ^ j % 2 ≡ (if j == irq % 8 then 1 else inb p port / 2 ^ j % 2))
      × ((j : ℕ) → j < 8 → w / 2 ^ j % 2 ≡ (if j == irq % 8 then 0 else inb p port / 2 ^ j % 2))
unfolding enable_irq disable_irq
irq_masks inb irq p h byte = (
  bit_or (inb p (data_port inb irq)) (2 ^ (irq % 8)) % 256,
  bit_and (inb p (data_port inb irq)) (bit_xor 0xFFFF_FFFF (2 ^ (irq % 8))) % 256,
  rw (line_bit-pow inb irq h),
  rw (line_bit-pow inb irq h),
  λ j hj. set_bit (inb p (data_port inb irq)) (irq % 8) j byte (omega arith) hj,
  λ j hj. clear_bit (inb p (data_port inb irq)) (irq % 8) j byte (omega arith) hj,
)
