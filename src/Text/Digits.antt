-- ===== src/Text/Digits.antt =====
-- The numerals that itoa writes, at every radix from 2 to 36.
use zbiggie.Prelude.{
  ℕ, zero, suc, ◌+◌, ◌-◌, ◌*◌, ◌/◌, ◌%◌, ◌^◌, ◌≤◌, ◌<◌, ◌≡◌, ◌≢◌, ◌⊎◌, refl, arith, Bool-cases, inl,
  inr, some, false, ◌==◌, ◌||◌, ltb, Bytes, update, ◌∙◌,
}
use native.Mathlib.Nat.{pow-suc}
use zbiggie.Text.{itoa, itoa_loop, digit_char, strrev}
use zbiggie.Text.Length.{IsString}
use zbiggie.Text.Reverse.{strrev_lem}

-- `v` without its `j` lowest digits.
unfoldable pub without_low : ℕ → ℕ → ℕ → ℕ
without_low radix v zero = v
without_low radix v (suc j) = without_low radix (v / radix) j

pub div-lt_of_lt_double : (v radix b : ℕ) → 2 ≤ radix → v < 2 * b → v / radix < b
div-lt_of_lt_double v radix b h lt = grind arith

-- What the loop has written: the digits of `v`, lowest first, from `p` on, `n` of them.
record Written (radix v : ℕ) (before out : Bytes) (p n : ℕ) : Type 0 where
  digits : (j : ℕ) → j < n → out (p + j) ≡ digit_char (without_low radix v j % radix)
  done : without_low radix v n ≡ 0
  leading : (j : ℕ) → j < n → without_low radix v j ≢ 0
  rest : (a : ℕ) → a < p → out a ≡ before a

-- One more digit in front of what the rest of the loop writes.
Written-suc :
    (radix v : ℕ) (buf out : Bytes) (p n : ℕ)
    → v ≢ 0
    → Written radix (v / radix) (update buf p (digit_char (v % radix))) out (p + 1) n
    → Written radix v buf out p (suc n)
unfolding without_low
Written-suc radix v buf out p n ne w = record {
  digits = digits;
  done = w.done;
  leading = leading;
  rest = λ a l. w.rest a (omega arith) ∙ ground arith;
}
  where
    digits : (j : ℕ) → j < suc n → out (p + j) ≡ digit_char (without_low radix v j % radix)
    digits zero l = let e : p + 0 ≡ p = omega arith in rw e (w.rest p (omega arith) ∙ ground arith)
    digits (suc j) l =
        let e : p + suc j ≡ p + 1 + j = omega arith in rw e (w.digits j (omega arith))

    leading : (j : ℕ) → j < suc n → without_low radix v j ≢ 0
    leading zero l = ne
    leading (suc j) l = w.leading j (omega arith)

digit_below : (v radix : ℕ) → 2 ≤ radix → v % radix < radix
digit_below v radix h = grind arith

-- Each digit stands in the table.
digit-inside : (v radix : ℕ) → 2 ≤ radix → radix ≤ 36 → (radix == 0 || ltb 36 (v % radix)) ≡ false
digit-inside v radix h small = let lt = digit_below v radix h in ground (arith, lt)

itoa_loop_step :
    (fuel v radix : ℕ) (buf : Bytes) (p : ℕ)
    → v ≢ 0
    → 2 ≤ radix
    → radix ≤ 36
    → itoa_loop (suc fuel) v radix buf p
      ≡ itoa_loop fuel (v / radix) radix (update buf p (digit_char (v % radix))) (p + 1)
unfolding itoa_loop
itoa_loop_step fuel v radix buf p ne h small = elim (Bool-cases (v == 0)) [
  | inl z ↦ absurd (ne (ground arith))
  | inr nz ↦ let inside = digit-inside v radix h small in rw (nz, inside) refl
]

itoa_loop_done :
    (fuel radix : ℕ) (buf : Bytes) (p : ℕ) → itoa_loop (suc fuel) 0 radix buf p ≡ some (p, buf)
unfolding itoa_loop
itoa_loop_done fuel radix buf p = refl

-- With a round for each binary digit the loop ends, behind the digits of `v`.
itoa_loop-Written :
    (fuel v radix : ℕ) (buf : Bytes) (p : ℕ)
    → 2 ≤ radix
    → radix ≤ 36
    → v < 2 ^ fuel
    → (n : ℕ) × (out : Bytes) × (itoa_loop (suc fuel) v radix buf p ≡ some (p + n, out))
      × Written radix v buf out p n
      × (n ≤ fuel)
      × (v ≢ 0 → 0 < n)
unfolding without_low
itoa_loop-Written fuel zero radix buf p h small lt = (
  0,
  buf,
  itoa_loop_done fuel radix buf p ∙ (let e : p + 0 ≡ p = omega arith in rw e),
  record {
    digits = λ j l. absurd (omega arith);
    done = refl;
    leading = λ j l. absurd (omega arith);
    rest = λ a l. refl;
  },
  omega arith,
  λ ne. absurd (ne refl),
)
itoa_loop-Written zero (suc v) radix buf p h small lt = absurd (omega arith)
itoa_loop-Written (suc fuel) (suc v) radix buf p h small lt = extend (
    itoa_loop-Written fuel (suc v / radix) radix (update buf p (digit_char (suc v % radix))) (p + 1)
      h small (div-lt_of_lt_double (suc v) radix (2 ^ fuel) h (omega (arith, pow-suc 2 fuel))))
  where
    buf' : Bytes
    buf' = update buf p (digit_char (suc v % radix))

    extend :
        (n : ℕ) × (out : Bytes) × (itoa_loop (suc fuel) (suc v / radix) radix buf' (p + 1)
            ≡ some (p + 1 + n, out))
          × Written radix (suc v / radix) buf' out (p + 1) n
          × (n ≤ fuel)
          × (suc v / radix ≢ 0 → 0 < n)
        → (n : ℕ) × (out : Bytes) × (itoa_loop (suc (suc fuel)) (suc v) radix buf p
            ≡ some (p + n, out))
          × Written radix (suc v) buf out p n
          × (n ≤ suc fuel)
          × (suc v ≢ 0 → 0 < n)
    extend (n, out, run, w, le, pos) = (
      suc n,
      out,
      itoa_loop_step (suc fuel) (suc v) radix buf p (omega arith) h small
          ∙ run
          ∙ (let e : p + 1 + n ≡ p + suc n = omega arith in rw e),
      Written-suc radix (suc v) buf out p n (omega arith) w,
      omega arith,
      λ ne. omega arith,
    )

pub digit_char-pos : (v radix : ℕ) → 2 ≤ radix → radix ≤ 36 → digit_char (v % radix) ≢ 0
digit_char-pos v radix h small = let lt = digit_below v radix h in ground (arith, lt)

itoa_eq :
    (value : ℕ) (buf : Bytes) (p radix q : ℕ) (out t : Bytes)
    → value ≢ 0
    → itoa_loop 33 value radix buf p ≡ some (q, out)
    → strrev (update out q 0) p ≡ some t
    → itoa value buf p radix ≡ some t
unfolding itoa
itoa_eq value buf p radix q out t ne run rev = elim (Bool-cases (value == 0)) [
  | inl z ↦ absurd (ne (ground arith))
  | inr nz ↦ rw (nz, run) rev
]

-- itoa of a 32-bit number at a radix from 2 to 36 ends, and writes its numeral: `n` digits, the
-- highest first, which are all that the number has, and a NUL byte behind them. The highest digit is
-- not 0 unless it is the only one.
pub itoa_lem :
    (value : ℕ) (buf : Bytes) (p radix : ℕ)
    → value < 2 ^ 32
    → 2 ≤ radix
    → radix ≤ 36
    → (n : ℕ) × (out : Bytes) × (itoa value buf p radix ≡ some out)
      × (out (p + n) ≡ 0)
      × ((i : ℕ) → i < n → out (p + i) ≡ digit_char (without_low radix value (n - 1 - i) % radix))
      × (without_low radix value n ≡ 0)
      × ((n ≡ 1) ⊎ (without_low radix value (n - 1) ≢ 0))
unfolding itoa without_low
itoa_lem zero buf p radix small h table = (
  1,
  update (update buf p b'0') (p + 1) 0,
  refl,
  ground arith,
  λ i lt.
      (let e : i ≡ 0 = omega arith in
        let z : 0 % radix ≡ 0 = omega arith in rw (e, z) (ground arith)),
  omega arith,
  inl refl,
)
itoa_lem (suc value) buf p radix small h table =
    finish (itoa_loop-Written 32 (suc value) radix buf p h table small)
  where
    finish :
        (n : ℕ) × (out : Bytes) × (itoa_loop 33 (suc value) radix buf p ≡ some (p + n, out))
          × Written radix (suc value) buf out p n
          × (n ≤ 32)
          × (suc value ≢ 0 → 0 < n)
        → (n : ℕ) × (out : Bytes) × (itoa (suc value) buf p radix ≡ some out)
          × (out (p + n) ≡ 0)
          × ((i : ℕ)
              → i < n
              → out (p + i) ≡ digit_char (without_low radix (suc value) (n - 1 - i) % radix))
          × (without_low radix (suc value) n ≡ 0)
          × ((n ≡ 1) ⊎ (without_low radix (suc value) (n - 1) ≢ 0))
    finish (n, out, run, w, le, pos) =
        let q = p + n in
        let str : IsString (update out q 0) p n = record {
          nul = ground arith;
          text = λ i lt z.
              digit_char-pos (without_low radix (suc value) i) radix h table
                (ground (arith, w.digits i lt));
        } in
        let (t, rev, turned, same) = strrev_lem (update out q 0) p n (omega arith) str in
        (
          n,
          t,
          itoa_eq (suc value) buf p radix q out t (omega arith) run rev,
          same q (ground arith) ∙ ground arith,
          λ i lt. turned i lt ∙ ground (arith, w.digits (n - 1 - i) (omega arith)),
          w.done,
          inr (w.leading (n - 1) (omega arith)),
        )
