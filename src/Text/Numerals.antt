-- ===== src/Text/Numerals.antt =====
-- The numeral that itoa writes is a string of at most 32 digits.
use zbiggie.Prelude.{
  ℕ, zero, suc, ◌-◌, ◌/◌, ◌^◌, ◌≤◌, ◌<◌, ◌≡◌, arith, inl, inr, some, Bytes, Bool-cases, leb,
}
use native.Mathlib.Nat.{pow-suc}
use zbiggie.Text.{itoa}
use zbiggie.Text.Length.{IsString}
use zbiggie.Text.Digits.{itoa_lem, without_low, div-lt_of_lt_double, digit_char-pos}

-- A number below 2 ^ k has no digit from position k on.
without_low-zero : (j k radix v : ℕ) → 2 ≤ radix → v < 2 ^ k → k ≤ j → without_low radix v j ≡ 0
unfolding without_low
without_low-zero zero zero radix v h lt le = omega arith
without_low-zero zero (suc k) radix v h lt le = absurd (omega arith)
without_low-zero (suc j) zero radix v h lt le =
    let z : v / radix < 1 = div-lt_of_lt_double v radix 1 h (omega arith) in
    without_low-zero j zero radix (v / radix) h z (omega arith)
without_low-zero (suc j) (suc k) radix v h lt le =
    without_low-zero j k radix (v / radix) h
      (div-lt_of_lt_double v radix (2 ^ k) h (omega (arith, pow-suc 2 k))) (omega arith)

pub itoa-IsString :
    (value : ℕ) (buf : Bytes) (p radix : ℕ)
    → value < 2 ^ 32
    → 2 ≤ radix
    → radix ≤ 36
    → (n : ℕ) × (out : Bytes) × (itoa value buf p radix ≡ some out) × IsString out p n × (n ≤ 32)
itoa-IsString value buf p radix small h table =
    let (n, out, run, nul, digits, none_left, leading) = itoa_lem value buf p radix small h table in
    (
      n,
      out,
      run,
      record {
        nul = nul;
        text = λ i lt z.
            digit_char-pos (without_low radix value (n - 1 - i)) radix h table
              (ground (arith, digits i lt));
      },
      elim (Bool-cases (leb n 32)) [
        | inl e ↦ ground arith
        | inr e ↦ elim leading [
          | inl one ↦ omega arith
          | inr nz ↦ absurd (nz (without_low-zero (n - 1) 32 radix value h small (ground arith)))
        ]
      ],
    )
