-- ===== src/Text/Tests.antt =====
-- The string operations at small inputs.
use zbiggie.Prelude.{
  ℕ, ◌+◌, ◌-◌, ◌%◌, ◌<◌, ◌≡◌, ◌≢◌, ◌⊎◌, inr, refl, arith, some, ◌&&◌, leb, ltb, false, Bytes,
}
use zbiggie.Samples.{ramp, zeros, greeting}
use zbiggie.Text.{strncpy, strrev, itoa, digit_char}
use zbiggie.Text.Length.{IsString}
use zbiggie.Text.Copy.{strncpy_lem}
use zbiggie.Text.Reverse.{strrev_lem}
use zbiggie.Text.Digits.{itoa_lem, without_low}

greeting-IsString : IsString greeting 0 2
greeting-IsString = record { nul = refl; text = λ i lt. ground arith }

-- Two bytes and two NULs.
strncpy_lem_example : strncpy ramp 8 greeting 0 4 11 ≡ 0
strncpy_lem_example =
    strncpy_lem ramp 8 greeting 0 4 2 greeting-IsString.text (inr greeting-IsString.nul) 11

strrev_lem_example :
    (t : Bytes) × (strrev greeting 0 ≡ some t)
    × ((i : ℕ) → i < 2 → t (0 + i) ≡ greeting (0 + (2 - 1 - i)))
    × ((a : ℕ) → (leb 0 a && ltb a (0 + 2)) ≡ false → t a ≡ greeting a)
strrev_lem_example = strrev_lem greeting 0 2 (omega arith) greeting-IsString

itoa_lem_example :
    (n : ℕ) × (out : Bytes) × (itoa 2024 zeros 3 10 ≡ some out)
    × (out (3 + n) ≡ 0)
    × ((i : ℕ) → i < n → out (3 + i) ≡ digit_char (without_low 10 2024 (n - 1 - i) % 10))
    × (without_low 10 2024 n ≡ 0)
    × ((n ≡ 1) ⊎ (without_low 10 2024 (n - 1) ≢ 0))
itoa_lem_example = itoa_lem 2024 zeros 3 10 (omega arith) (omega arith) (omega arith)
