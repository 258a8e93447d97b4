-- ===== src/Prelude/Word.antt =====
-- C's 32-bit `int` and `uint32_t` as native numbers below 2 ^ 32, with the wrap-around written out.
-- A negative `int` is its bit pattern; `slt` and `sle` are the signed comparisons. Used by every
-- component for the fields and arithmetic that the source declares `int` or `uint32_t`.
use Prim.Native.Nat.{ℕ, ◌+◌, ◌-◌, ◌*◌, ◌%◌}
use mathlib.Core.Bool.{Bool}
use zbiggie.Prelude.Tests.{ltb, leb, if◌then◌else◌}

abbrev pub modulus : ℕ
modulus = 4294967296

-- The bit pattern of -1.
abbrev pub minus_one : ℕ
minus_one = 4294967295

abbrev pub add32 : ℕ → ℕ → ℕ
add32 a b = (a + b) % 4294967296

abbrev pub sub32 : ℕ → ℕ → ℕ
sub32 a b = (a + 4294967296 - b) % 4294967296

abbrev pub mul32 : ℕ → ℕ → ℕ
mul32 a b = (a * b) % 4294967296

-- `a < b` and `a <= b` on signed words.
abbrev pub slt : ℕ → ℕ → Bool
slt a b = ltb ((a + 2147483648) % 4294967296) ((b + 2147483648) % 4294967296)

abbrev pub sle : ℕ → ℕ → Bool
sle a b = leb ((a + 2147483648) % 4294967296) ((b + 2147483648) % 4294967296)

-- A `char` widened to `int`: bytes from 128 on are negative.
abbrev pub widen : ℕ → ℕ
widen c = if ltb c 128 then c else c + 4294967040
