-- ===== src/Text.antt =====
-- The string functions of student-distrib/lib.c: strlen, strncmp, strcpy, strncpy, strrev and itoa.
-- A pointer is a char array and an index into it. The source and the destination of a copy are
-- different arrays, as in every call of the kernel. A loop that only a NUL byte ends runs on fuel,
-- and `none` means that it ran out, in itoa also that a step has no result.
pub mod Length
pub mod Compare
pub mod Copy
pub mod Reverse
pub mod Digits
pub mod Numerals
mod Tests
use Prim.Native.Char.{code}
use Prim.Native.String.{String}
use zbiggie.Prelude.{
  ℕ, zero, suc, ◌+◌, ◌-◌, ◌/◌, ◌%◌, Bool, true, false, not, ◌||◌, Option, none, some, List, [], ◌∷◌,
  ◌==◌, ltb, if◌then◌else◌, modulus, sub32, slt, widen, Bytes, update, ◌>>=◌,
}

-- A string literal that stands at `p`, in a memory that is `m` elsewhere.
unfoldable pub literal : String → ℕ → Bytes → Bytes
literal String.[] p m = update m p 0
literal (String.◌∷◌ a s) p m = update (literal s (p + 1) m) p (code a)

-- while(s[len] != '\0') len++;
unfoldable pub strlen_loop : ℕ → Bytes → ℕ → ℕ → Option ℕ
strlen_loop zero s p len = none
strlen_loop (suc fuel) s p len =
    let rest = strlen_loop fuel s p (len + 1) in if s (p + len) == 0 then some len else rest

-- The address space holds no longer string than the fuel.
unfoldable pub strlen : Bytes → ℕ → Option ℕ
strlen s p = strlen_loop modulus s p 0

-- The rounds that are left come first, the index `i` last. The result is a word.
strncmp_loop : ℕ → Bytes → ℕ → Bytes → ℕ → ℕ → ℕ
strncmp_loop zero s p t q i = 0
strncmp_loop (suc rounds) s p t q i =
    let rest = strncmp_loop rounds s p t q (i + 1) in
    if not (s (p + i) == t (q + i)) || s (p + i) == 0
    then sub32 (widen (s (p + i))) (widen (t (q + i)))
    else rest

unfoldable pub strncmp : Bytes → ℕ → Bytes → ℕ → ℕ → ℕ
unfolding strncmp_loop
strncmp s p t q n = strncmp_loop n s p t q 0

strcpy_loop : ℕ → Bytes → ℕ → Bytes → ℕ → ℕ → Option Bytes
strcpy_loop zero dest d src s i = none
strcpy_loop (suc fuel) dest d src s i =
    let rest = strcpy_loop fuel (update dest (d + i) (src (s + i))) d src s (i + 1) in
    if src (s + i) == 0 then some (update dest (d + i) 0) else rest

pub strcpy : Bytes → ℕ → Bytes → ℕ → Option Bytes
unfolding strcpy_loop
strcpy dest d src s = strcpy_loop modulus dest d src s 0

-- while(i < n) dest[i++] = '\0';
strncpy_fill : ℕ → Bytes → ℕ → ℕ → Bytes
strncpy_fill zero dest d i = dest
strncpy_fill (suc rounds) dest d i = strncpy_fill rounds (update dest (d + i) 0) d (i + 1)

-- while(src[i] != '\0' && i < n) dest[i] = src[i], and the fill that follows.
strncpy_loop : ℕ → Bytes → ℕ → Bytes → ℕ → ℕ → Bytes
strncpy_loop zero dest d src s i = dest
strncpy_loop (suc rounds) dest d src s i =
    let rest = strncpy_loop rounds (update dest (d + i) (src (s + i))) d src s (i + 1) in
    let fill = strncpy_fill (suc rounds) dest d i in if src (s + i) == 0 then fill else rest

unfoldable pub strncpy : Bytes → ℕ → Bytes → ℕ → ℕ → Bytes
unfolding strncpy_loop strncpy_fill
strncpy dest d src s n = strncpy_loop n dest d src s 0

-- tmp = s[end]; s[end] = s[beg]; s[beg] = tmp;
abbrev pub swap : Bytes → ℕ → ℕ → Bytes
swap s a b = update (update s b (s a)) a (s b)

-- while(beg < end), on signed words.
unfoldable pub strrev_loop : ℕ → Bytes → ℕ → ℕ → ℕ → Bytes
strrev_loop zero s p beg end = s
strrev_loop (suc fuel) s p beg end =
    let rest = strrev_loop fuel (swap s (p + beg) (p + end)) p (beg + 1) (sub32 end 1) in
    if slt beg end then rest else s

-- The string's length bounds the rounds. An empty string starts at end = -1.
unfoldable pub strrev : Bytes → ℕ → Option Bytes
strrev s p = do n ← strlen s p; some (strrev_loop n s p 0 (sub32 n 1))

-- lookup[i] of "0123456789ABCDEFGHIJKLMNOPQRSTUVWXYZ": 36 characters and the literal's NUL at 36, behind
-- which nothing is read.
abbrev pub digit_char : ℕ → ℕ
digit_char i = if ltb i 10 then b'0' + i else if ltb i 36 then b'A' + (i - 10) else 0

-- The digits from the lowest on, and the position behind them. `none` is also a division by 0 and a read
-- behind the table.
unfoldable pub itoa_loop : ℕ → ℕ → ℕ → Bytes → ℕ → Option (ℕ × Bytes)
itoa_loop zero newval radix buf newbuf = none
itoa_loop (suc fuel) newval radix buf newbuf =
    let rest =
      itoa_loop fuel (newval / radix) radix (update buf newbuf (digit_char (newval % radix)))
        (newbuf + 1) in
    if newval == 0
    then some (newbuf, buf)
    else if radix == 0 || ltb 36 (newval % radix)
    then none
    else rest

-- A 32-bit number has at most 32 digits, and one more round sees the zero.
unfoldable pub itoa : ℕ → Bytes → ℕ → ℕ → Option Bytes
itoa value buf p radix =
    if value == 0
    then some (update (update buf p b'0') (p + 1) 0)
    else do (newbuf, digits) ← itoa_loop 33 value radix buf p; strrev (update digits newbuf 0) p
