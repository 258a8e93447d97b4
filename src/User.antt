-- ===== src/User.antt =====
-- The programs that run behind the system calls. This file is their support library,
-- syscalls/ece391support.c: strings by pointer in one memory, bytes unsigned. A loop that only a NUL
-- byte or a difference ends runs on fuel, and `none` means that it ran out.
pub mod Same
pub mod System
pub mod Programs
pub mod Grep
pub mod Syserr
pub mod Pingpong
pub mod Cat
pub mod Emulate
pub mod Entries
mod Tests
use zbiggie.Prelude.{
  ℕ, zero, suc, ◌+◌, ◌-◌, ◌/◌, ◌%◌, ◌||◌, Option, none, some, ◌==◌, ltb, if◌then◌else◌, modulus,
  sub32, slt, sle, Bytes, update, ◌>>=◌,
}

-- for (len = 0; '\0' != *s; s++, len++);
unfoldable pub ece391_strlen_loop : ℕ → Bytes → ℕ → ℕ → Option ℕ
ece391_strlen_loop zero m s len = none
ece391_strlen_loop (suc fuel) m s len =
    let rest = ece391_strlen_loop fuel m (s + 1) (len + 1) in if m s == 0 then some len else rest

unfoldable pub ece391_strlen : Bytes → ℕ → Option ℕ
ece391_strlen m s = ece391_strlen_loop modulus m s 0

-- The source and the destination may overlap.
unfoldable pub ece391_strcpy_loop : ℕ → Bytes → ℕ → ℕ → Option Bytes
ece391_strcpy_loop zero m dst src = none
ece391_strcpy_loop (suc fuel) m dst src =
    let moved = update m dst (m src) in
    let rest = ece391_strcpy_loop fuel moved (dst + 1) (src + 1) in
    if m src == 0 then some moved else rest

unfoldable pub ece391_strcpy : Bytes → ℕ → ℕ → Option Bytes
ece391_strcpy m dst src = ece391_strcpy_loop modulus m dst src

-- ((int32_t)*s1) - ((int32_t)*s2)
abbrev pub byte_difference : Bytes → ℕ → ℕ → ℕ
byte_difference m s1 s2 = sub32 (m s1) (m s2)

unfoldable pub ece391_strcmp_loop : ℕ → Bytes → ℕ → ℕ → Option ℕ
ece391_strcmp_loop zero m s1 s2 = none
ece391_strcmp_loop (suc fuel) m s1 s2 =
    let rest = ece391_strcmp_loop fuel m (s1 + 1) (s2 + 1) in
    if m s1 == m s2 then if m s1 == 0 then some 0 else rest else some (byte_difference m s1 s2)

unfoldable pub ece391_strcmp : Bytes → ℕ → ℕ → Option ℕ
ece391_strcmp m s1 s2 = ece391_strcmp_loop modulus m s1 s2

-- The count goes down in the loop's test, and a count of 0 compares nothing.
unfoldable pub ece391_strncmp : Bytes → ℕ → ℕ → ℕ → ℕ
ece391_strncmp m s1 s2 zero = 0
ece391_strncmp m s1 s2 (suc n) =
    let rest = ece391_strncmp m (s1 + 1) (s2 + 1) n in
    if m s1 == m s2 then if m s1 == 0 || n == 0 then 0 else rest else byte_difference m s1 s2

-- tmp = s[end]; s[end] = s[beg]; s[beg] = tmp;
abbrev pub exchange : Bytes → ℕ → ℕ → Bytes
exchange m a b = update (update m b (m a)) a (m b)

unfoldable pub ece391_strrev_loop : ℕ → Bytes → ℕ → ℕ → ℕ → Bytes
ece391_strrev_loop zero m s beg end = m
ece391_strrev_loop (suc fuel) m s beg end =
    let rest = ece391_strrev_loop fuel (exchange m (s + beg) (s + end)) s (beg + 1) (sub32 end 1) in
    if slt beg end then rest else m

-- A string of at most one byte is left as it is before the loop.
unfoldable pub ece391_strrev : Bytes → ℕ → Option Bytes
ece391_strrev m s = do
  n ← ece391_strlen m s
  some (if sle (sub32 n 1) 0 then m else ece391_strrev_loop n m s 0 (sub32 n 1))

-- The table of ece391_itoa, which is one of its own.
abbrev pub ece391_digit_char : ℕ → ℕ
ece391_digit_char i = if ltb i 10 then b'0' + i else if ltb i 36 then b'A' + (i - 10) else 0

-- `none` is also a division by 0 and a read behind the table.
unfoldable pub ece391_itoa_loop : ℕ → ℕ → ℕ → Bytes → ℕ → Option (ℕ × Bytes)
ece391_itoa_loop zero newval radix m newbuf = none
ece391_itoa_loop (suc fuel) newval radix m newbuf =
    let rest =
      ece391_itoa_loop fuel (newval / radix) radix
        (update m newbuf (ece391_digit_char (newval % radix))) (newbuf + 1) in
    if newval == 0
    then some (newbuf, m)
    else if radix == 0 || ltb 36 (newval % radix)
    then none
    else rest

unfoldable pub ece391_itoa : ℕ → Bytes → ℕ → ℕ → Option Bytes
ece391_itoa value m buf radix =
    if value == 0 then some (update (update m buf b'0') (buf + 1) 0) else do
      (newbuf, digits) ← ece391_itoa_loop 33 value radix m buf
      ece391_strrev (update digits newbuf 0) buf
