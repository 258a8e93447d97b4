-- ===== src/User/Same.antt =====
-- The support library of the programs against the kernel's own string functions.
use zbiggie.Prelude.{
  ℕ, zero, suc, ◌+◌, ◌/◌, ◌^◌, ◌≤◌, ◌<◌, ◌∙◌, ◌≡◌, ap, refl, arith, true, false, Bool-cases, inl,
  inr, Option-cases, sym, Option, none, some, ◌==◌, if◌then◌else◌, modulus, sub32, slt, sle, Bytes,
  update, ◌>>=◌,
}
use zbiggie.Text.Numerals.{itoa-IsString}
use zbiggie.Text.{strlen, strlen_loop, strrev, strrev_loop, itoa, itoa_loop}
use zbiggie.User.{
  ece391_strlen, ece391_strlen_loop, ece391_strrev, ece391_strrev_loop, ece391_itoa,
  ece391_itoa_loop,
}

ece391_strlen_loop-strlen_loop :
    (fuel : ℕ) (m : Bytes) (s len : ℕ)
    → ece391_strlen_loop fuel m (s + len) len ≡ strlen_loop fuel m s len
unfolding ece391_strlen_loop strlen_loop
ece391_strlen_loop-strlen_loop zero m s len = refl
ece391_strlen_loop-strlen_loop (suc fuel) m s len =
    let e : s + len + 1 ≡ s + (len + 1) = omega arith in
    rw (e, ece391_strlen_loop-strlen_loop fuel m s (len + 1))

-- The strlen of the programs is the kernel's.
pub ece391_strlen-strlen : (m : Bytes) (s : ℕ) → ece391_strlen m s ≡ strlen m s
unfolding ece391_strlen strlen
ece391_strlen-strlen m s =
    let e : s + 0 ≡ s = omega arith in rw e at (ece391_strlen_loop-strlen_loop modulus m s 0)

strrev_loop-same :
    (fuel : ℕ) (m : Bytes) (s beg end : ℕ)
    → ece391_strrev_loop fuel m s beg end ≡ strrev_loop fuel m s beg end
unfolding ece391_strrev_loop strrev_loop
strrev_loop-same zero m s beg end = refl
strrev_loop-same (suc fuel) m s beg end = rw (strrev_loop-same fuel _ s (beg + 1) (sub32 end 1))

itoa_loop-same :
    (fuel v radix : ℕ) (m : Bytes) (p : ℕ)
    → ece391_itoa_loop fuel v radix m p ≡ itoa_loop fuel v radix m p
unfolding ece391_itoa_loop itoa_loop
itoa_loop-same zero v radix m p = refl
itoa_loop-same (suc fuel) v radix m p = rw (itoa_loop-same fuel (v / radix) radix _ (p + 1))

strrev_loop-stops : (n : ℕ) (m : Bytes) (s e : ℕ) → sle e 0 ≡ true → strrev_loop n m s 0 e ≡ m
unfolding strrev_loop
strrev_loop-stops zero m s e h = refl
strrev_loop-stops (suc n) m s e h = let stop : slt 0 e ≡ false = ground arith in rw stop refl

reversed_same :
    (n : ℕ) (m : Bytes) (s e : ℕ)
    → (if sle e 0 then m else ece391_strrev_loop n m s 0 e) ≡ strrev_loop n m s 0 e
reversed_same n m s e = elim (Bool-cases (sle e 0)) [
  | inl h ↦ rw h (sym (strrev_loop-stops n m s e h))
  | inr h ↦ rw h (strrev_loop-same n m s 0 e)
]

-- The strrev of the programs is the kernel's, although it leaves short strings alone before its loop.
pub ece391_strrev-strrev : (m : Bytes) (s : ℕ) → ece391_strrev m s ≡ strrev m s
unfolding ece391_strrev strrev
ece391_strrev-strrev m s = elim (Option-cases (strlen m s)) [
  | inl e ↦ rw (ece391_strlen-strlen m s, e)
  | inr (n, e) ↦ rw (ece391_strlen-strlen m s, e) (ap some (reversed_same n m s (sub32 n 1)))
]

itoa-same :
    (value : ℕ) (m : Bytes) (buf radix : ℕ) → ece391_itoa value m buf radix ≡ itoa value m buf radix
unfolding ece391_itoa itoa
itoa-same value m buf radix = elim (Bool-cases (value == 0)) [
  | inl z ↦ rw z refl
  | inr nz ↦ rw nz (reversed (itoa_loop 33 value radix m buf) (itoa_loop-same 33 value radix m buf))
]
  where
    reversed :
        (r : Option (ℕ × Bytes))
        → ece391_itoa_loop 33 value radix m buf ≡ r
        → (do
          (newbuf, digits) ← ece391_itoa_loop 33 value radix m buf
          ece391_strrev (update digits newbuf 0) buf)
          ≡ (do (newbuf, digits) ← r; strrev (update digits newbuf 0) buf)
    reversed none e = rw e refl
    reversed (some (newbuf, digits)) e = rw e (ece391_strrev-strrev (update digits newbuf 0) buf)

-- For a 32-bit number at a radix from 2 to 36, the digits that the two tables have, the itoa of the
-- programs and the kernel's both end, and leave the same memory.
pub ece391_itoa-itoa :
    (value : ℕ) (m : Bytes) (buf radix : ℕ)
    → value < 2 ^ 32
    → 2 ≤ radix
    → radix ≤ 36
    → (out : Bytes) × (ece391_itoa value m buf radix ≡ some out)
      × (itoa value m buf radix ≡ some out)
ece391_itoa-itoa value m buf radix small h table =
    let (n, out, run, str, short) = itoa-IsString value m buf radix small h table in
    (out, itoa-same value m buf radix ∙ run, run)
