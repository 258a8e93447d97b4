-- ===== src/Console/Format/Ends.antt =====
-- Each conversion of printf that takes a word comes to its end.
use zbiggie.Prelude.{
  ℕ, zero, suc, ◌+◌, ◌-◌, ◌^◌, ◌≤◌, ◌<◌, ◌≡◌, refl, arith, Bool-cases, inl, inr, Option, some, ◌==◌,
  modulus, sub32, slt, Bytes, update, for_range, for_range_inv, ◌>>=◌,
}
use zbiggie.Text.{itoa}
use zbiggie.Text.Length.{strlen_lem}
use zbiggie.Text.Numerals.{itoa-IsString}
use zbiggie.Console.{Console}
use zbiggie.Console.Print.{putc}
use zbiggie.Console.Format.{
  puts, puts_loop, put_local, conv_buf, print_hex, print_hex_aligned, print_unsigned, print_signed,
}

-- There is a result.
abbrev pub Ends {ℓ} : {A : Type ℓ} → Option A → Type ℓ
Ends {A = A} r = (a : A) × (r ≡ some a)

-- A string that a NUL byte ends is printed.
puts_loop-Ends :
    (fuel j : ℕ) (m : Bytes) (s index : ℕ) (c : Console)
    → m (s + (index + j)) ≡ 0
    → j < fuel
    → (k : ℕ) × (d : Console) × (puts_loop fuel m s index c ≡ some (k, d))
unfolding puts_loop
puts_loop-Ends zero j m s index c nul lt = absurd (omega arith)
puts_loop-Ends (suc fuel) zero m s index c nul lt =
    let here : m (s + index) ≡ 0 = ground arith in (index, c, rw here refl)
puts_loop-Ends (suc fuel) (suc j) m s index c nul lt = elim (Bool-cases (m (s + index) == 0)) [
  | inl e ↦ (index, c, rw e refl)
  | inr e ↦
      let there : s + (index + 1 + j) ≡ s + (index + suc j) = omega arith in
      rw e (
        puts_loop-Ends fuel j m s (index + 1) (putc (m (s + index)) c) (rw there nul) (omega arith))
]

put_local-Ends :
    (buf : Bytes) (p j : ℕ) (c : Console) → buf (p + j) ≡ 0 → j < modulus → Ends (put_local buf p c)
unfolding put_local puts
put_local-Ends buf p j c nul lt =
    let (k, d, e) = puts_loop-Ends modulus j buf p 0 c (ground arith) lt in (d, rw e refl)

-- A numeral, from where it is printed.
numeral-Ends :
    (value : ℕ) (buf : Bytes) (p q radix : ℕ) (c : Console)
    → value < 2 ^ 32
    → 2 ≤ radix
    → radix ≤ 36
    → q ≤ p
    → p ≤ 8
    → Ends (do out ← itoa value buf p radix; put_local out q c)
numeral-Ends value buf p q radix c small h table le eight =
    let (n, out, run, str, short) = itoa-IsString value buf p radix small h table in
    let there : q + (p - q + n) ≡ p + n = omega arith in
    let (d, e) = put_local-Ends out q (p - q + n) c (rw there str.nul) (omega arith) in
    (d, rw run e)

pub print_hex-Ends : (n : ℕ) (c : Console) → n < 2 ^ 32 → Ends (print_hex n c)
unfolding print_hex
print_hex-Ends n c small =
    numeral-Ends n conv_buf 0 0 16 c small (omega arith) (omega arith) (omega arith) (omega arith)

pub print_unsigned-Ends : (n : ℕ) (c : Console) → n < 2 ^ 32 → Ends (print_unsigned n c)
unfolding print_unsigned
print_unsigned-Ends n c small =
    numeral-Ends n conv_buf 0 0 10 c small (omega arith) (omega arith) (omega arith) (omega arith)

pub print_signed-Ends : (n : ℕ) (c : Console) → n < 2 ^ 32 → Ends (print_signed n c)
unfolding print_signed
print_signed-Ends n c small = elim (Bool-cases (slt n 0)) [
  | inl e ↦ rw e (
      numeral-Ends (sub32 0 n) (update conv_buf 0 b'-') 1 0 10 c (omega arith) (omega arith)
        (omega arith) (omega arith) (omega arith))
  | inr e ↦ rw e (print_unsigned-Ends n c small)
]

-- The zeros in front of an aligned numeral leave its end.
fill-end :
    (n : ℕ) (b : Bytes) → b (8 + n) ≡ 0 → for_range (8 - n) n (λ i b. update b i b'0') b (n + 8) ≡ 0
fill-end n b nul =
    for_range_inv (λ i (t : Bytes). t (n + 8) ≡ 0) (λ i b. update b i b'0') (8 - n) n (n + (8 - n))
      b refl (λ i t lo hi h. ground arith) (let e : n + 8 ≡ 8 + n = omega arith in rw e nul)

pub print_hex_aligned-Ends : (n : ℕ) (c : Console) → n < 2 ^ 32 → Ends (print_hex_aligned n c)
unfolding print_hex_aligned
print_hex_aligned-Ends value c small =
    let (n, out, run, str, short) =
      itoa-IsString value conv_buf 8 16 small (omega arith) (omega arith) in
    let length = (strlen_lem out 8 n (omega arith)).0 str in
    let (d, e) =
      put_local-Ends (for_range (8 - n) n (λ i b. update b i b'0') out) n 8 c
        (fill-end n out str.nul) (omega arith) in
    (d, rw (run, length) e)
