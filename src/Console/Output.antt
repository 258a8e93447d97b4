-- ===== src/Console/Output.antt =====
-- The output of a whole string.
use zbiggie.Prelude.{
  ℕ, zero, suc, ◌+◌, ◌<◌, ◌≡◌, ◌≢◌, ◌∙◌, refl, arith, false, some, ◌==◌, modulus, Bytes, for_range,
}
use zbiggie.Text.Length.{IsString}
use zbiggie.Console.{Console}
use zbiggie.Console.Print.{putc}
use zbiggie.Console.Format.{puts, puts_loop}

-- The `n` characters from `p` on, one by one.
abbrev pub printed : Bytes → ℕ → ℕ → Console → Console
printed m p n c = for_range n 0 (λ i. putc (m (p + i))) c

puts_loop-printed :
    (n fuel : ℕ) (m : Bytes) (s index : ℕ) (c : Console)
    → n < fuel
    → IsString m (s + index) n
    → puts_loop fuel m s index c ≡ some (index + n, for_range n index (λ i. putc (m (s + i))) c)
unfolding puts_loop for_range
puts_loop-printed n zero m s index c h t = absurd (omega arith)
puts_loop-printed zero (suc fuel) m s index c h t =
    let nul : m (s + index) ≡ 0 = (let e : s + index ≡ s + index + 0 = omega arith in rw e t.nul) in
    let e : index + 0 ≡ index = omega arith in rw (nul, e) refl
puts_loop-printed (suc n) (suc fuel) m s index c h t =
    let text : m (s + index) ≢ 0 =
      (let e : s + index ≡ s + index + 0 = omega arith in rw e (t.text 0 (omega arith))) in
    let rest : IsString m (s + (index + 1)) n = record {
      nul = (let e : s + (index + 1) + n ≡ s + index + suc n = omega arith in rw e t.nul);
      text = λ i q.
          (let e : s + (index + 1) + i ≡ s + index + (i + 1) = omega arith in
            rw e (t.text (i + 1) (omega arith)));
    } in
    let test : m (s + index) == 0 ≡ false = ground arith in
    let e : index + 1 + n ≡ index + suc n = omega arith in
    rw test (
      puts_loop-printed n fuel m s (index + 1) (putc (m (s + index)) c) (omega arith) rest
      ∙ rw e refl)

-- puts of a string whose `n` characters fit into the address space returns `n`, and prints its
-- characters in their order and nothing else.
pub puts_lem :
    (m : Bytes) (s n : ℕ) (c : Console)
    → IsString m s n
    → n < modulus
    → puts m s c ≡ some (n, printed m s n c)
unfolding puts
puts_lem m s n c t h =
    let done = puts_loop-printed n modulus m s 0 c h (let e : s + 0 ≡ s = omega arith in rw e t) in
    let z : 0 + n ≡ n = omega arith in done ∙ rw z refl
