-- ===== src/Text/Compare.antt =====
-- What the result 0 of strncmp says.
use zbiggie.Prelude.{
  ℕ, zero, suc, ◌+◌, ◌<◌, ◌≡◌, ◌≢◌, ◌↔◌, false, inl, inr, arith, ◌==◌, Bytes, Bool-cases,
}
use zbiggie.Text.{strncmp, strncmp_loop}

-- Within `n` bytes, from byte `i` on, the strings agree up to and including the first NUL byte.
abbrev pub SameFrom : Bytes → ℕ → Bytes → ℕ → ℕ → ℕ → Type 0
SameFrom s p t q n i =
    (j : ℕ)
    → i + j < n
    → ((l : ℕ) → l < j → s (p + (i + l)) ≢ 0)
    → s (p + (i + j)) ≡ t (q + (i + j))

module _ (s : Bytes) (p : ℕ) (t : Bytes) (q : ℕ) (bytes_s : (a : ℕ) → s a < 256)
    (bytes_t : (a : ℕ) → t a < 256) where
  strncmp_loop-SameFrom :
      (r n i : ℕ) → i + r ≡ n → strncmp_loop r s p t q i ≡ 0 → SameFrom s p t q n i
  unfolding strncmp_loop
  strncmp_loop-SameFrom zero n i e h j lt text = absurd (omega arith)
  strncmp_loop-SameFrom (suc r) n i e h zero lt text =
      let at : i + 0 ≡ i = omega arith in rw at (ground (arith, bytes_s (p + i), bytes_t (q + i)))
  strncmp_loop-SameFrom (suc r) n i e h (suc j) lt text =
      let at : i + suc j ≡ i + 1 + j = omega arith in
      let at0 : i + 0 ≡ i = omega arith in
      let more : s (p + i) ≢ 0 =
        (let first : s (p + (i + 0)) ≢ 0 = text 0 (omega arith) in rw at0 at first) in
      rw at (
        strncmp_loop-SameFrom r n (i + 1) (omega arith)
          (ground (arith, bytes_s (p + i), bytes_t (q + i))) j (omega arith)
          (λ l ll.
            let al : i + suc l ≡ i + 1 + l = omega arith in rw al at (text (suc l) (omega arith))))

  SameFrom-strncmp_loop :
      (r n i : ℕ) → i + r ≡ n → SameFrom s p t q n i → strncmp_loop r s p t q i ≡ 0
  unfolding strncmp_loop
  SameFrom-strncmp_loop zero n i e h = ground arith
  SameFrom-strncmp_loop (suc r) n i e h =
      let at0 : i + 0 ≡ i = omega arith in
      let first : s (p + i) ≡ t (q + i) =
        (let f : s (p + (i + 0)) ≡ t (q + (i + 0)) =
            h 0 (omega arith) (λ l ll. absurd (omega arith)) in
          rw at0 at f) in
      elim (Bool-cases (s (p + i) == 0)) [
        | inl done ↦ ground arith
        | inr more ↦
            let rest = SameFrom-strncmp_loop r n (i + 1) (omega arith) (λ j lt text.
              let al : i + 1 + j ≡ i + suc j = omega arith in
              rw al (h (suc j) (omega arith) (after more text))) in
            ground arith
      ]
    where
      after :
          {j : ℕ}
          → ((s (p + i) == 0) ≡ false)
          → ((l : ℕ) → l < j → s (p + (i + 1 + l)) ≢ 0)
          → (l : ℕ) → l < suc j
          → s (p + (i + l)) ≢ 0
      after more text zero ll = let at0 : i + 0 ≡ i = omega arith in rw at0 (ground arith)
      after more text (suc l) ll =
          let al : i + suc l ≡ i + 1 + l = omega arith in rw al (text l (omega arith))

-- strncmp of two byte strings returns 0 exactly if they agree, within `n` bytes, up to and including
-- the first NUL byte.
pub strncmp_zero_iff :
    (s : Bytes) (p : ℕ) (t : Bytes) (q n : ℕ)
    → ((a : ℕ) → s a < 256)
    → ((a : ℕ) → t a < 256)
    → (strncmp s p t q n ≡ 0) ↔ SameFrom s p t q n 0
unfolding strncmp
strncmp_zero_iff s p t q n bs bt = (
  strncmp_loop-SameFrom s p t q bs bt n n 0 (omega arith),
  SameFrom-strncmp_loop s p t q bs bt n n 0 (omega arith),
)
