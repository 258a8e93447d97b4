-- ===== src/Text/Length.antt =====
-- What strlen finds.
use zbiggie.Prelude.{
  ℕ, zero, suc, ◌+◌, ◌<◌, ◌≡◌, ◌≢◌, ◌↔◌, arith, some, ◌==◌, modulus, Bytes, Bool-cases, inl, inr,
}
use zbiggie.Text.{strlen, strlen_loop}

-- The `k` bytes from `p` on are not NUL, and the next one is.
pub record IsString (s : Bytes) (p k : ℕ) : Type 0 where
  pub nul : s (p + k) ≡ 0
  pub text : (i : ℕ) → i < k → s (p + i) ≢ 0

strlen_loop-IsString :
    (fuel : ℕ) (s : Bytes) (p len j k : ℕ)
    → len + j ≡ k
    → j < fuel
    → IsString s p k
    → strlen_loop fuel s p len ≡ some k
unfolding strlen_loop
strlen_loop-IsString zero s p len j k e h t = absurd (omega arith)
strlen_loop-IsString (suc fuel) s p len zero k e h t = ground (arith, t.nul)
strlen_loop-IsString (suc fuel) s p len (suc j) k e h t = ground (
  arith,
  t.text len (omega arith),
  strlen_loop-IsString fuel s p (len + 1) j k (omega arith) (omega arith) t,
)

-- The string that strlen has measured.
IsString-strlen_loop :
    (fuel : ℕ) (s : Bytes) (p len k : ℕ)
    → ((i : ℕ) → i < len → s (p + i) ≢ 0)
    → strlen_loop fuel s p len ≡ some k
    → IsString s p k
unfolding strlen_loop
IsString-strlen_loop zero s p len k before h = absurd (cc)
IsString-strlen_loop (suc fuel) s p len k before h = elim (Bool-cases (s (p + len) == 0)) [
  | inl done ↦
      let e : len ≡ k = ground arith in rw (← e) (record { nul = ground arith; text = before })
  | inr more ↦
      IsString-strlen_loop fuel s p (len + 1) k (λ i lt. grind (arith, before)) (ground arith)
]

-- strlen returns `k` exactly for a pointer to `k` bytes that are not NUL and a NUL behind them, as
-- long as `k` fits the address space.
pub strlen_lem : (s : Bytes) (p k : ℕ) → k < modulus → IsString s p k ↔ (strlen s p ≡ some k)
unfolding strlen
strlen_lem s p k h = (
  strlen_loop-IsString modulus s p 0 k k (omega arith) h,
  IsString-strlen_loop modulus s p 0 k (λ i lt. absurd (omega arith)),
)
