-- ===== src/Text/Copy.antt =====
-- What strncpy and strcpy leave in the destination.
use zbiggie.Prelude.{
  ℕ, zero, suc, ◌+◌, ◌-◌, ◌≤◌, ◌<◌, ◌≡◌, ◌≢◌, ◌⊎◌, inl, inr, ◌&&◌, arith, ltb, leb, if◌then◌else◌,
  Bytes, update, Bool-cases, ◌∙◌,
}
use zbiggie.Text.{strncpy, strncpy_loop, strncpy_fill}

strncpy_fill-zero :
    (n : ℕ) (dest : Bytes) (d i a : ℕ)
    → strncpy_fill n dest d i a ≡ (if leb (d + i) a && ltb a (d + i + n) then 0 else dest a)
unfolding strncpy_fill
strncpy_fill-zero zero dest d i a = ground arith
strncpy_fill-zero (suc n) dest d i a =
    ground (arith, strncpy_fill-zero n (update dest (d + i) 0) d (i + 1) a)

module _ (src : Bytes) (s k : ℕ) (text : (i : ℕ) → i < k → src (s + i) ≢ 0) where
  strncpy_loop_lem :
      (n : ℕ) (dest : Bytes) (d i a : ℕ)
      → i ≤ k
      → (i + n ≤ k) ⊎ (src (s + k) ≡ 0)
      → strncpy_loop n dest d src s i a ≡ (
          if leb (d + i) a && ltb a (d + i + n)
          then if ltb (a - d) k then src (s + (a - d)) else 0
          else dest a)
  unfolding strncpy_loop
  strncpy_loop_lem zero dest d i a h stop = ground arith
  strncpy_loop_lem (suc n) dest d i a h stop = elim (Bool-cases (ltb i k)) [
    | inl lt ↦ ground (
      arith,
      text i (ground arith),
      strncpy_loop_lem n (update dest (d + i) (src (s + i))) d (i + 1) a (ground arith)
          (ground arith),
    )
    | inr ge ↦
        let e : i ≡ k = ground arith in ground (arith, e, strncpy_fill-zero (suc n) dest d i a)
  ]

-- strncpy writes exactly the `n` bytes of the destination: the source up to its first NUL byte, which
-- stands at `k` or not before `n`, and then NUL bytes.
pub strncpy_lem :
    (dest : Bytes) (d : ℕ) (src : Bytes) (s n k : ℕ)
    → ((i : ℕ) → i < k → src (s + i) ≢ 0)
    → (n ≤ k) ⊎ (src (s + k) ≡ 0)
    → (a : ℕ)
    → strncpy dest d src s n a ≡ (
        if leb d a && ltb a (d + n) then if ltb (a - d) k then src (s + (a - d)) else 0 else dest a)
unfolding strncpy
strncpy_lem dest d src s n k text stop a =
    strncpy_loop_lem src s k text n dest d 0 a (omega arith) (ground arith) ∙ ground arith
