-- ===== src/Block/Fill.antt =====
-- What memset leaves in memory.
use zbiggie.Prelude.{
  ℕ, zero, suc, ◌+◌, ◌*◌, ◌/◌, ◌%◌, ◌≡◌, ◌&&◌, arith, ltb, leb, if◌then◌else◌, Bytes, ◌∙◌, update,
}
use zbiggie.Block.{memset, memset_top, memset_aligned, memset_bottom, stosl}

-- `n` bytes from `d` on hold `c`; the others are those of `m`.
abbrev pub filled : Bytes → ℕ → ℕ → ℕ → ℕ → ℕ
filled m d c n a = if leb d a && ltb a (d + n) then c else m a

module _ (c : ℕ) where
  -- The four bytes of eax.
  abbrev word_of : ℕ
  word_of = c * 16777216 + c * 65536 + c * 256 + c

  memset_bottom-filled :
      (n : ℕ) (m : Bytes) (d a : ℕ) → c ≡ c % 256 → memset_bottom n m d word_of a ≡ filled m d c n a
  unfolding memset_bottom
  memset_bottom-filled zero m d a b = ground arith
  memset_bottom-filled (suc n) m d a b = memset_bottom-filled n _ (d + 1) a b ∙ ground arith

  stosl-filled :
      (n : ℕ) (m : Bytes) (d a : ℕ) → c ≡ c % 256 → stosl n m d word_of a ≡ filled m d c (4 * n) a
  unfolding stosl
  stosl-filled zero m d a b = ground arith
  stosl-filled (suc n) m d a b = stosl-filled n _ (d + 4) a b ∙ ground arith

  memset_aligned-filled :
      (n : ℕ) (m : Bytes) (d a : ℕ)
      → c ≡ c % 256
      → memset_aligned n m d word_of a ≡ filled m d c n a
  unfolding memset_aligned
  memset_aligned-filled n m d a b =
      memset_bottom-filled (n % 4) _ (d + 4 * (n / 4)) a b
      ∙ ground (arith, stosl-filled (n / 4) m d a b)

  memset_top-filled :
      (n : ℕ) (m : Bytes) (d a : ℕ) → c ≡ c % 256 → memset_top n m d word_of a ≡ filled m d c n a
  unfolding memset_top
  memset_top-filled zero m d a b = ground arith
  memset_top-filled (suc n) m d a b = ground (
    arith,
    memset_aligned-filled (suc n) m d a b,
    memset_top-filled n (update m d (word_of % 256)) (d + 1) a b,
  )

-- memset sets exactly the `n` bytes from `d` on to the low byte of `c`, at any alignment, and leaves
-- every other byte as it was.
pub memset_lem :
    (m : Bytes) (d c n a : ℕ)
    → memset m d c n a ≡ (if leb d a && ltb a (d + n) then c % 256 else m a)
unfolding memset
memset_lem m d c n a = memset_top-filled (c % 256) n m d a (omega arith)
