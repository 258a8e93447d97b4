-- ===== src/Block/Move.antt =====
-- What memcpy and memmove leave in memory.
use zbiggie.Prelude.{
  ℕ, zero, suc, ◌+◌, ◌-◌, ◌*◌, ◌/◌, ◌%◌, ◌≡◌, ◌&&◌, arith, ltb, leb, if◌then◌else◌, Bytes, update,
  ◌∙◌, ◌≤◌, ◌<◌,
}
use zbiggie.Block.{
  memcpy, memcpy_top, memcpy_aligned, memcpy_bottom, movsl, memmove, movsb_up, movsb_down,
}

-- `n` bytes from `d` on are those of `src` from `s` on; the others are those of `m`.
abbrev pub pasted : Bytes → ℕ → Bytes → ℕ → ℕ → ℕ → ℕ
pasted m d src s n a = if leb d a && ltb a (d + n) then src (s + (a - d)) else m a

module _ (src : Bytes) where
  memcpy_bottom-pasted :
      (n : ℕ) (m : Bytes) (d s a : ℕ) → memcpy_bottom n m d src s a ≡ pasted m d src s n a
  unfolding memcpy_bottom
  memcpy_bottom-pasted zero m d s a = ground arith
  memcpy_bottom-pasted (suc n) m d s a = memcpy_bottom-pasted n _ (d + 1) (s + 1) a ∙ ground arith

  movsl-pasted : (n : ℕ) (m : Bytes) (d s a : ℕ) → movsl n m d src s a ≡ pasted m d src s (4 * n) a
  unfolding movsl
  movsl-pasted zero m d s a = ground arith
  movsl-pasted (suc n) m d s a = movsl-pasted n _ (d + 4) (s + 4) a ∙ ground arith

  memcpy_aligned-pasted :
      (n : ℕ) (m : Bytes) (d s a : ℕ) → memcpy_aligned n m d src s a ≡ pasted m d src s n a
  unfolding memcpy_aligned
  memcpy_aligned-pasted n m d s a =
      memcpy_bottom-pasted (n % 4) _ (d + 4 * (n / 4)) (s + 4 * (n / 4)) a
      ∙ ground (arith, movsl-pasted (n / 4) m d s a)

  memcpy_top-pasted :
      (n : ℕ) (m : Bytes) (d s a : ℕ) → memcpy_top n m d src s a ≡ pasted m d src s n a
  unfolding memcpy_top
  memcpy_top-pasted zero m d s a = ground arith
  memcpy_top-pasted (suc n) m d s a = ground (
    arith,
    memcpy_aligned-pasted (suc n) m d s a,
    memcpy_top-pasted n (update m d (src s)) (d + 1) (s + 1) a,
  )

-- memcpy, whose three phases move bytes, words and bytes, copies exactly the `n` bytes, at any
-- alignment, and leaves every other byte of the destination's memory as it was.
pub memcpy_lem :
    (m : Bytes) (d : ℕ) (src : Bytes) (s n a : ℕ)
    → memcpy m d src s n a ≡ (if leb d a && ltb a (d + n) then src (s + (a - d)) else m a)
unfolding memcpy
memcpy_lem m d src s n a = memcpy_top-pasted src n m d s a

-- An ascending copy in one memory from a source that does not stand below.
movsb_up-pasted : (n : ℕ) (m : Bytes) (d s a : ℕ) → d ≤ s → movsb_up n m d s a ≡ pasted m d m s n a
unfolding movsb_up
movsb_up-pasted zero m d s a h = ground arith
movsb_up-pasted (suc n) m d s a h =
    movsb_up-pasted n _ (d + 1) (s + 1) a (omega arith) ∙ ground arith

-- A descending copy of at least one byte; the pointers start at the last ones.
movsb_down-pasted :
    (n : ℕ) (m : Bytes) (d s a : ℕ)
    → s < d
    → movsb_down (suc n) m (d + n) (s + n) a ≡ pasted m d m s (suc n) a
unfolding movsb_down
movsb_down-pasted zero m d s a h = ground arith
movsb_down-pasted (suc n) m d s a h =
    let dp : d + suc n - 1 ≡ d + n = omega arith in
    let sp : s + suc n - 1 ≡ s + n = omega arith in
    rw (dp, sp) (movsb_down-pasted n (update m (d + suc n) (m (s + suc n))) d s a h ∙ ground arith)

-- memmove copies the `n` bytes as they were before, also where the two ranges overlap, and leaves
-- every other byte as it was.
pub memmove_lem :
    (m : Bytes) (d s n a : ℕ)
    → memmove m d s n a ≡ (if leb d a && ltb a (d + n) then m (s + (a - d)) else m a)
unfolding memmove
memmove_lem m d s zero a = ground (arith, movsb_up-pasted zero m d s a)
memmove_lem m d s (suc n) a =
    let dp : d + suc n - 1 ≡ d + n = omega arith in
    let sp : s + suc n - 1 ≡ s + n = omega arith in
    rw (dp, sp) (ground (arith, movsb_up-pasted (suc n) m d s a, movsb_down-pasted n m d s a))
