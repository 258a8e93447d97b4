-- ===== src/Console/Scroll.antt =====
-- What the scrolls leave on the screen.
use zbiggie.Prelude.{
  ℕ, ◌+◌, ◌-◌, ◌*◌, ◌%◌, ◌≡◌, ◌∙◌, refl, arith, ◌==◌, ◌&&◌, ltb, leb, if◌then◌else◌, Bytes,
  for_range, for_range_inv,
}
use zbiggie.Console.{Console, attribs, video_mem, put_cell, raise_cell, scroll_cells, scroll}

-- The first `k` cells of the screen hold what stood one row below them.
abbrev raised : ℕ → Bytes → ℕ → ℕ → ℕ
raised base m k a = if leb base a && ltb a (base + 2 * k) then m (a + 160) else m a

raise_cell-raised :
    (base : ℕ) (m n : Bytes) (i : ℕ)
    → ((a : ℕ) → n a ≡ raised base m i a)
    → (a : ℕ) → raise_cell base i n a ≡ raised base m (i + 1) a
unfolding raise_cell
raise_cell-raised base m n i h a =
    let below : base + 2 * (i + 80) ≡ base + 2 * i + 160 = omega arith in
    let below' : base + 2 * (i + 80) + 1 ≡ base + 2 * i + 1 + 160 = omega arith in
    ground (arith, h a, h (base + 2 * (i + 80)), h (base + 2 * (i + 80) + 1))

raise_row-raised :
    (base : ℕ) (m n : Bytes) (y : ℕ)
    → ((a : ℕ) → n a ≡ raised base m (80 * y) a)
    → (a : ℕ)
    → for_range 80 0 (λ x. raise_cell base (80 * y + x)) n a ≡ raised base m (80 * (y + 1)) a
raise_row-raised base m n y h a =
    let done =
      for_range_inv (λ k (t : Bytes). (b : ℕ) → t b ≡ raised base m (80 * y + k) b)
        (λ x. raise_cell base (80 * y + x)) 80 0 80 n refl
        (λ k t lo hi p b.
          (let e : 80 * y + (k + 1) ≡ 80 * y + k + 1 = omega arith in
            rw e (raise_cell-raised base m t (80 * y + k) p b)))
        (λ b. (let e : 80 * y + 0 ≡ 80 * y = omega arith in rw e (h b))) in
    let e : 80 * (y + 1) ≡ 80 * y + 80 = omega arith in rw e (done a)

raise_rows-raised :
    (base : ℕ) (m : Bytes) (a : ℕ)
    → for_range 24 1 (λ y n. for_range 80 0 (λ x. raise_cell base (80 * (y - 1) + x)) n) m a
      ≡ raised base m 1920 a
raise_rows-raised base m =
    for_range_inv (λ y (t : Bytes). (b : ℕ) → t b ≡ raised base m (80 * (y - 1)) b)
      (λ y n. for_range 80 0 (λ x. raise_cell base (80 * (y - 1) + x)) n) 24 1 25 m refl
      (λ y t lo hi p b.
        (let e : y + 1 - 1 ≡ y - 1 + 1 = omega arith in
          rw e (raise_row-raised base m t (y - 1) p b)))
      (λ b. ground arith)

-- The scrolled screen, address by address: 24 rows come from below, the last row is blank.
abbrev pub scrolled : ℕ → ℕ → Bytes → ℕ → ℕ
scrolled base attrib m a =
    if leb base a && ltb a (base + 3840)
    then m (a + 160)
    else if leb (base + 3840) a && ltb a (base + 4000)
    then if (a - base) % 2 == 0 then 0 else attrib
    else m a

blank_row-blank :
    (base attrib : ℕ) (m : Bytes) (a : ℕ)
    → for_range 80 0 (λ x n. put_cell n (base + 2 * (80 * 24 + x)) 0 attrib) m a ≡ (
        if leb (base + 3840) a && ltb a (base + 4000)
        then if (a - base) % 2 == 0 then 0 else attrib
        else m a)
blank_row-blank base attrib m a =
    let done =
      for_range_inv
        (λ k (t : Bytes).
          (b : ℕ)
          → t b ≡ (
              if leb (base + 3840) b && ltb b (base + 3840 + 2 * k)
              then if (b - base) % 2 == 0 then 0 else attrib
              else m b))
        (λ x n. put_cell n (base + 2 * (80 * 24 + x)) 0 attrib) 80 0 80 m refl
        (λ k t lo hi p b. ground (arith, p b)) (λ b. ground arith) in
    let e : base + 4000 ≡ base + 3840 + 160 = omega arith in rw e (done a)

pub scroll_cells-scrolled :
    (base attrib : ℕ) (m : Bytes) (a : ℕ) → scroll_cells base attrib m a ≡ scrolled base attrib m a
unfolding scroll_cells
scroll_cells-scrolled base attrib m a =
    blank_row-blank base attrib _ a ∙ ground (arith, raise_rows-raised base m a)

-- scroll moves each row of the screen up by one, blanks the last in the color of the terminal, writes
-- no byte outside the screen, and puts the cursor at the start of the last row.
pub scroll_lem :
    (s : Console) (a : ℕ)
    → let s' = scroll s in
      (s'.video a ≡ scrolled video_mem (attribs s.current_terminal) s.video a)
      × (s'.screen_x s.current_terminal ≡ 0)
      × (s'.screen_y s.current_terminal ≡ 24)
unfolding scroll
scroll_lem s a = (
  scroll_cells-scrolled video_mem (attribs s.current_terminal) s.video a,
  ground arith,
  ground arith,
)
