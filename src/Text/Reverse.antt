-- ===== src/Text/Reverse.antt =====
-- What strrev leaves in its string.
use zbiggie.Prelude.{
  ℕ, zero, suc, ◌+◌, ◌-◌, ◌*◌, ◌≤◌, ◌<◌, ◌≡◌, refl, ◌&&◌, arith, true, false, Bool-cases, inl, inr,
  some, ltb, leb, if◌then◌else◌, sub32, slt, Bytes, ◌∙◌,
}
use zbiggie.Text.{strrev, strrev_loop, swap}
use zbiggie.Text.Length.{IsString, strlen_lem}

-- The bytes from `p + beg` to `p + end` in reverse order.
abbrev pub mirrored : Bytes → ℕ → ℕ → ℕ → ℕ → ℕ
mirrored s p beg end a =
    if leb (p + beg) a && leb a (p + end) then s (p + beg + (p + end) - a) else s a

slt→lt : (a b : ℕ) → a < 2147483648 → b < 2147483648 → slt a b ≡ true → a < b
slt→lt a b ha hb h = ground arith

not-slt→le : (a b : ℕ) → a < 2147483648 → b < 2147483648 → slt a b ≡ false → b ≤ a
not-slt→le a b ha hb h = ground arith

strrev_loop-mirrored :
    (fuel : ℕ) (s : Bytes) (p beg end a : ℕ)
    → beg ≤ end + 1
    → end < 2147483647
    → end < beg + 2 * fuel
    → strrev_loop fuel s p beg end a ≡ mirrored s p beg end a
unfolding strrev_loop
strrev_loop-mirrored zero s p beg end a h small f = ground arith
strrev_loop-mirrored (suc fuel) s p beg zero a h small f = ground arith
strrev_loop-mirrored (suc fuel) s p beg (suc end) a h small f =
    let e : sub32 (suc end) 1 ≡ end = omega arith in
    let small' : end < 2147483647 = omega arith in
    rw e (elim (Bool-cases (slt beg (suc end))) [
      | inl more ↦
          let lt : beg < suc end = slt→lt beg (suc end) (omega arith) (omega arith) more in
          rw more (
            strrev_loop-mirrored fuel (swap s (p + beg) (p + suc end)) p (beg + 1) end a
              (omega arith) small' (omega arith)
            ∙ ground arith)
      | inr done ↦
          let ge : suc end ≤ beg = not-slt→le beg (suc end) (omega arith) (omega arith) done in
          rw done (ground arith)
    ])

-- strrev of a string of `n` bytes, fewer than 2 ^ 31, ends, reverses those, and keeps the NUL and
-- every other byte.
pub strrev_lem :
    (s : Bytes) (p n : ℕ)
    → n < 2147483648
    → IsString s p n
    → (t : Bytes) × (strrev s p ≡ some t)
      × ((i : ℕ) → i < n → t (p + i) ≡ s (p + (n - 1 - i)))
      × ((a : ℕ) → (leb p a && ltb a (p + n)) ≡ false → t a ≡ s a)
unfolding strrev strrev_loop
strrev_lem s p zero h str =
    (s, rw ((strlen_lem s p 0 (omega arith)).0 str), λ i lt. absurd (omega arith), λ a out. refl)
strrev_lem s p (suc n) h str =
    let e : sub32 (suc n) 1 ≡ n = omega arith in
    let at =
      λ (a : ℕ). strrev_loop-mirrored (suc n) s p 0 n a (omega arith) (omega arith) (omega arith) in
    (
      strrev_loop (suc n) s p 0 n,
      rw ((strlen_lem s p (suc n) (omega arith)).0 str, e),
      λ i lt.
          (let k : p + 0 + (p + n) - (p + i) ≡ p + (suc n - 1 - i) = omega arith in
            ground (arith, at (p + i), k)),
      λ a out. ground (arith, at a),
    )
