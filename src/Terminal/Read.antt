-- ===== src/Terminal/Read.antt =====
-- A read from the keyboard hands over the line up to its '\n' or NUL.
use zbiggie.Prelude.{
  ℕ, zero, suc, ◌+◌, ◌-◌, ◌<◌, ◌≡◌, ◌∙◌, arith, Bool, true, false, ◌==◌, ◌&&◌, ◌||◌, ltb, leb,
  if◌then◌else◌, slt, update, Bytes,
}
use zbiggie.Terminal.{Terminal, term_read_loop, term_read_finish}

-- A byte that ends a line.
abbrev pub ends : ℕ → Bool
ends c = c == 10 || c == 0

-- The caller's memory behind a read of `d` bytes and the end of the line, from byte `i` on.
abbrev pub line_read : Bytes → ℕ → ℕ → ℕ → Bytes → ℕ → ℕ
line_read m buf i d line a =
    if leb (buf + i) a && ltb a (buf + i + d)
    then line (a - buf)
    else if a == buf + i + d
    then 10
    else if a == buf + i + d + 1
    then 0
    else m a

term_read_loop-line :
    (d rounds : ℕ) (m : Bytes) (buf i : ℕ) (line : Bytes)
    → d < rounds
    → ((j : ℕ) → j < d → ends (line (i + j)) ≡ false)
    → ends (line (i + d)) ≡ true
    → let (n, m', line') = term_read_loop rounds m buf i line in
      (n ≡ i + d + 1) × ((a : ℕ) → m' a ≡ line_read m buf i d line a)
unfolding term_read_loop
term_read_loop-line d zero m buf i line h p e = ground arith
term_read_loop-line zero (suc rounds) m buf i line h p e =
    let e' : ends (line i) ≡ true = (let z : i ≡ i + 0 = omega arith in rw z e) in
    rw e' (omega arith, λ a. ground arith)
term_read_loop-line (suc d) (suc rounds) m buf i line h p e =
    let here : ends (line i) ≡ false =
      (let z : i ≡ i + 0 = omega arith in rw z (p 0 (omega arith))) in
    let (n, copied) =
      term_read_loop-line d rounds (update m (buf + i) (line i)) buf (i + 1) (update line i 0)
        (omega arith)
        (λ j q.
          (let z : i + 1 + j ≡ i + (j + 1) = omega arith in
            ground (arith, z, p (j + 1) (omega arith))))
        (let z : i + 1 + d ≡ i + suc d = omega arith in ground (arith, z, e)) in
    rw here (n ∙ omega arith, λ a. ground (arith, copied a))

term_read_loop-full :
    (rounds : ℕ) (m : Bytes) (buf i : ℕ) (line : Bytes)
    → ((j : ℕ) → j < rounds → ends (line (i + j)) ≡ false)
    → let (n, m', line') = term_read_loop rounds m buf i line in
      (n ≡ i + rounds)
      × ((a : ℕ)
          → m' a ≡ (if leb (buf + i) a && ltb a (buf + i + rounds) then line (a - buf) else m a))
unfolding term_read_loop
term_read_loop-full zero m buf i line p = (omega arith, λ a. ground arith)
term_read_loop-full (suc rounds) m buf i line p =
    let here : ends (line i) ≡ false =
      (let z : i ≡ i + 0 = omega arith in rw z (p 0 (omega arith))) in
    let (n, copied) =
      term_read_loop-full rounds (update m (buf + i) (line i)) buf (i + 1) (update line i 0) (λ j q.
        (let z : i + 1 + j ≡ i + (j + 1) = omega arith in
          ground (arith, z, p (j + 1) (omega arith)))) in
    rw here (n ∙ omega arith, λ a. ground (arith, copied a))

-- A read of a count below 2 ^ 31, behind whose wait the line holds `d` bytes and then a '\n' or NUL,
-- with `d` below the count, returns d + 1, and leaves in the caller's memory those bytes, a '\n' and
-- a NUL, and nothing else.
pub term_read_finish-line :
    (m : Bytes) (buf numbytes d : ℕ) (s : Terminal)
    → numbytes < 2147483648
    → d < numbytes
    → ((j : ℕ) → j < d → ends (s.buffer s.current_terminal j) ≡ false)
    → ends (s.buffer s.current_terminal d) ≡ true
    → let (n, m', s') = term_read_finish m buf numbytes s in
      (n ≡ d + 1) × ((a : ℕ) → m' a ≡ line_read m buf 0 d (s.buffer s.current_terminal) a)
unfolding term_read_finish
term_read_finish-line m buf numbytes d s h q p e =
    let sign : slt numbytes 0 ≡ false = ground arith in
    rw sign (
      let (n, copied) =
        term_read_loop-line d numbytes m buf 0 (s.buffer s.current_terminal) q
          (λ j r. (let z : 0 + j ≡ j = omega arith in rw z (p j r)))
          (let z : 0 + d ≡ d = omega arith in rw z e) in
      (n ∙ omega arith, copied))

-- A read of a count below 2 ^ 31 in whose first bytes, as many as the count, the line has no '\n'
-- and no NUL returns the count, and leaves so many bytes of the line in the caller's memory, and
-- nothing else.
pub term_read_finish-full :
    (m : Bytes) (buf numbytes : ℕ) (s : Terminal)
    → numbytes < 2147483648
    → ((j : ℕ) → j < numbytes → ends (s.buffer s.current_terminal j) ≡ false)
    → let (n, m', s') = term_read_finish m buf numbytes s in
      (n ≡ numbytes)
      × ((a : ℕ)
          → m' a ≡ (
              if leb buf a && ltb a (buf + numbytes)
              then s.buffer s.current_terminal (a - buf)
              else m a))
unfolding term_read_finish
term_read_finish-full m buf numbytes s h p =
    let sign : slt numbytes 0 ≡ false = ground arith in
    rw sign (
      let (n, copied) =
        term_read_loop-full numbytes m buf 0 (s.buffer s.current_terminal)
          (λ j r. (let z : 0 + j ≡ j = omega arith in rw z (p j r))) in
      (n ∙ omega arith, λ a. copied a ∙ ground arith))
