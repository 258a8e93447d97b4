-- ===== src/Kernel/Words.antt =====
-- How parse_input splits a command line.
use zbiggie.Prelude.{
  ℕ, zero, suc, ◌+◌, ◌-◌, ◌<◌, ◌≡◌, ◌≢◌, ◌∙◌, refl, arith, Bool, true, false, ◌==◌, ◌&&◌, not, ltb,
  leb, if◌then◌else◌, some, update, modulus, Bytes,
}
use zbiggie.Kernel.Exec.{skip_spaces, in_line, take_word, take_line, parse_input}

skip_spaces_lem :
    (d fuel : ℕ) (input : Bytes) (i : ℕ)
    → d < fuel
    → ((j : ℕ) → j < d → input (i + j) ≡ b' ')
    → input (i + d) ≢ b' '
    → skip_spaces fuel input i ≡ some (i + d)
unfolding skip_spaces
skip_spaces_lem d zero input i h p e = ground arith
skip_spaces_lem zero (suc fuel) input i h p e =
    let z : i + 0 ≡ i = omega arith in
    let e' : input i ≢ b' ' = rw z at e in
    let test : input i == b' ' ≡ false = ground arith in rw (test, z) refl
skip_spaces_lem (suc d) (suc fuel) input i h p e =
    let z : i ≡ i + 0 = omega arith in
    let here : input i ≡ b' ' = rw z (p 0 (omega arith)) in
    let test : input i == b' ' ≡ true = ground arith in
    let y : i + 1 + d ≡ i + suc d = omega arith in
    rw test (
      skip_spaces_lem d fuel input (i + 1) (omega arith)
        (λ j q. (let x : i + 1 + j ≡ i + (j + 1) = omega arith in rw x (p (j + 1) (omega arith))))
        (rw y e)
      ∙ rw y refl)

-- The `d` bytes of the input from `i` on stand in `out` from `o` on; the others are those of `before`.
abbrev Copied : Bytes → ℕ → Bytes → ℕ → ℕ → Bytes → Type 0
Copied input i before o d out =
    (a : ℕ) → out a ≡ (if leb o a && ltb a (o + d) then input (i + (a - o)) else before a)

take_word_lem :
    (d fuel : ℕ) (input : Bytes) (size i : ℕ) (exec : Bytes) (o : ℕ)
    → d < fuel
    → ((j : ℕ) → j < d → (in_line input size (i + j) && not (input (i + j) == b' ')) ≡ true)
    → (in_line input size (i + d) && not (input (i + d) == b' ')) ≡ false
    → (out : Bytes) × (take_word fuel input size i exec o ≡ some (i + d, o + d, out))
      × Copied input i exec o d out
unfolding take_word
take_word_lem d zero input size i exec o h p e = absurd (omega arith)
take_word_lem zero (suc fuel) input size i exec o h p e =
    let z : i + 0 ≡ i = omega arith in
    let y : o + 0 ≡ o = omega arith in
    let e' : (in_line input size i && not (input i == b' ')) ≡ false = rw z at e in
    (exec, rw (e', z, y) refl, λ a. ground arith)
take_word_lem (suc d) (suc fuel) input size i exec o h p e = more (
    take_word_lem d fuel input size (i + 1) (update exec o (input i)) (o + 1) (omega arith)
      (λ j q. (let x : i + 1 + j ≡ i + (j + 1) = omega arith in rw x (p (j + 1) (omega arith))))
      (let y : i + 1 + d ≡ i + suc d = omega arith in rw y e))
  where
    more :
        (out : Bytes) × (take_word fuel input size (i + 1) (update exec o (input i)) (o + 1)
            ≡ some (i + 1 + d, o + 1 + d, out))
          × Copied input (i + 1) (update exec o (input i)) (o + 1) d out
        → (out : Bytes) × (take_word (suc fuel) input size i exec o
            ≡ some (i + suc d, o + suc d, out))
          × Copied input i exec o (suc d) out
    more (out, run, bytes) =
        let z : i ≡ i + 0 = omega arith in
        let here : (in_line input size i && not (input i == b' ')) ≡ true =
          rw z (p 0 (omega arith)) in
        let y : i + 1 + d ≡ i + suc d = omega arith in
        let w : o + 1 + d ≡ o + suc d = omega arith in
        (out, rw here (run ∙ rw (y, w) refl), λ a. ground (arith, bytes a))

take_line_lem :
    (d fuel : ℕ) (input : Bytes) (size i : ℕ) (args : Bytes) (o : ℕ)
    → d < fuel
    → ((j : ℕ) → j < d → in_line input size (i + j) ≡ true)
    → in_line input size (i + d) ≡ false
    → (out : Bytes) × (take_line fuel input size i args o ≡ some (o + d, out))
      × Copied input i args o d out
unfolding take_line
take_line_lem d zero input size i args o h p e = absurd (omega arith)
take_line_lem zero (suc fuel) input size i args o h p e =
    let z : i + 0 ≡ i = omega arith in
    let y : o + 0 ≡ o = omega arith in
    let e' : in_line input size i ≡ false = rw z at e in (args, rw (e', y) refl, λ a. ground arith)
take_line_lem (suc d) (suc fuel) input size i args o h p e = more (
    take_line_lem d fuel input size (i + 1) (update args o (input i)) (o + 1) (omega arith)
      (λ j q. (let x : i + 1 + j ≡ i + (j + 1) = omega arith in rw x (p (j + 1) (omega arith))))
      (let y : i + 1 + d ≡ i + suc d = omega arith in rw y e))
  where
    more :
        (out : Bytes) × (take_line fuel input size (i + 1) (update args o (input i)) (o + 1)
            ≡ some (o + 1 + d, out))
          × Copied input (i + 1) (update args o (input i)) (o + 1) d out
        → (out : Bytes) × (take_line (suc fuel) input size i args o ≡ some (o + suc d, out))
          × Copied input i args o (suc d) out
    more (out, run, bytes) =
        let z : i ≡ i + 0 = omega arith in
        let here : in_line input size i ≡ true = rw z (p 0 (omega arith)) in
        let w : o + 1 + d ≡ o + suc d = omega arith in
        (out, rw here (run ∙ rw w refl), λ a. ground (arith, bytes a))

-- A byte of the first word: inside the line, and no space.
abbrev pub in_word : Bytes → ℕ → ℕ → Bool
in_word input size i = in_line input size i && not (input i == b' ')

-- A line of `b` spaces, a word of `w` bytes, `c` spaces and `r` more bytes, at whose end the line or its
-- room of `size` bytes ends.
pub record IsCommand (input : Bytes) (size b w c r : ℕ) : Type 0 where
  pub length : b + w + c + r < modulus
  pub leading : (j : ℕ) → j < b → input j ≡ b' '
  pub word : (j : ℕ) → j < w → in_word input size (b + j) ≡ true
  pub word_end : in_word input size (b + w) ≡ false
  pub gap : (j : ℕ) → j < c → input (b + w + j) ≡ b' '
  pub rest : (j : ℕ) → j < r → in_line input size (b + w + c + j) ≡ true
  pub line_end : in_line input size (b + w + c + r) ≡ false
  pub no_space : input b ≢ b' '
  pub no_gap : input (b + w + c) ≢ b' '

-- parse_input of a command line ends; it leaves the first word and a NUL in the one buffer, what stands
-- behind the spaces that follow, up to the end of the line, and a NUL in the other, and changes nothing
-- else of either.
pub parse_input_lem :
    (input exec args : Bytes) (size b w c r : ℕ)
    → IsCommand input size b w c r
    → (word line : Bytes) × (parse_input input exec args size ≡ some (word, line))
      × ((a : ℕ) → word a ≡ (if ltb a w then input (b + a) else if a == w then 0 else exec a))
      × ((a : ℕ)
          → line a ≡ (if ltb a r then input (b + w + c + a) else if a == r then 0 else args a))
unfolding parse_input
parse_input_lem input exec args size b w c r cmd =
    finish (take_word_lem w modulus input size b exec 0 (omega arith) cmd.word cmd.word_end) (
      take_line_lem r modulus input size (b + w + c) (update args 0 0) 0 (omega arith) cmd.rest
        cmd.line_end)
  where
    start : skip_spaces modulus input 0 ≡ some b
    start =
        let z : 0 + b ≡ b = omega arith in
        skip_spaces_lem b modulus input 0 (omega arith)
          (λ j q. (let y : 0 + j ≡ j = omega arith in rw y (cmd.leading j q))) (rw z cmd.no_space)
        ∙ rw z refl

    next : skip_spaces modulus input (b + w) ≡ some (b + w + c)
    next = skip_spaces_lem c modulus input (b + w) (omega arith) cmd.gap cmd.no_gap

    finish :
        (out : Bytes) × (take_word modulus input size b exec 0 ≡ some (b + w, 0 + w, out))
          × Copied input b exec 0 w out
        → (out : Bytes) × (take_line modulus input size (b + w + c) (update args 0 0) 0
            ≡ some (0 + r, out))
          × Copied input (b + w + c) (update args 0 0) 0 r out
        → (word line : Bytes) × (parse_input input exec args size ≡ some (word, line))
          × ((a : ℕ) → word a ≡ (if ltb a w then input (b + a) else if a == w then 0 else exec a))
          × ((a : ℕ)
              → line a ≡ (if ltb a r then input (b + w + c + a) else if a == r then 0 else args a))
    finish (word, run_w, bytes_w) (line, run_l, bytes_l) = (
      update word (0 + w) 0,
      update line (0 + r) 0,
      rw (start, run_w, next, run_l) refl,
      λ a. ground (arith, bytes_w a),
      λ a. ground (arith, bytes_l a),
    )
