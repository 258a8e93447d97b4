-- ===== src/Terminal/Line.antt =====
-- The line that a user edits stays within its buffer of 128 bytes.
use zbiggie.Prelude.{ℕ, ◌≤◌, ◌≡◌, ◌∙◌, refl, arith, false, ◌==◌, ◌&&◌}
use zbiggie.Console.Print.{backspace}
use zbiggie.Terminal.{Terminal, term_putc, enter, erase, insert, term_move_left, term_move_right}
use zbiggie.Terminal.Insert.{open_gap_lem}

-- The position of the terminal `t` stands in its line, which leaves room for the '\n' in the buffer.
pub record InLine (t : ℕ) (s : Terminal) : Type 0 where
  pub position : s.cur_pos t ≤ s.cur_size t
  pub size : s.cur_size t ≤ 127

-- The keys that edit the line: a character, where an erasing one needs a character to erase, and the
-- two arrows.
pub data Edit : Terminal → Terminal → Type 0 where
  typed :
      {s : Terminal} (c : ℕ)
      → (c == backspace && (s.cur_size s.current_terminal == 0)) ≡ false
      → Edit s (term_putc c s)
  left : {s : Terminal} → Edit s (term_move_left s)
  right : {s : Terminal} → Edit s (term_move_right s)

-- Any number of them.
pub data Edits : Terminal → Terminal → Type 0 where
  done : {s : Terminal} → Edits s s
  key : {s s' s'' : Terminal} → Edit s s' → Edits s' s'' → Edits s s''

-- No byte behind the buffer of a terminal differs.
pub SameBehind : Terminal → Terminal → Type 0
SameBehind s s' = (t a : ℕ) → 128 ≤ a → s'.buffer t a ≡ s.buffer t a

term_putc-InLine :
    (c : ℕ) (s : Terminal)
    → (c == backspace && (s.cur_size s.current_terminal == 0)) ≡ false
    → ((t : ℕ) → InLine t s)
    → (t : ℕ) → InLine t (term_putc c s)
unfolding term_putc enter erase insert
term_putc-InLine c s p h t = let here = h s.current_terminal in let there = h t in ground arith

term_putc-SameBehind :
    (c : ℕ) (s : Terminal) → ((t : ℕ) → InLine t s) → SameBehind s (term_putc c s)
unfolding term_putc enter erase insert SameBehind
term_putc-SameBehind c s h t a q =
    let u = s.current_terminal in
    let here = h u in
    let gap = open_gap_lem (s.cur_size u) (s.cur_pos u) (s.buffer u) a here.size (omega arith) in
    ground (arith, gap)

Edit-InLine : {s s' : Terminal} → Edit s s' → ((t : ℕ) → InLine t s) → (t : ℕ) → InLine t s'
unfolding term_move_left term_move_right
Edit-InLine (typed {s} c p) h t = term_putc-InLine c s p h t
Edit-InLine (left {s}) h t = let there = h t in ground arith
Edit-InLine (right {s}) h t = let here = h s.current_terminal in let there = h t in ground arith

Edit-SameBehind : {s s' : Terminal} → Edit s s' → ((t : ℕ) → InLine t s) → SameBehind s s'
unfolding term_move_left term_move_right SameBehind
Edit-SameBehind (typed {s} c p) h = term_putc-SameBehind c s h
Edit-SameBehind (left {s}) h = λ t a q. ground arith
Edit-SameBehind (right {s}) h = λ t a q. ground arith

-- However many keys edit the lines, from lines that are within their buffers, with no erasing key on an
-- empty line: each line is within its buffer, and no byte behind a buffer is written.
pub Edits-InLine :
    {s s' : Terminal}
    → Edits s s'
    → ((t : ℕ) → InLine t s)
    → ((t : ℕ) → InLine t s') × SameBehind s s'
unfolding SameBehind
Edits-InLine done h = (h, λ t a q. refl)
Edits-InLine (key e es) h =
    let (kept, same) = Edits-InLine es (Edit-InLine e h) in
    (kept, λ t a q. same t a q ∙ Edit-SameBehind e h t a q)
