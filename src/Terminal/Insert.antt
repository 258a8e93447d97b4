-- ===== src/Terminal/Insert.antt =====
-- What a typed character does to the line.
use zbiggie.Prelude.{
  ℕ, zero, suc, ◌+◌, ◌-◌, ◌≤◌, ◌<◌, ◌≡◌, ◌∙◌, refl, arith, Bool, true, false, ◌==◌, ◌&&◌, ltb, leb,
  if◌then◌else◌, slt, update, Bytes,
}
use zbiggie.Console.Print.{is_newline, backspace}
use zbiggie.Terminal.{Terminal, term_putc, open_gap, insert}

if_at : (t : Bool) (m n : Bytes) (a : ℕ) → (if t then m else n) a ≡ (if t then m a else n a)
if_at true m n a = refl
if_at false m n a = refl

open_gap-step :
    (i pos : ℕ) (b : Bytes) (a moved : ℕ)
    → i < 127
    → pos ≤ 127
    → moved
      ≡ (if ltb pos a && leb a i then update b (suc i) (b i) (a - 1) else update b (suc i) (b i) a)
    → (if slt pos (suc i) then moved else b a)
      ≡ (if ltb pos a && leb a (suc i) then b (a - 1) else b a)
open_gap-step i pos b a moved h p e = ground arith

-- The characters behind `pos`, up to the end `n` of the line, move one place on.
pub open_gap_lem :
    (n pos : ℕ) (b : Bytes) (a : ℕ)
    → n ≤ 127
    → pos ≤ 127
    → open_gap n pos b a ≡ (if ltb pos a && leb a n then b (a - 1) else b a)
unfolding open_gap
open_gap_lem zero pos b a h p = ground arith
open_gap_lem (suc i) pos b a h p =
    let rest = open_gap_lem i pos (update b (suc i) (b i)) a (omega arith) p in
    if_at (slt pos (suc i)) (open_gap i pos (update b (suc i) (b i))) b a
    ∙ open_gap-step i pos b a (open_gap i pos (update b (suc i) (b i)) a) (omega arith) p rest

-- A character that is no line break and no backspace, typed into a line with room for it, stands at
-- the position, the characters behind the position move one place on, and position and size grow by
-- one.
pub insert_lem :
    (c : ℕ) (s : Terminal) (a : ℕ)
    → is_newline c ≡ false
    → c == backspace ≡ false
    → s.cur_pos s.current_terminal ≤ s.cur_size s.current_terminal
    → s.cur_size s.current_terminal < 127
    → let t = s.current_terminal in
      let s' = term_putc c s in
      (s'.buffer t a ≡ (
        if a == s.cur_pos t
        then c
        else if ltb (s.cur_pos t) a && leb a (s.cur_size t)
        then s.buffer t (a - 1)
        else s.buffer t a))
      × (s'.cur_pos t ≡ s.cur_pos t + 1)
      × (s'.cur_size t ≡ s.cur_size t + 1)
unfolding term_putc insert
insert_lem c s a h b p q =
    let t = s.current_terminal in
    let gap =
      open_gap_lem (s.cur_size t) (s.cur_pos t) (s.buffer t) a (omega arith) (omega arith) in
    (rw (h, b) (ground (arith, gap)), rw (h, b) (ground arith), rw (h, b) (ground arith))
