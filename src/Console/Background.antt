-- ===== src/Console/Background.antt =====
-- What a process in the background does to memory and to its cursor when it prints.
use zbiggie.Prelude.{ℕ, ◌+◌, ◌<◌, ◌≡◌, ◌∙◌, arith, false, ◌==◌, ◌&&◌, leb, ltb, if◌then◌else◌}
use zbiggie.Console.{Console, attribs, mt_scroll}
use zbiggie.Console.Scroll.{scroll_cells-scrolled}
use zbiggie.Console.Print.{mt_putc, mt_poke, mt_wrap_line, new_line, advance, is_newline}

-- The cursor of the process that runs, in any row of the screen and at any column of a bound that no
-- address wraps at.
pub record Writes (s : Console) : Type 0 where
  pub background : s.current_active_process == s.current_terminal ≡ false
  pub column : s.screen_x s.current_active_process < 1048576
  pub row : s.screen_y s.current_active_process < 25

mt_poke-outside :
    (c : ℕ) (s : Console) (b : ℕ)
    → Writes s
    → (leb s.mapped b && ltb b (s.mapped + 4096)) ≡ false
    → (mt_poke c s).video b ≡ s.video b
unfolding mt_poke
mt_poke-outside c s b w out = let x = w.column in let y = w.row in ground arith

mt_scroll-outside :
    (s : Console) (b : ℕ)
    → s.current_active_process == s.current_terminal ≡ false
    → (leb s.mapped b && ltb b (s.mapped + 4096)) ≡ false
    → (mt_scroll s).video b ≡ s.video b
unfolding mt_scroll
mt_scroll-outside s b h out =
    let cells = scroll_cells-scrolled s.mapped (attribs s.current_active_process) s.video b in
    rw h (cells ∙ ground arith)

-- A process in the background, with its cursor in a row of the screen and a column below 2^20, writes
-- no byte outside the page that stands for the screen, whatever it prints.
pub mt_putc-outside :
    (c : ℕ) (s : Console) (b : ℕ)
    → Writes s
    → (leb s.mapped b && ltb b (s.mapped + 4096)) ≡ false
    → (mt_putc c s).video b ≡ s.video b
unfolding mt_putc mt_wrap_line new_line
mt_putc-outside c s b w out =
    let h = w.background in
    let poked = mt_poke-outside c s b w out in
    let p = s.current_active_process in
    let written = if is_newline c then new_line p s else advance p (mt_poke c s) in
    let lifted = mt_scroll-outside (mt_wrap_line written) b in rw h (ground (arith, poked, lifted))
