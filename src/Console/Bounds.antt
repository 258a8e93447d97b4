-- ===== src/Console/Bounds.antt =====
-- The cursor stays on the screen, whatever is printed.
use zbiggie.Prelude.{ℕ, ◌<◌, arith}
use zbiggie.Console.{Console, scroll}
use zbiggie.Console.Print.{putc, new_line}

-- The cursor of the terminal `t` is a cell of the 80 by 25 screen.
pub record OnScreen (t : ℕ) (s : Console) : Type 0 where
  pub column : s.screen_x t < 80
  pub row : s.screen_y t < 25

-- putc keeps the cursor of the current terminal on the screen, for every character.
pub putc-OnScreen :
    (c : ℕ) (s : Console) → OnScreen s.current_terminal s → OnScreen s.current_terminal (putc c s)
unfolding putc scroll new_line
putc-OnScreen c s h = ground arith
