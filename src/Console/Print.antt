-- ===== src/Console/Print.antt =====
-- The character output of student-distrib/lib.c: putc, mt_putc, putc_kb and scoot_text. The three
-- writers end alike: a full line wraps, a full screen scrolls, and the hardware cursor follows.
use zbiggie.Prelude.{
  ℕ, zero, suc, ◌+◌, ◌-◌, ◌*◌, Bool, ◌&&◌, ◌||◌, ◌==◌, if◌then◌else◌, add32, sub32, slt, sle, Bytes,
  update,
}
use zbiggie.Console.{
  Console, video_mem, map_video_mem, attribs, alias, cell, is_cell, put_cell, cursor_loc,
  sync_cursor, scroll, mt_scroll,
}

-- c == '\n' || c == '\r'
abbrev pub is_newline : ℕ → Bool
is_newline c = c == 10 || c == 13

-- The write of a character at the cursor of the current terminal, if the address passes the check.
unfoldable pub poke : ℕ → Console → Console
poke c s =
    let t = s.current_terminal in
    let a = cell video_mem (s.screen_x t) (s.screen_y t) in
    if is_cell video_mem a then record s { video = put_cell s.video a c (attribs t) } else s

unfoldable pub new_line : ℕ → Console → Console
new_line t s = record s {
  screen_y = update s.screen_y t (add32 (s.screen_y t) 1);
  biggest_y = update s.biggest_y t (add32 (s.biggest_y t) 1);
  screen_x = update s.screen_x t 0;
}

unfoldable pub advance : ℕ → Console → Console
advance t s = record s { screen_x = update s.screen_x t (add32 (s.screen_x t) 1) }

-- if(screen_x[t] >= NUM_COLS), for the current terminal.
unfoldable pub wrap_line : Console → Console
unfolding new_line
wrap_line s = let t = s.current_terminal in if sle 80 (s.screen_x t) then new_line t s else s

-- if(screen_y[t] >= NUM_ROWS), for the current terminal.
unfoldable pub wrap_screen : Console → Console
wrap_screen s = let t = s.current_terminal in if sle 25 (s.screen_y t) then scroll s else s

unfoldable pub putc : ℕ → Console → Console
unfolding poke advance wrap_line wrap_screen cursor_loc
putc c s =
    let t = s.current_terminal in
    sync_cursor
      (wrap_screen (wrap_line (if is_newline c then new_line t s else advance t (poke c s))))

-- The write through the page at VIDEO, for the process that runs.
unfoldable pub mt_poke : ℕ → Console → Console
mt_poke c s =
    let p = s.current_active_process in
    let a = cell map_video_mem (s.screen_x p) (s.screen_y p) in
    if is_cell map_video_mem a
    then record s {
      video = update (update s.video (alias s.mapped a) c) (alias s.mapped (a + 1)) (attribs p);
    }
    else s

-- As the source has it, the line wrap tests the column of the current terminal and moves the
-- process's own.
unfoldable pub mt_wrap_line : Console → Console
unfolding new_line
mt_wrap_line s =
    if sle 80 (s.screen_x s.current_terminal) then new_line s.current_active_process s else s

unfoldable pub mt_putc : ℕ → Console → Console
unfolding putc mt_poke mt_wrap_line mt_scroll
mt_putc c s =
    let p = s.current_active_process in
    if p == s.current_terminal
    then putc c s
    else let written = if is_newline c then new_line p s else advance p (mt_poke c s) in
      let wrapped = mt_wrap_line written in
      sync_cursor (if sle 25 (wrapped.screen_y p) then mt_scroll wrapped else wrapped)

-- The backspace away from the top left corner: one column back, or to the end of the line above.
unfoldable pub step_back : Console → Console
step_back s =
    let t = s.current_terminal in
    let x = sub32 (s.screen_x t) 1 in
    let y = sub32 (s.screen_y t) 1 in
    if slt x 0
    then record s {
      screen_x = update s.screen_x t 79;
      screen_y = update s.screen_y t (if slt y 0 then 0 else y);
      biggest_y = update s.biggest_y t (if slt y 0 then 0 else sub32 (s.biggest_y t) 1);
    }
    else record s { screen_x = update s.screen_x t x }

-- BS
abbrev pub backspace : ℕ
backspace = 8

unfoldable pub putc_kb : ℕ → Console → Console
unfolding poke advance wrap_line wrap_screen cursor_loc step_back
putc_kb c s =
    let t = s.current_terminal in
    let entered = record s {
      screen_y = update s.screen_y t (add32 (s.screen_y t) 1);
      screen_x = update s.screen_x t 0;
    } in
    let erased =
      if s.screen_y t == 0 && s.screen_x t == 0 then poke b' ' s else poke b' ' (step_back s) in
    let printed = advance t (poke c (wrap_line s)) in
    sync_cursor (
      wrap_screen
        (wrap_line (if is_newline c then entered else if c == backspace then erased else printed)))

-- The cell `i` gets the character of the cell to its left, and the attribute of the terminal.
abbrev pub push_cell : ℕ → ℕ → Bytes → Bytes
push_cell attrib i m =
    update (update m (video_mem + 2 * i) (m (video_mem + 2 * (i - 1)))) (video_mem + 2 * i + 1)
      attrib

-- for(x = NUM_COLS -1; x > stop; x--) over row y; `x` is the column that is next.
unfoldable pub push_row : ℕ → ℕ → ℕ → ℕ → Bytes → Bytes
push_row attrib y stop zero m = m
push_row attrib y stop (suc x) m =
    let rest = push_row attrib y stop x (push_cell attrib (80 * y + suc x) m) in
    if slt stop (suc x) then rest else m

-- for(y = NUM_ROWS -1; y > screen_y; y--): the first cell of a row is written before the row is pushed.
unfoldable pub push_rows : ℕ → ℕ → ℕ → Bytes → Bytes
unfolding push_row
push_rows attrib stop zero m = m
push_rows attrib stop (suc y) m =
    let rest =
      push_rows attrib stop y (push_row attrib (suc y) 0 79 (push_cell attrib (80 * suc y) m)) in
    if slt stop (suc y) then rest else m

unfoldable pub scoot_text : Console → Console
unfolding push_rows push_row
scoot_text s =
    let t = s.current_terminal in
    record s {
      video =
          push_row (attribs t) (s.screen_y t) (s.screen_x t) 79
            (push_rows (attribs t) (s.screen_y t) 24 s.video);
    }
