-- ===== src/Terminal.antt =====
-- The line discipline of student-distrib/terminal.c: the line buffer of each terminal, the keys that
-- edit it, and the reads and writes on it. An index that goes below 0 is its word; a char array is
-- unbounded here, and its bounds are what the theorems show.
pub mod History
pub mod Line
pub mod Insert
pub mod Read
pub mod Places
mod Tests
use zbiggie.Prelude.{
  ℕ, zero, suc, ◌+◌, ◌-◌, Bool, ◌&&◌, ◌||◌, ◌==◌, if◌then◌else◌, add32, sub32, slt, sle, Bytes,
  update, for_range,
}
use zbiggie.Console.{
  Console, get_screen_x, get_screen_y, set_pos, set_x, move_left, move_right, clear,
}
use zbiggie.Console.Print.{putc, mt_putc, putc_kb, scoot_text, is_newline, backspace}

-- The file-level variables of terminal.c, over the screen. `write_x` and `write_y` are the console's.
pub record Terminal : Type 0 where
  pub console : Console
  pub open console use *
  pub buffer : ℕ → Bytes
  pub history : ℕ → ℕ → Bytes
  pub hist_indeces : ℕ → ℕ
  pub hist_bottom_indeces : ℕ → ℕ
  pub cur_pos : ℕ → ℕ
  pub cur_size : ℕ → ℕ
  pub prev_size : ℕ → ℕ
  pub wait_for_nl : ℕ → ℕ

-- An operation of the screen, on the console of a terminal.
abbrev pub on_screen : (Console → Console) → Terminal → Terminal
on_screen f s = record s { console = f s.console }

unfoldable pub term_init : Terminal → Terminal
term_init s =
    let t = s.current_terminal in
    record s {
      buffer = update s.buffer t (for_range 128 0 (λ j b. update b j 0) (s.buffer t));
      cur_pos = update s.cur_pos t 0;
      cur_size = update s.cur_size t 0;
      console = record s.console { write_x = update s.write_x t 0; write_y = update s.write_y t 0 };
    }

-- The cursor stands behind what the last write left, so that the user may erase.
abbrev pub past_write : Console → Bool
past_write s =
    let t = s.current_terminal in
    slt (s.write_y t) (get_screen_y s t)
    || ((get_screen_y s t == s.write_y t) && slt (s.write_x t) (get_screen_x s t))

-- The branch for '\n' and '\r'.
unfoldable pub enter : Terminal → Terminal
enter s =
    let t = s.current_terminal in
    record s {
      buffer = update s.buffer t (update (s.buffer t) (s.cur_size t) 10);
      cur_pos = update s.cur_pos t 0;
      prev_size = update s.prev_size t (s.cur_size t);
      cur_size = update s.cur_size t 0;
      console = record s.console { write_x = update s.write_x t 0; write_y = update s.write_y t 0 };
      wait_for_nl = update s.wait_for_nl t 0;
    }

-- The branch for BACKSPACE. At the end of the line the character goes and the line gets shorter;
-- before it a space takes its place.
unfoldable pub erase : Terminal → Terminal
unfolding get_screen_x get_screen_y
erase s =
    let t = s.current_terminal in
    let at_end = sle (sub32 (s.cur_size t) 1) (s.cur_pos t) in
    let bs_char = if at_end then 0 else b' ' in
    let size = if at_end then sub32 (s.cur_size t) 1 else s.cur_size t in
    let pos = if slt 0 (s.cur_pos t) then sub32 (s.cur_pos t) 1 else s.cur_pos t in
    let screen =
      if past_write s.console
      then if slt 0 (s.cur_pos t)
        then move_left (putc_kb bs_char (move_left s.console))
        else move_left (putc bs_char s.console)
      else s.console in
    record s {
      console = screen;
      cur_size = update s.cur_size t size;
      cur_pos = update s.cur_pos t pos;
      buffer = update s.buffer t (update (s.buffer t) pos bs_char);
    }

-- for(i = cur_size; i > cur_pos; i--) buffer[i] = buffer[i-1]; the first argument is `i`.
unfoldable pub open_gap : ℕ → ℕ → Bytes → Bytes
open_gap zero pos b = b
open_gap (suc i) pos b =
    let rest = open_gap i pos (update b (suc i) (b i)) in if slt pos (suc i) then rest else b

-- The branch for any other character, with room in the buffer.
unfoldable pub insert : ℕ → Terminal → Terminal
unfolding open_gap
insert c s =
    let t = s.current_terminal in
    let inside = slt (s.cur_pos t) (s.cur_size t) in
    record s {
      console = putc_kb c (if inside then scoot_text s.console else s.console);
      buffer = update s.buffer t (
          update (if inside then open_gap (s.cur_size t) (s.cur_pos t) (s.buffer t) else s.buffer t)
            (s.cur_pos t) c);
      cur_pos = update s.cur_pos t (add32 (s.cur_pos t) 1);
      cur_size = update s.cur_size t (add32 (s.cur_size t) 1);
    }

unfoldable pub term_putc : ℕ → Terminal → Terminal
unfolding enter erase insert
term_putc c s =
    let t = s.current_terminal in
    if is_newline c
    then enter s
    else if c == backspace
    then erase s
    else if slt (s.cur_pos t) 127 && slt (s.cur_size t) 127
    then insert c s
    else s

-- At most BUF_SIZE characters of a string; `i` is the number that were written.
term_puts_loop : ℕ → Bytes → ℕ → ℕ → Terminal → ℕ × Terminal
unfolding term_putc
term_puts_loop zero m str i s = (i, s)
term_puts_loop (suc rounds) m str i s =
    let rest = term_puts_loop rounds m str (i + 1) (term_putc (m (str + i)) s) in
    if m (str + i) == 0 then (i, s) else rest

unfoldable pub term_puts : Bytes → ℕ → Terminal → ℕ × Terminal
unfolding term_puts_loop
term_puts m str s = if str == 0 then (0, s) else term_puts_loop 128 m str 0 s

-- for (i = 0; i < cnt; ++i) mt_putc(buf[i]), with `cnt` not negative.
unfoldable pub term_write_loop : ℕ → Bytes → ℕ → Console → Console
term_write_loop zero m buf c = c
term_write_loop (suc cnt) m buf c = term_write_loop cnt m (buf + 1) (mt_putc (m buf) c)

-- A negative count writes nothing and is returned like any other.
unfoldable pub term_write : Bytes → ℕ → ℕ → Terminal → ℕ × Terminal
term_write m buf cnt s =
    let c = term_write_loop (if slt cnt 0 then 0 else cnt) m buf s.console in
    let p = c.current_active_process in
    let marked = record c {
      write_x = update c.write_x p (c.screen_x p);
      write_y = update c.write_y p (c.screen_y p);
    } in
    (cnt, record s { console = marked })

-- Up to the wait: the terminal of the process that runs waits for a line.
unfoldable pub term_read_start : Terminal → Terminal
term_read_start s = record s { wait_for_nl = update s.wait_for_nl s.current_active_process 1 }

-- The copy of the line into `buf`, byte `i` on; the result is what term_read returns.
term_read_loop : ℕ → Bytes → ℕ → ℕ → Bytes → ℕ × Bytes × Bytes
term_read_loop zero m buf i line = (i, m, line)
term_read_loop (suc rounds) m buf i line =
    let c = line i in
    let line' = update line i 0 in
    let rest = term_read_loop rounds (update m (buf + i) c) buf (i + 1) line' in
    if c == 10 || c == 0
    then (i + 1, update (update m (buf + i) 10) (buf + (i + 1)) 0, line')
    else rest

-- Behind the wait: the cursor goes to the next line, and the line to the caller's memory.
unfoldable pub term_read_finish : Bytes → ℕ → ℕ → Terminal → ℕ × Bytes × Terminal
unfolding term_read_loop
term_read_finish m buf numbytes s =
    let t = s.current_terminal in
    let (i, m', line) =
      term_read_loop (if slt numbytes 0 then 0 else numbytes) m buf 0 (s.buffer t) in
    (i, m', record s { console = putc 10 (set_x 10 s.console); buffer = update s.buffer t line })

-- `interrupts` is what the handlers do to the terminal until the flag is down again.
unfoldable pub term_read :
    (interrupts : Terminal → Terminal) → Bytes → ℕ → ℕ → Terminal → ℕ × Bytes × Terminal
unfolding term_read_start term_read_finish
term_read interrupts m buf numbytes s =
    term_read_finish m buf numbytes (interrupts (term_read_start s))

unfoldable pub term_clear : Terminal → Terminal
term_clear s = on_screen (λ c. set_pos 0 0 (clear c)) s

unfoldable pub term_move_left : Terminal → Terminal
unfolding get_screen_x get_screen_y
term_move_left s =
    let t = s.current_terminal in
    if slt 0 (s.cur_pos t) && past_write s.console
    then record s {
      console = move_left s.console;
      cur_pos = update s.cur_pos t (sub32 (s.cur_pos t) 1);
    }
    else s

unfoldable pub term_move_right : Terminal → Terminal
term_move_right s =
    let t = s.current_terminal in
    if slt (s.cur_pos t) (s.cur_size t)
    then record s {
      console = move_right s.console;
      cur_pos = update s.cur_pos t (add32 (s.cur_pos t) 1);
    }
    else s

unfoldable pub term_switch : Terminal → Terminal
term_switch s =
    on_screen
      (λ c. set_pos (get_screen_x c c.current_terminal) (get_screen_y c c.current_terminal) c) s
