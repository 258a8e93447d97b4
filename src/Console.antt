-- ===== src/Console.antt =====
-- The screen of student-distrib/lib.c: the cursor of each terminal, the cells of video memory, the
-- cursor's port writes, clear and the two scrolls. Coordinates are words. Memory is read by the
-- kernel's virtual address; the page at 0xB8000 is the frame that `mapped` names (Paging sets it).
pub mod Print
pub mod Format
pub mod Bounds
pub mod Scroll
pub mod Background
pub mod Output
pub mod Plain
pub mod Places
mod Tests
use zbiggie.Prelude.{
  ℕ, zero, suc, ◌+◌, ◌-◌, ◌*◌, ◌/◌, ◌%◌, Bool, ◌&&◌, List, [], ◌∷◌, ◌==◌, ltb, leb, if◌then◌else◌,
  add32, sub32, mul32, slt, sle, Bytes, update, for_range,
}

-- The file-level variables of lib.c, with `write_x` and `write_y` of terminal.c and `current_terminal`
-- and `current_active_process`, which scroll and mt_putc read. `ports` holds the bytes that outb has
-- sent, newest first, each behind its port.
pub record Console : Type 0 where
  pub screen_x : ℕ → ℕ
  pub screen_y : ℕ → ℕ
  pub biggest_y : ℕ → ℕ
  pub write_x : ℕ → ℕ
  pub write_y : ℕ → ℕ
  pub current_terminal : ℕ
  pub current_active_process : ℕ
  pub video : Bytes
  pub mapped : ℕ
  pub ports : List (ℕ × ℕ)

-- (NUM_PDS+1)*OFFSET_4M + 3*OFFSET_4K
abbrev pub video_mem : ℕ
video_mem = 50343936

-- VIDEO
abbrev pub map_video_mem : ℕ
map_video_mem = 753664

abbrev pub attribs : ℕ → ℕ
attribs term = if term == 0 then 0x30 else if term == 1 then 0x40 else 0x50

-- Where an access to a virtual address lands: the page at VIDEO is the page `mapped`.
abbrev pub alias : ℕ → ℕ → ℕ
alias mapped a = if leb 753664 a && ltb a 757760 then mapped + (a - 753664) else a

-- ((NUM_COLS*y + x) << 1), behind `base`.
abbrev pub cell : ℕ → ℕ → ℕ → ℕ
cell base x y = add32 base (mul32 2 (add32 (mul32 80 y) x))

-- (int)cond > 0 && (int)cond < (int)base+OFFSET_4K-1
abbrev pub is_cell : ℕ → ℕ → Bool
is_cell base cond = slt 0 cond && slt cond (base + 4095)

-- A character and its attribute byte.
abbrev pub put_cell : Bytes → ℕ → ℕ → ℕ → Bytes
put_cell m a c attrib = update (update m a c) (a + 1) attrib

unfoldable pub get_screen_x : Console → ℕ → ℕ
get_screen_x s term = s.screen_x term

unfoldable pub get_screen_y : Console → ℕ → ℕ
get_screen_y s term = s.screen_y term

-- Four outb: the high byte of the cell's number to register 0x0E, the low byte to 0x0F.
unfoldable pub cursor_loc : ℕ → ℕ → Console → Console
cursor_loc x y s =
    let coord = add32 x (mul32 y 80) in
    record s {
      ports =
          (0x3D5, coord % 256)
          ∷ (0x3D4, 0x0F)
          ∷ (0x3D5, coord / 256 % 256)
          ∷ (0x3D4, 0x0E)
          ∷ s.ports;
    }

-- cursor_loc at the current terminal's coordinates, with which most operations end.
abbrev pub sync_cursor : Console → Console
sync_cursor s = cursor_loc (s.screen_x s.current_terminal) (s.screen_y s.current_terminal) s

unfoldable pub set_pos : ℕ → ℕ → Console → Console
unfolding cursor_loc
set_pos x y s = sync_cursor (record s {
  screen_x = update s.screen_x s.current_terminal x;
  screen_y = update s.screen_y s.current_terminal y;
})

unfoldable pub set_x : ℕ → Console → Console
unfolding cursor_loc
set_x x s = sync_cursor (record s { screen_x = update s.screen_x s.current_terminal x })

unfoldable pub move_right : Console → Console
unfolding cursor_loc
move_right s =
    let t = s.current_terminal in
    sync_cursor (
      if slt (s.screen_x t) 79
      then record s { screen_x = update s.screen_x t (add32 (s.screen_x t) 1) }
      else if slt (s.screen_y t) 24
      then record s {
        screen_x = update s.screen_x t 0;
        screen_y = update s.screen_y t (add32 (s.screen_y t) 1);
      }
      else s)

unfoldable pub move_left : Console → Console
unfolding cursor_loc
move_left s =
    let t = s.current_terminal in
    sync_cursor (
      if slt 0 (s.screen_x t)
      then record s { screen_x = update s.screen_x t (sub32 (s.screen_x t) 1) }
      else if slt 0 (s.screen_y t)
      then record s {
        screen_x = update s.screen_x t 79;
        screen_y = update s.screen_y t (sub32 (s.screen_y t) 1);
      }
      else s)

unfoldable pub clear : Console → Console
clear s =
    let t = s.current_terminal in
    record s {
      video = for_range 2000 0 (λ i m. put_cell m (video_mem + 2 * i) b' ' (attribs t)) s.video;
      screen_x = update s.screen_x t 0;
      screen_y = update s.screen_y t 0;
      biggest_y = update s.biggest_y t 0;
    }

-- One step of the scrolls: the cell `i` gets the character, then the attribute, of the cell below.
unfoldable pub raise_cell : ℕ → ℕ → Bytes → Bytes
raise_cell base i m =
    let n = update m (base + 2 * i) (m (base + 2 * (i + 80))) in
    update n (base + 2 * i + 1) (n (base + 2 * (i + 80) + 1))

-- Rows 1 to 24 move up one by one, then row 24 is blank.
unfoldable pub scroll_cells : ℕ → ℕ → Bytes → Bytes
scroll_cells base attrib m =
    for_range 80 0 (λ x n. put_cell n (base + 2 * (80 * 24 + x)) 0 attrib)
      (for_range 24 1 (λ y n. for_range 80 0 (λ x. raise_cell base (80 * (y - 1) + x)) n) m)

unfoldable pub scroll : Console → Console
scroll s =
    let t = s.current_terminal in
    record s {
      video = scroll_cells video_mem (attribs t) s.video;
      screen_x = update s.screen_x t 0;
      screen_y = update s.screen_y t 24;
      biggest_y = update s.biggest_y t 24;
      write_y = update s.write_y t (sub32 (s.write_y t) 1);
    }

-- The background scroll works through the page at VIDEO, and leaves `write_y` as it is.
unfoldable pub mt_scroll : Console → Console
unfolding scroll
mt_scroll s =
    let p = s.current_active_process in
    if p == s.current_terminal then scroll s else record s {
      video = scroll_cells s.mapped (attribs p) s.video;
      screen_x = update s.screen_x p 0;
      screen_y = update s.screen_y p 24;
      biggest_y = update s.biggest_y p 24;
    }

-- video_mem[i<<1]++ over the screen.
pub test_interrupts : Console → Console
test_interrupts s = record s {
  video =
      for_range 2000 0 (λ i m. update m (video_mem + 2 * i) ((m (video_mem + 2 * i) + 1) % 256))
        s.video;
}
