-- ===== src/Terminal/History.antt =====
-- The command history of student-distrib/terminal.c: save_hist, up_hist and down_hist. A slot is a
-- string; `none` means that a slot or the saved string has no NUL byte within the address space.
pub mod Keeps
use zbiggie.Prelude.{
  ℕ, zero, suc, ◌+◌, ◌%◌, ◌||◌, Option, none, some, ◌==◌, not, ltb, if◌then◌else◌, modulus, add32,
  sub32, slt, Bytes, update, for_range, ◌>>=◌,
}
use zbiggie.Console.{Console, set_pos}
use zbiggie.Console.Print.{putc}
use zbiggie.Terminal.{Terminal}

-- for(i = 0; buf[i] != '\n' && buf[i] != 0; i++) slot[i] = buf[i];
save_loop : ℕ → Bytes → ℕ → ℕ → Bytes → Option Bytes
save_loop zero m buf i slot = none
save_loop (suc fuel) m buf i slot =
    let rest = save_loop fuel m buf (i + 1) (update slot i (m (buf + i))) in
    if m (buf + i) == 10 || m (buf + i) == 0 then some slot else rest

-- The slot behind the bottom gets the string, and the bottom moves two slots on.
unfoldable pub save_hist : Bytes → ℕ → Terminal → Option Terminal
unfolding save_loop
save_hist m buf s =
    let t = s.current_terminal in
    let slot = add32 (s.hist_bottom_indeces t) 1 % 50 in
    let bottom = add32 slot 1 % 50 in
    do
      line ← save_loop modulus m buf 0 (for_range 128 0 (λ i b. update b i 0) (s.history t slot))
      some (record s {
        history = update s.history t (update (s.history t) slot line);
        hist_bottom_indeces = update s.hist_bottom_indeces t bottom;
        hist_indeces = update s.hist_indeces t bottom;
      })

-- hist_indeces--, and round to the last slot below 0.
abbrev pub slot_above : ℕ → ℕ
slot_above i = let j = sub32 i 1 in if slt j 0 then 49 else j

-- hist_indeces++, and round to the first slot.
abbrev pub slot_below : ℕ → ℕ
slot_below i = add32 i 1 % 50

-- The search for a slot that is not empty, over at most HIST_SIZE slots.
unfoldable pub seek : ℕ → (ℕ → ℕ) → (ℕ → Bytes) → ℕ → ℕ
seek zero next slots i = i
seek (suc rounds) next slots i =
    let rest = seek rounds next slots (next i) in if slots i 0 == 0 then rest else i

-- for(i = 0; i < SCREEN_WIDTH - START_POS -1 || slot[i] != 0; i++) putc('\0');
blank_loop : ℕ → Bytes → ℕ → Console → Option Console
blank_loop zero slot i c = none
blank_loop (suc fuel) slot i c =
    let rest = blank_loop fuel slot (i + 1) (putc 0 c) in
    if ltb i 69 || not (slot i == 0) then rest else some c

-- The slot goes to the line buffer and to the screen, and moves the position and the size on.
recall_loop : ℕ → Bytes → ℕ → Terminal → Option Terminal
recall_loop zero slot i s = none
recall_loop (suc fuel) slot i s =
    let t = s.current_terminal in
    let rest = recall_loop fuel slot (i + 1) (record s {
      buffer = update s.buffer t (update (s.buffer t) i (slot i));
      console = putc (slot i) s.console;
      cur_pos = update s.cur_pos t (add32 (s.cur_pos t) 1);
      cur_size = update s.cur_size t (add32 (s.cur_size t) 1);
    }) in
    if slot i == 0 then some s else rest

-- What up_hist and down_hist do alike with the slot that they found.
recall : Bytes → Terminal → Option Terminal
unfolding recall_loop blank_loop
recall slot s =
    let home =
      λ (c : Console). set_pos (c.write_x c.current_terminal) (c.write_y c.current_terminal) c in
    do
      blank ← blank_loop modulus slot 0 (home s.console)
      recall_loop modulus slot 0 (record s { console = home blank })

-- With no line saved only the index has moved.
unfoldable pub up_hist : Terminal → Option Terminal
unfolding seek recall
up_hist s =
    let t = s.current_terminal in
    let i = seek 50 slot_above (s.history t) (slot_above (s.hist_indeces t)) in
    let found = record s { hist_indeces = update s.hist_indeces t i } in
    if s.history t i 0 == 0
    then some found
    else recall (s.history t i)
        (record found { cur_pos = update s.cur_pos t 0; cur_size = update s.cur_size t 0 })

-- As the source has it, the position and the size are not set back to 0 here.
unfoldable pub down_hist : Terminal → Option Terminal
unfolding seek recall
down_hist s =
    let t = s.current_terminal in
    let i = seek 50 slot_below (s.history t) (slot_below (s.hist_indeces t)) in
    let found = record s { hist_indeces = update s.hist_indeces t i } in
    if s.history t i 0 == 0 then some found else recall (s.history t i) found
