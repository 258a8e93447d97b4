-- ===== src/Kernel/Keyboard.antt =====
-- key_handler and rtc_handler of student-distrib/idt_funcs.c and switch_video of page.c. A scan code
-- is the byte that the port gives; the tables hold the characters of the codes that are listed.
use zbiggie.Prelude.{
  ℕ, zero, suc, ◌-◌, Bool, true, false, ◌&&◌, ◌||◌, not, Option, none, some, List, [], ◌∷◌, ◌==◌,
  ltb, if◌then◌else◌, update,
}
use mathlib.Core.Bool.{xor}
use zbiggie.Block.{memcpy}
use zbiggie.Console.{video_mem}
use zbiggie.Terminal.{
  Terminal, term_putc, term_init, term_clear, term_move_left, term_move_right, term_switch,
}
use zbiggie.Terminal.History.{up_hist, down_hist}
use zbiggie.Paging.{buffer_page}
use zbiggie.Devices.{Ports, rtc_ack, send_eoi}
use zbiggie.Kernel.{Kernel, with_terminal, with_console, switch_context}

-- An entry of a table of characters, 0 where the initialiser stops.
entry : List ℕ → ℕ → ℕ
entry [] i = 0
entry (c ∷ cs) zero = c
entry (c ∷ cs) (suc i) = entry cs i

pub scan_to_ascii : ℕ → ℕ
unfolding entry
scan_to_ascii = entry (
    0x00 ∷ 0x00 ∷ 0x31 ∷ 0x32 ∷ 0x33 ∷ 0x34 ∷ 0x35 ∷ 0x36 ∷ 0x37 ∷ 0x38 ∷ 0x39 ∷ 0x30 ∷ 0x2D ∷ 0x3D
    ∷ 0x08 ∷ 0x09 ∷ 0x71 ∷ 0x77 ∷ 0x65 ∷ 0x72 ∷ 0x74 ∷ 0x79 ∷ 0x75 ∷ 0x69 ∷ 0x6F ∷ 0x70 ∷ 0x5B
    ∷ 0x5D ∷ 0x0A ∷ 0xFF ∷ 0x61 ∷ 0x73 ∷ 0x64 ∷ 0x66 ∷ 0x67 ∷ 0x68 ∷ 0x6A ∷ 0x6B ∷ 0x6C ∷ 0x3B
    ∷ 0x27 ∷ 0x60 ∷ 0xFF ∷ 0x5C ∷ 0x7A ∷ 0x78 ∷ 0x63 ∷ 0x76 ∷ 0x62 ∷ 0x6E ∷ 0x6D ∷ 0x2C ∷ 0x2E
    ∷ 0x2F ∷ 0xFF ∷ 0x2A ∷ 0xFF ∷ 0x20 ∷ 0xFF ∷ [])

pub shift_to_ascii : ℕ → ℕ
unfolding entry
shift_to_ascii = entry (
    0x00 ∷ 0x00 ∷ 0x21 ∷ 0x40 ∷ 0x23 ∷ 0x24 ∷ 0x25 ∷ 0x5E ∷ 0x26 ∷ 0x2A ∷ 0x28 ∷ 0x29 ∷ 0x5F ∷ 0x2B
    ∷ 0x08 ∷ 0x09 ∷ 0x71 ∷ 0x77 ∷ 0x65 ∷ 0x72 ∷ 0x74 ∷ 0x79 ∷ 0x75 ∷ 0x69 ∷ 0x6F ∷ 0x70 ∷ 0x7B
    ∷ 0x7D ∷ 0x0A ∷ 0xFF ∷ 0x61 ∷ 0x73 ∷ 0x64 ∷ 0x66 ∷ 0x67 ∷ 0x68 ∷ 0x6A ∷ 0x6B ∷ 0x6C ∷ 0x3A
    ∷ 0x22 ∷ 0x7E ∷ 0xFF ∷ 0x7C ∷ 0x7A ∷ 0x78 ∷ 0x63 ∷ 0x76 ∷ 0x62 ∷ 0x6E ∷ 0x6D ∷ 0x3C ∷ 0x3E
    ∷ 0x3F ∷ 0xFF ∷ 0x2A ∷ 0xFF ∷ 0x20 ∷ 0xFF ∷ [])

abbrev is_among : List ℕ → ℕ → Bool
is_among [] c = false
is_among (d ∷ ds) c = c == d || is_among ds c

-- The scan over the 128 entries: those listed, and 0 for the others.
pub is_not_printable : ℕ → Bool
is_not_printable = is_among (
    0x0F ∷ 0x37 ∷ 0x3E ∷ 0x3F ∷ 0x40 ∷ 0x41 ∷ 0x42 ∷ 0x43 ∷ 0x44 ∷ 0x46 ∷ 0x47 ∷ 0x49 ∷ 0x4A ∷ 0x4E
    ∷ 0x4F ∷ 0x52 ∷ 0x51 ∷ 0x71 ∷ 0x52 ∷ 0x53 ∷ 0x57 ∷ 0x58 ∷ 0 ∷ [])

-- The flags of idt_funcs.c, over the kernel.
pub record Keys : Type 0 where
  pub kernel : Kernel
  pub open kernel use *
  pub shift_l_flag : ℕ → Bool
  pub shift_r_flag : ℕ → Bool
  pub ctrl_flag : ℕ → Bool
  pub caps_lock_flag : Bool
  pub alt_flag : Bool

-- The screen goes to the page of the terminal that is left, and the new terminal's page to the screen.
unfoldable pub switch_video : ℕ → Kernel → Kernel
switch_video term_num k =
    let saved = memcpy k.video (buffer_page k.current_terminal) k.video video_mem 4096 in
    let shown = memcpy saved video_mem saved (buffer_page term_num) 4096 in
    let switched = with_console (λ c. record c { video = shown; current_terminal = term_num }) k in
    if k.current_terminal == term_num then k else switch_context k.current_process switched

abbrev on_terminal : (Terminal → Terminal) → Keys → Keys
on_terminal g s = record s { kernel = with_terminal g s.kernel }

-- up_hist and down_hist may fail to end.
abbrev on_history : (Terminal → Option Terminal) → Keys → Option Keys
on_history g s = elim (g s.terminal) [
  | none ↦ none
  | some t ↦ some (record s { kernel = record s.kernel { terminal = t } })
]

abbrev pub is_letter : ℕ → Bool
is_letter c = ltb 96 c && ltb c 123

-- The branch for a printable code: a switch of terminals, Ctrl-L, or a character by the shift state.
unfoldable pub key_char : ℕ → Keys → Keys
unfolding scan_to_ascii shift_to_ascii switch_video
key_char key s =
    let t = s.current_terminal in
    let shifted = s.shift_r_flag t || s.shift_l_flag t in
    let show =
      λ (n : ℕ). record s { kernel = with_terminal term_switch (switch_video n s.kernel) } in
    if key == 0x3B && s.alt_flag
    then show 0
    else if key == 0x3C && s.alt_flag
    then show 1
    else if key == 0x3D && s.alt_flag
    then show 2
    else if scan_to_ascii key == b'l' && s.ctrl_flag t
    then on_terminal (λ x. term_init (term_clear x)) s
    else if is_letter (scan_to_ascii key) && xor shifted s.caps_lock_flag
    then on_terminal (term_putc (scan_to_ascii key - 32)) s
    else if shifted
    then on_terminal (term_putc (shift_to_ascii key)) s
    else on_terminal (term_putc (scan_to_ascii key)) s

-- The rest of the chain: codes of released keys, and what is printable. A code from 0x80 on is a
-- negative `char`, and so is not printable.
unfoldable pub key_release : ℕ → Keys → Keys
unfolding key_char
key_release key s =
    let t = s.current_terminal in
    if key == 0x9D
    then record s { ctrl_flag = update s.ctrl_flag t false }
    else if key == 0xAA
    then record s { shift_l_flag = update s.shift_l_flag t false }
    else if key == 0xB6
    then record s { shift_r_flag = update s.shift_r_flag t false }
    else if key == 0xB8
    then record s { alt_flag = false }
    else if ltb 1 key && ltb key 123
    then key_char key s
    else s

-- The chain of tests on the scan code.
unfoldable pub key_action : ℕ → Keys → Option Keys
unfolding key_release is_not_printable
key_action key s =
    let t = s.current_terminal in
    let up = on_history up_hist s in
    let down = on_history down_hist s in
    if is_not_printable key
    then some s
    else if key == 0x50
    then down
    else if key == 0x48
    then up
    else if key == 0x4B
    then some (on_terminal term_move_left s)
    else if key == 0x4D
    then some (on_terminal term_move_right s)
    else if key == 0x38
    then some (record s { alt_flag = true })
    else if key == 0x1D
    then some (record s { ctrl_flag = update s.ctrl_flag t true })
    else if key == 0x2A
    then some (record s { shift_l_flag = update s.shift_l_flag t true })
    else if key == 0x36
    then some (record s { shift_r_flag = update s.shift_r_flag t true })
    else if key == 0x3A
    then some (record s { caps_lock_flag = not s.caps_lock_flag })
    else some (key_release key s)

-- key_handler acknowledges its line behind the action.
unfoldable pub key_handler : ℕ → Keys → Option Keys
unfolding key_action
key_handler key s = elim (key_action key s) [
  | none ↦ none
  | some s' ↦
      some (record s' {
        kernel = with_console (λ c. record c { ports = send_eoi 1 c.ports }) s'.kernel;
      })
]

-- The port traffic of rtc_handler, and the flag that rtc_read waits on.
unfoldable pub rtc_handler : (Ports → ℕ → ℕ) → Kernel → Kernel
rtc_handler inb k =
    with_console (λ c. record c { ports = send_eoi 8 (rtc_ack inb c.ports) })
      (record k { rtc_f = 0 })

unfoldable pub pit_handler : Kernel → Kernel
pit_handler k = with_console (λ c. record c { ports = send_eoi 0 c.ports }) k
