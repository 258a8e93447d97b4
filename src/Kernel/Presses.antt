-- ===== src/Kernel/Presses.antt =====
-- A key that is pressed, and a tick of each clock, leave a sound kernel.
use Prim.{tt}
use mathlib.Core.Bool.{xor}
use zbiggie.Prelude.{
  ℕ, ◌-◌, ◌<◌, refl, arith, Bool, true, false, Bool-cases, inl, inr, ◌==◌, ◌&&◌, ◌||◌, not, ltb,
  if◌then◌else◌, Option, none, some, update,
}
use zbiggie.Block.{memcpy}
use zbiggie.Console.{video_mem}
use zbiggie.Console.Places.{Placed-Placed}
use zbiggie.Paging.{buffer_page}
use zbiggie.Terminal.{
  Terminal, term_putc, term_init, term_clear, term_move_left, term_move_right, term_switch,
}
use zbiggie.Terminal.Places.{
  Stays, StaysIf, term_init-Stays, term_clear-Stays, term_switch-Stays, term_move_left-Stays,
  term_move_right-Stays, term_putc-Stays,
}
use zbiggie.Terminal.History.{up_hist, down_hist}
use zbiggie.Terminal.History.Keeps.{up_hist-Stays, down_hist-Stays}
use zbiggie.Devices.{Ports, send_eoi}
use zbiggie.Kernel.{Kernel, with_terminal, with_console}
use zbiggie.Kernel.Keyboard.{
  Keys, scan_to_ascii, shift_to_ascii, is_letter, switch_video, key_char, key_release, key_action,
  key_handler, rtc_handler, pit_handler, is_not_printable,
}
use zbiggie.Kernel.Sound.{Sound, Kept, Kept-Sound, with_terminal-Kept, with_console-Kept}
use zbiggie.Kernel.Enters.{switch_context-Sound}

pub rtc_handler-Kept : (inb : Ports → ℕ → ℕ) (k : Kernel) → Kept k (rtc_handler inb k)
unfolding rtc_handler
rtc_handler-Kept inb k = record {
  place = record { shown = refl; turn = refl; page = refl };
  process = refl;
  tables = refl;
  stack = refl;
  queue = refl;
  family = λ p. refl;
  alive = λ p. ground arith;
}

pub pit_handler-Kept : (k : Kernel) → Kept k (pit_handler k)
unfolding pit_handler
pit_handler-Kept k =
    with_console-Kept (λ c. record c { ports = send_eoi 0 c.ports }) k
      (record { shown = refl; turn = refl; page = refl })

switch_video-Sound : (n : ℕ) (k : Kernel) → n < 3 → Sound k → Sound (switch_video n k)
unfolding switch_video
switch_video-Sound n k small s =
    let saved = memcpy k.video (buffer_page k.current_terminal) k.video video_mem 4096 in
    let shown = memcpy saved video_mem saved (buffer_page n) 4096 in
    let switched = with_console (λ c. record c { video = shown; current_terminal = n }) k in
    let r = s.ready in
    elim (Bool-cases (k.current_terminal == n)) [
      | inl e ↦ rw e s
      | inr e ↦ rw e (
          switch_context-Sound k.current_process switched r.process (record {
            turn = r.turn;
            shown = small;
            process = r.process;
            directory = r.directory;
            stack = r.stack;
            queue = r.queue;
            family = r.family;
            frames = r.frames;
          }))
    ]

show-Sound :
    (n : ℕ) (k : Kernel) → n < 3 → Sound k → Sound (with_terminal term_switch (switch_video n k))
show-Sound n k small s =
    let k' = switch_video n k in
    Kept-Sound k' (with_terminal term_switch k')
      (with_terminal-Kept term_switch k' (term_switch-Stays k'.terminal))
      (switch_video-Sound n k small s)

-- The kernel under the keyboard's flags is sound.
abbrev Calm : Keys → Type 0
Calm s = Sound s.kernel

Calm-either : (b : Bool) (s s' : Keys) → Calm s → Calm s' → Calm (if b then s else s')
Calm-either true s s' h h' = h
Calm-either false s s' h h' = h'

abbrev CalmIf : Option Keys → Type 0
CalmIf none = Unit
CalmIf (some s) = Calm s

CalmIf-either :
    (b : Bool) (r r' : Option Keys) → CalmIf r → CalmIf r' → CalmIf (if b then r else r')
CalmIf-either true r r' h h' = h
CalmIf-either false r r' h h' = h'

abbrev on_terminal : (Terminal → Terminal) → Keys → Keys
on_terminal g s = record s { kernel = with_terminal g s.kernel }

on_terminal-Calm :
    (g : Terminal → Terminal) (s : Keys)
    → Stays s.terminal (g s.terminal)
    → Calm s
    → Calm (on_terminal g s)
on_terminal-Calm g s p h =
    Kept-Sound s.kernel (with_terminal g s.kernel) (with_terminal-Kept g s.kernel p) h

key_char-Calm : (key : ℕ) (s : Keys) → Calm s → Calm (key_char key s)
unfolding key_char
key_char-Calm key s h =
    let t = s.current_terminal in
    let shifted = s.shift_r_flag t || s.shift_l_flag t in
    let show =
      λ (n : ℕ). record s { kernel = with_terminal term_switch (switch_video n s.kernel) } in
    let put = λ (c : ℕ). on_terminal-Calm (term_putc c) s (term_putc-Stays c s.terminal) h in
    Calm-either (key == 0x3B && s.alt_flag) (show 0) _ (show-Sound 0 s.kernel (omega arith) h) (
      Calm-either (key == 0x3C && s.alt_flag) (show 1) _ (show-Sound 1 s.kernel (omega arith) h) (
        Calm-either (key == 0x3D && s.alt_flag) (show 2) _ (show-Sound 2 s.kernel (omega arith) h) (
          Calm-either (scan_to_ascii key == b'l' && s.ctrl_flag t)
            (on_terminal (λ x. term_init (term_clear x)) s) _
            (on_terminal-Calm (λ x. term_init (term_clear x)) s
              (Placed-Placed s.terminal.console (term_clear s.terminal).console
                (term_init (term_clear s.terminal)).console (term_clear-Stays s.terminal)
                (term_init-Stays (term_clear s.terminal)))
              h)
            (Calm-either (is_letter (scan_to_ascii key) && xor shifted s.caps_lock_flag)
              (on_terminal (term_putc (scan_to_ascii key - 32)) s) _ (put (scan_to_ascii key - 32))
              (Calm-either shifted (on_terminal (term_putc (shift_to_ascii key)) s)
                (on_terminal (term_putc (scan_to_ascii key)) s) (put (shift_to_ascii key))
                (put (scan_to_ascii key)))))))

key_release-Calm : (key : ℕ) (s : Keys) → Calm s → Calm (key_release key s)
unfolding key_release
key_release-Calm key s h =
    let t = s.current_terminal in
    Calm-either (key == 0x9D) (record s { ctrl_flag = update s.ctrl_flag t false }) _ h
      (Calm-either (key == 0xAA) (record s { shift_l_flag = update s.shift_l_flag t false }) _ h
        (Calm-either (key == 0xB6) (record s { shift_r_flag = update s.shift_r_flag t false }) _ h
          (Calm-either (key == 0xB8) (record s { alt_flag = false }) _ h
            (Calm-either (ltb 1 key && ltb key 123) (key_char key s) s (key_char-Calm key s h) h))))

recalled-CalmIf :
    (s : Keys) (r : Option Terminal)
    → StaysIf s.terminal r
    → Calm s
    → CalmIf (elim r as (λ x. Option Keys) [
      | none ↦ none
      | some t ↦ some (record s { kernel = record s.kernel { terminal = t } })
    ])
recalled-CalmIf s none p h = tt
recalled-CalmIf s (some t) p h = on_terminal-Calm (λ x. t) s p h

key_action-CalmIf : (key : ℕ) (s : Keys) → Calm s → CalmIf (key_action key s)
unfolding key_action
key_action-CalmIf key s h =
    let t = s.current_terminal in
    CalmIf-either (is_not_printable key) (some s) _ h (
      CalmIf-either (key == 0x50) _ _
        (recalled-CalmIf s (down_hist s.terminal) (down_hist-Stays s.terminal) h)
        (CalmIf-either (key == 0x48) _ _
          (recalled-CalmIf s (up_hist s.terminal) (up_hist-Stays s.terminal) h)
          (CalmIf-either (key == 0x4B) (some (on_terminal term_move_left s)) _
            (on_terminal-Calm term_move_left s (term_move_left-Stays s.terminal) h)
            (CalmIf-either (key == 0x4D) (some (on_terminal term_move_right s)) _
              (on_terminal-Calm term_move_right s (term_move_right-Stays s.terminal) h)
              (CalmIf-either (key == 0x38) (some (record s { alt_flag = true })) _ h (
                CalmIf-either (key == 0x1D)
                  (some (record s { ctrl_flag = update s.ctrl_flag t true })) _ h
                  (CalmIf-either (key == 0x2A)
                    (some (record s { shift_l_flag = update s.shift_l_flag t true })) _ h
                    (CalmIf-either (key == 0x36)
                      (some (record s { shift_r_flag = update s.shift_r_flag t true })) _ h
                      (CalmIf-either (key == 0x3A)
                        (some (record s { caps_lock_flag = not s.caps_lock_flag })) _ h
                        (key_release-Calm key s h))))))))))

pub key_handler-CalmIf : (key : ℕ) (s : Keys) → Sound s.kernel → CalmIf (key_handler key s)
unfolding key_handler
key_handler-CalmIf key s h = acknowledged (key_action key s) (key_action-CalmIf key s h)
  where
    acknowledged :
        (r : Option Keys)
        → CalmIf r
        → CalmIf (elim r as (λ x. Option Keys) [
          | none ↦ none
          | some s' ↦ some (record s' {
            kernel = with_console (λ c. record c { ports = send_eoi 1 c.ports }) s'.kernel;
          })
        ])
    acknowledged none c = tt
    acknowledged (some s') c =
        Kept-Sound s'.kernel (with_console (λ c. record c { ports = send_eoi 1 c.ports }) s'.kernel)
          (with_console-Kept (λ c. record c { ports = send_eoi 1 c.ports }) s'.kernel
            (record { shown = refl; turn = refl; page = refl }))
          c
