-- ===== src/Terminal/Places.antt =====
-- No operation of the line discipline changes which terminal is shown, whose turn it is, or where the
-- page at VIDEO lies.
use zbiggie.Prelude.{
  ℕ, zero, suc, ◌+◌, refl, Bytes, Bool-cases, inl, inr, Option, none, some, ◌==◌, ◌&&◌, slt, sle,
  sub32, if◌then◌else◌,
}
use zbiggie.Console.{Console, set_pos, set_x, move_left, clear}
use zbiggie.Console.Print.{putc, mt_putc, putc_kb, scoot_text, is_newline, backspace}
use zbiggie.Console.Places.{
  Placed, Placed-refl, Placed-Placed, set_pos-Placed, set_x-Placed, move_left-Placed,
  move_right-Placed, clear-Placed, scoot_text-Placed, putc-Placed, putc_kb-Placed, mt_putc-Placed,
}
use zbiggie.Terminal.{
  Terminal, term_init, enter, erase, insert, term_putc, term_write_loop, term_write,
  term_read_finish, term_clear, term_move_left, term_move_right, term_switch, past_write,
}

-- The same of two terminals' consoles.
abbrev pub Stays : Terminal → Terminal → Type 0
Stays s s' = Placed s.console s'.console

-- Whatever result an operation that may not end gives.
abbrev pub StaysIf : Terminal → Option Terminal → Type 0
StaysIf s none = Unit
StaysIf s (some s') = Stays s s'

pub term_init-Stays : (s : Terminal) → Stays s (term_init s)
unfolding term_init
term_init-Stays s = record { shown = refl; turn = refl; page = refl }

pub term_clear-Stays : (s : Terminal) → Stays s (term_clear s)
unfolding term_clear
term_clear-Stays s =
    Placed-Placed s.console (clear s.console) (set_pos 0 0 (clear s.console))
      (clear-Placed s.console) (set_pos-Placed 0 0 (clear s.console))

pub term_switch-Stays : (s : Terminal) → Stays s (term_switch s)
unfolding term_switch
term_switch-Stays s = set_pos-Placed _ _ s.console

pub term_move_left-Stays : (s : Terminal) → Stays s (term_move_left s)
unfolding term_move_left
term_move_left-Stays s =
    elim (Bool-cases (slt 0 (s.cur_pos s.current_terminal) && past_write s.console)) [
      | inl e ↦ rw e (move_left-Placed s.console)
      | inr e ↦ rw e (Placed-refl s.console)
    ]

pub term_move_right-Stays : (s : Terminal) → Stays s (term_move_right s)
unfolding term_move_right
term_move_right-Stays s =
    elim (Bool-cases (slt (s.cur_pos s.current_terminal) (s.cur_size s.current_terminal))) [
      | inl e ↦ rw e (move_right-Placed s.console)
      | inr e ↦ rw e (Placed-refl s.console)
    ]

enter-Stays : (s : Terminal) → Stays s (enter s)
unfolding enter
enter-Stays s = record { shown = refl; turn = refl; page = refl }

insert-Stays : (c : ℕ) (s : Terminal) → Stays s (insert c s)
unfolding insert
insert-Stays c s =
    elim (Bool-cases (slt (s.cur_pos s.current_terminal) (s.cur_size s.current_terminal))) [
      | inl e ↦ rw e (
          Placed-Placed s.console (scoot_text s.console) (putc_kb c (scoot_text s.console))
            (scoot_text-Placed s.console) (putc_kb-Placed c (scoot_text s.console)))
      | inr e ↦ rw e (putc_kb-Placed c s.console)
    ]

-- A character between two steps to the left, and one in front of such a step.
two_steps : (ch : ℕ) (c : Console) → Placed c (move_left (putc_kb ch (move_left c)))
two_steps ch c =
    let l = move_left c in
    Placed-Placed c l (move_left (putc_kb ch l)) (move_left-Placed c) (
      Placed-Placed l (putc_kb ch l) (move_left (putc_kb ch l)) (putc_kb-Placed ch l)
        (move_left-Placed (putc_kb ch l)))

one_step : (ch : ℕ) (c : Console) → Placed c (move_left (putc ch c))
one_step ch c =
    Placed-Placed c (putc ch c) (move_left (putc ch c)) (putc-Placed ch c)
      (move_left-Placed (putc ch c))

erase-Stays : (s : Terminal) → Stays s (erase s)
unfolding erase
erase-Stays s =
    let t = s.current_terminal in
    let at_end = sle (sub32 (s.cur_size t) 1) (s.cur_pos t) in
    let ch = if at_end then 0 else b' ' in
    elim (Bool-cases (past_write s.console)) [
      | inl e ↦ elim (Bool-cases (slt 0 (s.cur_pos t))) [
        | inl p ↦ rw (e, p) (two_steps ch s.console)
        | inr p ↦ rw (e, p) (one_step ch s.console)
      ]
      | inr e ↦ rw e (Placed-refl s.console)
    ]

pub term_putc-Stays : (c : ℕ) (s : Terminal) → Stays s (term_putc c s)
unfolding term_putc
term_putc-Stays c s = elim (Bool-cases (is_newline c)) [
  | inl e ↦ rw e (enter-Stays s)
  | inr e ↦ elim (Bool-cases (c == backspace)) [
    | inl b ↦ rw (e, b) (erase-Stays s)
    | inr b ↦
        elim (Bool-cases
          (slt (s.cur_pos s.current_terminal) 127 && slt (s.cur_size s.current_terminal) 127)) [
            | inl r ↦ rw (e, b, r) (insert-Stays c s)
            | inr r ↦ rw (e, b, r) (Placed-refl s.console)
          ]
  ]
]

term_write_loop-Placed :
    (n : ℕ) (m : Bytes) (buf : ℕ) (c : Console) → Placed c (term_write_loop n m buf c)
unfolding term_write_loop
term_write_loop-Placed zero m buf c = Placed-refl c
term_write_loop-Placed (suc n) m buf c =
    let c1 = mt_putc (m buf) c in
    Placed-Placed c c1 (term_write_loop n m (buf + 1) c1) (mt_putc-Placed (m buf) c)
      (term_write_loop-Placed n m (buf + 1) c1)

pub term_write-Stays : (m : Bytes) (buf cnt : ℕ) (s : Terminal) → Stays s (term_write m buf cnt s).1
unfolding term_write
term_write-Stays m buf cnt s =
    let p = term_write_loop-Placed (if slt cnt 0 then 0 else cnt) m buf s.console in
    record { shown = p.shown; turn = p.turn; page = p.page }

pub term_read_finish-Stays :
    (m : Bytes) (buf numbytes : ℕ) (s : Terminal) → Stays s (term_read_finish m buf numbytes s).2
unfolding term_read_finish
term_read_finish-Stays m buf numbytes s =
    Placed-Placed s.console (set_x 10 s.console) (putc 10 (set_x 10 s.console))
      (set_x-Placed 10 s.console) (putc-Placed 10 (set_x 10 s.console))
