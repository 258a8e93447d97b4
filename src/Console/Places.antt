-- ===== src/Console/Places.antt =====
-- What no operation of the screen changes: which terminal is shown, whose turn it is, and where the
-- page at VIDEO lies.
use zbiggie.Prelude.{
  ℕ, ◌≡◌, ◌∙◌, refl, arith, Bool-cases, inl, inr, ◌==◌, ◌&&◌, update, add32, if◌then◌else◌,
}
use zbiggie.Console.{
  Console, set_pos, set_x, move_left, move_right, clear, scroll, mt_scroll, cursor_loc, sync_cursor,
}
use zbiggie.Console.Print.{
  putc, mt_putc, putc_kb, scoot_text, poke, new_line, wrap_line, wrap_screen, step_back, advance,
  is_newline, backspace,
}

pub record Placed (c c' : Console) : Type 0 where
  pub shown : c'.current_terminal ≡ c.current_terminal
  pub turn : c'.current_active_process ≡ c.current_active_process
  pub page : c'.mapped ≡ c.mapped

pub Placed-refl : (c : Console) → Placed c c
Placed-refl c = record { shown = refl; turn = refl; page = refl }

pub Placed-Placed : (c d e : Console) → Placed c d → Placed d e → Placed c e
Placed-Placed c d e p q = record {
  shown = q.shown ∙ p.shown;
  turn = q.turn ∙ p.turn;
  page = q.page ∙ p.page;
}

pub set_pos-Placed : (x y : ℕ) (c : Console) → Placed c (set_pos x y c)
unfolding set_pos
set_pos-Placed x y c = record { shown = refl; turn = refl; page = refl }

pub set_x-Placed : (x : ℕ) (c : Console) → Placed c (set_x x c)
unfolding set_x
set_x-Placed x c = record { shown = refl; turn = refl; page = refl }

pub move_left-Placed : (c : Console) → Placed c (move_left c)
unfolding move_left
move_left-Placed c = record { shown = ground arith; turn = ground arith; page = ground arith }

pub move_right-Placed : (c : Console) → Placed c (move_right c)
unfolding move_right
move_right-Placed c = record { shown = ground arith; turn = ground arith; page = ground arith }

pub clear-Placed : (c : Console) → Placed c (clear c)
unfolding clear
clear-Placed c = record { shown = refl; turn = refl; page = refl }

pub scoot_text-Placed : (c : Console) → Placed c (scoot_text c)
unfolding scoot_text
scoot_text-Placed c = record { shown = refl; turn = refl; page = refl }

pub putc-Placed : (ch : ℕ) (c : Console) → Placed c (putc ch c)
unfolding putc scroll new_line
putc-Placed ch c = record { shown = ground arith; turn = ground arith; page = ground arith }

poke-Placed : (ch : ℕ) (c : Console) → Placed c (poke ch c)
unfolding poke
poke-Placed ch c = record { shown = ground arith; turn = ground arith; page = ground arith }

step_back-Placed : (c : Console) → Placed c (step_back c)
unfolding step_back
step_back-Placed c = record { shown = ground arith; turn = ground arith; page = ground arith }

wrap_line-Placed : (c : Console) → Placed c (wrap_line c)
unfolding wrap_line new_line
wrap_line-Placed c = record { shown = ground arith; turn = ground arith; page = ground arith }

wrap_screen-Placed : (c : Console) → Placed c (wrap_screen c)
unfolding wrap_screen scroll
wrap_screen-Placed c = record { shown = ground arith; turn = ground arith; page = ground arith }

-- The end of putc_kb.
wrapped-Placed : (c d : Console) → Placed c d → Placed c (sync_cursor (wrap_screen (wrap_line d)))
unfolding cursor_loc
wrapped-Placed c d p =
    let line = wrap_line-Placed d in
    let screen = wrap_screen-Placed (wrap_line d) in
    let q =
      Placed-Placed c d (wrap_screen (wrap_line d)) p
        (Placed-Placed d (wrap_line d) (wrap_screen (wrap_line d)) line screen) in
    record { shown = q.shown; turn = q.turn; page = q.page }

-- The step of putc_kb before the wraps.
abbrev typed : ℕ → Console → Console
typed ch s =
    let t = s.current_terminal in
    if is_newline ch
    then record s {
      screen_y = update s.screen_y t (add32 (s.screen_y t) 1);
      screen_x = update s.screen_x t 0;
    }
    else if ch == backspace
    then if s.screen_y t == 0 && s.screen_x t == 0 then poke b' ' s else poke b' ' (step_back s)
    else advance t (poke ch (wrap_line s))

typed-Placed : (ch : ℕ) (c : Console) → Placed c (typed ch c)
unfolding advance
typed-Placed ch c = elim (Bool-cases (is_newline ch)) [
  | inl e ↦ rw e (record { shown = refl; turn = refl; page = refl })
  | inr e ↦ elim (Bool-cases (ch == backspace)) [
    | inl b ↦ rw (e, b) erased
    | inr b ↦ rw (e, b) printed
  ]
]
  where
    erased : Placed c (
        if c.screen_y c.current_terminal == 0 && c.screen_x c.current_terminal == 0
        then poke b' ' c
        else poke b' ' (step_back c))
    erased =
        elim (Bool-cases
          (c.screen_y c.current_terminal == 0 && c.screen_x c.current_terminal == 0)) [
            | inl e ↦ rw e (poke-Placed b' ' c)
            | inr e ↦ rw e (
                Placed-Placed c (step_back c) (poke b' ' (step_back c)) (step_back-Placed c)
                  (poke-Placed b' ' (step_back c)))
          ]

    printed : Placed c (advance c.current_terminal (poke ch (wrap_line c)))
    printed =
        let q =
          Placed-Placed c (wrap_line c) (poke ch (wrap_line c)) (wrap_line-Placed c)
            (poke-Placed ch (wrap_line c)) in
        record { shown = q.shown; turn = q.turn; page = q.page }

pub putc_kb-Placed : (ch : ℕ) (c : Console) → Placed c (putc_kb ch c)
unfolding putc_kb
putc_kb-Placed ch c = wrapped-Placed c (typed ch c) (typed-Placed ch c)

pub mt_putc-Placed : (ch : ℕ) (c : Console) → Placed c (mt_putc ch c)
unfolding mt_putc mt_scroll scroll new_line putc
mt_putc-Placed ch c = record { shown = ground arith; turn = ground arith; page = ground arith }
