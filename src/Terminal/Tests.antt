-- ===== src/Terminal/Tests.antt =====
-- The line discipline on the line "hi".
use zbiggie.Prelude.{ℕ, ◌≡◌, refl, arith}
use zbiggie.Samples.{ramp, typed_terminal}
use zbiggie.Terminal.{term_putc, term_move_right, term_read_finish}
use zbiggie.Terminal.Insert.{insert_lem}
use zbiggie.Terminal.Line.{InLine, typed, right, key, done, SameBehind, Edits-InLine}
use zbiggie.Terminal.Read.{line_read, term_read_finish-line}

typed-InLine : (t : ℕ) → InLine t typed_terminal
typed-InLine t = record { position = omega arith; size = omega arith }

insert_lem_example :
    ((term_putc b'o' typed_terminal).buffer 0 1 ≡ b'h')
    × ((term_putc b'o' typed_terminal).cur_pos 0 ≡ 1)
    × ((term_putc b'o' typed_terminal).cur_size 0 ≡ 3)
insert_lem_example = insert_lem b'o' typed_terminal 1 refl refl (omega arith) (omega arith)

-- A character, then the right arrow.
Edits-InLine_example :
    ((t : ℕ) → InLine t (term_move_right (term_putc b'o' typed_terminal)))
    × SameBehind typed_terminal (term_move_right (term_putc b'o' typed_terminal))
Edits-InLine_example = Edits-InLine (key (typed b'o' refl) (key right done)) typed-InLine

term_read_finish-line_example :
    ((term_read_finish ramp 1000 16 typed_terminal).0 ≡ 3)
    × ((a : ℕ)
        → (term_read_finish ramp 1000 16 typed_terminal).1 a
          ≡ line_read ramp 1000 0 2 (typed_terminal.buffer 0) a)
term_read_finish-line_example =
    term_read_finish-line ramp 1000 16 2 typed_terminal (omega arith) (omega arith)
      (λ j lt. ground arith) refl
