-- ===== src/Console/Plain.antt =====
-- The marks that a write leaves, write_x and write_y, have no influence on what is printed.
use zbiggie.Prelude.{
  ℕ, ◌≡◌, ◌∙◌, refl, ap, sym, arith, Bool-cases, inl, inr, ◌==◌, if◌then◌else◌, sle,
}
use zbiggie.Console.{Console, scroll, mt_scroll, cursor_loc}
use zbiggie.Console.Print.{
  putc, mt_putc, poke, advance, new_line, wrap_line, wrap_screen, mt_poke, mt_wrap_line, is_newline,
}

-- The screen without the marks.
abbrev pub plain : Console → Console
plain s = record s { write_x = λ t. 0; write_y = λ t. 0 }

-- A step that the marks do not change and that shows the same with and without them.
abbrev Blind : (Console → Console) → Type 0
Blind f = (s : Console) → plain (f s) ≡ plain (f (plain s))

poke-Blind : (c : ℕ) → Blind (poke c)
unfolding poke
poke-Blind c s = ground arith

wrap_line-Blind : Blind wrap_line
unfolding wrap_line new_line
wrap_line-Blind s = ground arith

wrap_screen-Blind : Blind wrap_screen
unfolding wrap_screen scroll
wrap_screen-Blind s = ground arith

Blind-Blind : (f g : Console → Console) → Blind f → Blind g → Blind (λ s. g (f s))
Blind-Blind f g hf hg s =
    hg (f s) ∙ ap (λ (t : Console). plain (g t)) (hf s) ∙ sym (hg (f (plain s)))

-- The step before the wraps of putc.
entered : ℕ → Console → Console
entered c s =
    if is_newline c then new_line s.current_terminal s else advance s.current_terminal (poke c s)

entered-Blind : (c : ℕ) → Blind (entered c)
unfolding entered poke new_line advance
entered-Blind c s = ground arith

synced : Console → Console
unfolding cursor_loc
synced s = cursor_loc (s.screen_x s.current_terminal) (s.screen_y s.current_terminal) s

putc-Blind : (c : ℕ) → Blind (putc c)
unfolding putc entered synced cursor_loc
putc-Blind c =
    Blind-Blind (λ s. wrap_screen (wrap_line (entered c s))) synced
      (Blind-Blind (λ s. wrap_line (entered c s)) wrap_screen
        (Blind-Blind (entered c) wrap_line (entered-Blind c) wrap_line-Blind) wrap_screen-Blind)
      (λ s. refl)

-- What mt_putc does in the background before the scroll, and the scroll, for process `p`.
mt_entered : ℕ → ℕ → Console → Console
mt_entered p c s = mt_wrap_line (if is_newline c then new_line p s else advance p (mt_poke c s))

mt_entered-Blind : (p c : ℕ) → Blind (mt_entered p c)
unfolding mt_entered mt_poke new_line advance mt_wrap_line
mt_entered-Blind p c s = ground arith

mt_wrapped : ℕ → Console → Console
mt_wrapped p s = if sle 25 (s.screen_y p) then mt_scroll s else s

mt_wrapped-Blind : (p : ℕ) → Blind (mt_wrapped p)
unfolding mt_wrapped mt_scroll scroll
mt_wrapped-Blind p s = ground arith

background-Blind : (p c : ℕ) → Blind (λ s. synced (mt_wrapped p (mt_entered p c s)))
unfolding synced cursor_loc
background-Blind p c =
    Blind-Blind (λ s. mt_wrapped p (mt_entered p c s)) synced
      (Blind-Blind (mt_entered p c) (mt_wrapped p) (mt_entered-Blind p c) (mt_wrapped-Blind p))
      (λ s. refl)

mt_putc-steps :
    (c : ℕ) (s : Console)
    → mt_putc c s ≡ (
        if s.current_active_process == s.current_terminal
        then putc c s
        else synced (mt_wrapped s.current_active_process (mt_entered s.current_active_process c s)))
unfolding mt_putc mt_wrapped mt_entered synced
mt_putc-steps c s = refl

-- What mt_putc shows depends on no mark.
pub mt_putc-plain : (c : ℕ) (s : Console) → plain (mt_putc c s) ≡ plain (mt_putc c (plain s))
mt_putc-plain c s =
    ap plain (mt_putc-steps c s)
    ∙ elim (Bool-cases (s.current_active_process == s.current_terminal)) [
      | inl e ↦ rw e (putc-Blind c s)
      | inr e ↦ rw e (background-Blind s.current_active_process c s)
    ]
    ∙ ap plain (sym (mt_putc-steps c (plain s)))
