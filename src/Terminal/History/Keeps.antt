-- ===== src/Terminal/History/Keeps.antt =====
-- The history's keys do not change which terminal is shown, whose turn it is, or where the page at VIDEO
-- lies.
use Prim.{tt}
use zbiggie.Prelude.{
  ℕ, zero, suc, ◌+◌, ◌%◌, Bool, true, false, refl, Bytes, Bool-cases, inl, inr, Option, none, some,
  ◌==◌, ◌||◌, not, ltb, if◌then◌else◌, modulus, update, add32, ◌>>=◌, for_range,
}
use zbiggie.Console.{Console, set_pos}
use zbiggie.Console.Print.{putc}
use zbiggie.Console.Places.{Placed, Placed-refl, Placed-Placed, set_pos-Placed, putc-Placed}
use zbiggie.Terminal.{Terminal}
use zbiggie.Terminal.Places.{Stays, StaysIf}
use zbiggie.Terminal.History.{
  save_hist, save_loop, up_hist, down_hist, blank_loop, recall_loop, recall, seek, slot_above,
  slot_below,
}

-- The screen of a result.
abbrev PlacedIf : Console → Option Console → Type 0
PlacedIf c none = Unit
PlacedIf c (some d) = Placed c d

PlacedIf-Placed : (c d : Console) (r : Option Console) → Placed c d → PlacedIf d r → PlacedIf c r
PlacedIf-Placed c d none p h = h
PlacedIf-Placed c d (some e) p h = Placed-Placed c d e p h

StaysIf-Stays : (s t : Terminal) (r : Option Terminal) → Stays s t → StaysIf t r → StaysIf s r
StaysIf-Stays s t none p h = h
StaysIf-Stays s t (some u) p h = Placed-Placed s.console t.console u.console p h

StaysIf-either :
    (s : Terminal) (b : Bool) (r r' : Option Terminal)
    → StaysIf s r
    → StaysIf s r'
    → StaysIf s (if b then r else r')
StaysIf-either s true r r' h h' = h
StaysIf-either s false r r' h h' = h'

StaysIf-bind :
    (s : Terminal) (r : Option Bytes) (f : Bytes → Terminal)
    → ((l : Bytes) → Stays s (f l))
    → StaysIf s (r >>= (λ l. some (f l)))
StaysIf-bind s none f h = tt
StaysIf-bind s (some l) f h = h l

pub save_hist-Stays : (m : Bytes) (buf : ℕ) (s : Terminal) → StaysIf s (save_hist m buf s)
unfolding save_hist
save_hist-Stays m buf s =
    let t = s.current_terminal in
    let slot = add32 (s.hist_bottom_indeces t) 1 % 50 in
    let bottom = add32 slot 1 % 50 in
    StaysIf-bind s
      (save_loop modulus m buf 0 (for_range 128 0 (λ i b. update b i 0) (s.history t slot)))
      (λ line. record s {
        history = update s.history t (update (s.history t) slot line);
        hist_bottom_indeces = update s.hist_bottom_indeces t bottom;
        hist_indeces = update s.hist_indeces t bottom;
      })
      (λ line. record { shown = refl; turn = refl; page = refl })

blank_loop-PlacedIf :
    (fuel : ℕ) (slot : Bytes) (i : ℕ) (c : Console) → PlacedIf c (blank_loop fuel slot i c)
unfolding blank_loop
blank_loop-PlacedIf zero slot i c = tt
blank_loop-PlacedIf (suc fuel) slot i c = elim (Bool-cases (ltb i 69 || not (slot i == 0))) [
  | inl e ↦ rw e (
      PlacedIf-Placed c (putc 0 c) (blank_loop fuel slot (i + 1) (putc 0 c)) (putc-Placed 0 c)
        (blank_loop-PlacedIf fuel slot (i + 1) (putc 0 c)))
  | inr e ↦ rw e (Placed-refl c)
]

recall_loop-StaysIf :
    (fuel : ℕ) (slot : Bytes) (i : ℕ) (s : Terminal) → StaysIf s (recall_loop fuel slot i s)
unfolding recall_loop
recall_loop-StaysIf zero slot i s = tt
recall_loop-StaysIf (suc fuel) slot i s =
    let t = s.current_terminal in
    let s1 : Terminal = record s {
      buffer = update s.buffer t (update (s.buffer t) i (slot i));
      console = putc (slot i) s.console;
      cur_pos = update s.cur_pos t (add32 (s.cur_pos t) 1);
      cur_size = update s.cur_size t (add32 (s.cur_size t) 1);
    } in
    elim (Bool-cases (slot i == 0)) [
      | inl e ↦ rw e (Placed-refl s.console)
      | inr e ↦ rw e (
          StaysIf-Stays s s1 (recall_loop fuel slot (i + 1) s1) (putc-Placed (slot i) s.console)
            (recall_loop-StaysIf fuel slot (i + 1) s1))
    ]

abbrev home : Console → Console
home c = set_pos (c.write_x c.current_terminal) (c.write_y c.current_terminal) c

recalled-StaysIf :
    (slot : Bytes) (s : Terminal) (r : Option Console)
    → PlacedIf s.console r
    → StaysIf s (do blank ← r; recall_loop modulus slot 0 (record s { console = home blank }))
recalled-StaysIf slot s none h = tt
recalled-StaysIf slot s (some blank) h =
    let s1 : Terminal = record s { console = home blank } in
    StaysIf-Stays s s1 (recall_loop modulus slot 0 s1)
      (Placed-Placed s.console blank (home blank) h (set_pos-Placed _ _ blank))
      (recall_loop-StaysIf modulus slot 0 s1)

recall-StaysIf : (slot : Bytes) (s : Terminal) → StaysIf s (recall slot s)
unfolding recall
recall-StaysIf slot s =
    let c = home s.console in
    recalled-StaysIf slot s (blank_loop modulus slot 0 c) (
      PlacedIf-Placed s.console c (blank_loop modulus slot 0 c) (set_pos-Placed _ _ s.console)
        (blank_loop-PlacedIf modulus slot 0 c))

pub up_hist-Stays : (s : Terminal) → StaysIf s (up_hist s)
unfolding up_hist
up_hist-Stays s =
    let t = s.current_terminal in
    let i = seek 50 slot_above (s.history t) (slot_above (s.hist_indeces t)) in
    let plain : Terminal = record s { hist_indeces = update s.hist_indeces t i } in
    let found : Terminal = record s {
      hist_indeces = update s.hist_indeces t i;
      cur_pos = update s.cur_pos t 0;
      cur_size = update s.cur_size t 0;
    } in
    StaysIf-either s (s.history t i 0 == 0) (some plain) (recall (s.history t i) found)
      (Placed-refl s.console)
      (StaysIf-Stays s found (recall (s.history t i) found) (Placed-refl s.console)
        (recall-StaysIf (s.history t i) found))

pub down_hist-Stays : (s : Terminal) → StaysIf s (down_hist s)
unfolding down_hist
down_hist-Stays s =
    let t = s.current_terminal in
    let i = seek 50 slot_below (s.history t) (slot_below (s.hist_indeces t)) in
    let found : Terminal = record s { hist_indeces = update s.hist_indeces t i } in
    StaysIf-either s (s.history t i 0 == 0) (some found) (recall (s.history t i) found)
      (Placed-refl s.console)
      (StaysIf-Stays s found (recall (s.history t i) found) (Placed-refl s.console)
        (recall-StaysIf (s.history t i) found))
