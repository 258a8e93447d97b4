-- ===== src/User/Pingpong.antt =====
-- syscalls/ece391pingpong.c: the world of 81 bytes, and the rounds of the program's loop, which has no
-- end. `buf` is the address of the world, `garbage` that of the word that the clock's read gets.
use zbiggie.Prelude.{
  ℕ, zero, suc, ◌+◌, ◌-◌, ◌%◌, Option, some, ◌==◌, if◌then◌else◌, Bytes, update, for_range, ◌>>=◌,
}
use zbiggie.User.System.{System, ece391_fdputs, open_literal}

-- The buffer before the loop: spaces, and the walls at places 1 and 78.
pub build_world : ℕ → Bytes → Bytes
build_world buf m =
    let blank = for_range 81 0 (λ i n. update n (buf + i) b' ') m in
    update (update (update (update blank (buf + 80) 0) (buf + 79) 10) (buf + 78) b'|') (buf + 1)
      b'|'

-- A frame: places 2 to 77 are cleared, and the character is drawn at place `j`.
unfoldable pub draw : ℕ → ℕ → ℕ → Bytes → Bytes
draw buf curchar j m = update (for_range 76 2 (λ i n. update n (buf + i) b' ') m) (buf + j) curchar

-- The character of the next round.
unfoldable pub next_char : ℕ → ℕ
next_char curchar = if curchar == b'Z' then b'A' else (curchar + 1) % 256

module _ (sys : System) (rodata : ℕ) (buf garbage : ℕ) where
  -- Draw, print, and wait for a tick.
  unfoldable pub frame : ℕ → ℕ → ℕ → Bytes → sys.State → Option (Bytes × sys.State)
  frame rtc_fd curchar j m st = do
    let drawn = draw buf curchar j m
    st1 ← ece391_fdputs sys rodata 1 buf drawn st
    (n, m', st2) ← sys.read rtc_fd garbage 4 drawn st1
    some (m', st2)

  -- for(j = STARTLOOP; j < LOOPMAX; j++), with the frames that are left.
  unfoldable pub move_out : ℕ → ℕ → ℕ → ℕ → Bytes → sys.State → Option (Bytes × sys.State)
  move_out zero rtc_fd curchar j m st = some (m, st)
  move_out (suc left) rtc_fd curchar j m st = do
    (m', st') ← frame rtc_fd curchar j m st
    move_out left rtc_fd curchar (j + 1) m' st'

  -- for(j = LOOPMAX - 1; j >= STARTLOOP; j--)
  unfoldable pub bounce_back : ℕ → ℕ → ℕ → ℕ → Bytes → sys.State → Option (Bytes × sys.State)
  bounce_back zero rtc_fd curchar j m st = some (m, st)
  bounce_back (suc left) rtc_fd curchar j m st = do
    (m', st') ← frame rtc_fd curchar j m st
    bounce_back left rtc_fd curchar (j - 1) m' st'

  -- The state behind `rounds` rounds of the loop.
  unfoldable pub pingpong_rounds : ℕ → ℕ → ℕ → Bytes → sys.State → Option (Bytes × sys.State)
  pingpong_rounds zero rtc_fd curchar m st = some (m, st)
  pingpong_rounds (suc rounds) rtc_fd curchar m st = do
    (m1, st1) ← move_out 76 rtc_fd curchar 2 m st
    (m2, st2) ← bounce_back 76 rtc_fd curchar 77 m1 st1
    pingpong_rounds rounds rtc_fd (next_char curchar) m2 st2

  -- The start: the clock is set to 32 hertz by the word at `rate`.
  unfoldable pub pingpong : ℕ → (rate : ℕ) → Bytes → sys.State → Option (Bytes × sys.State)
  pingpong rounds rate m st = do
    let world = build_world buf m
    (rtc_fd, st1) ← open_literal sys rodata "rtc" world st
    let set = update (update (update (update world rate 32) (rate + 1) 0) (rate + 2) 0) (rate + 3) 0
    (n, st2) ← sys.write rtc_fd rate 4 set st1
    pingpong_rounds rounds rtc_fd b'A' set st2
