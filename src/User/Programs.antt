-- ===== src/User/Programs.antt =====
-- The small programs of syscalls/: ece391hello.c, ece391testprint.c, ece391cat.c, ece391ls.c,
-- ece391shell.c and ece391counter.c. `buf` is the address of the program's local buffer; a result is
-- what main returns. The loops that a system call ends run on fuel.
use zbiggie.Prelude.{
  ℕ, zero, suc, ◌+◌, ◌-◌, ◌&&◌, ◌||◌, not, Option, none, some, ◌==◌, ltb, if◌then◌else◌, minus_one,
  add32, sub32, slt, Bytes, update, ◌>>=◌,
}
use zbiggie.User.{ece391_strlen, ece391_strcmp, ece391_itoa}
use zbiggie.Text.{literal}
use zbiggie.User.System.{System, ece391_fdputs, say, open_literal, fail_with}

module _ (sys : System) (rodata : ℕ) (buf : ℕ) where
  unfoldable pub testprint : Bytes → sys.State → Option (ℕ × sys.State)
  testprint m st = fail_with sys rodata "Hello, if this ran, the program was correct. Yay!\n" 0 m st

  unfoldable pub hello : Bytes → sys.State → Option (ℕ × sys.State)
  hello m st = do
    st1 ← say sys rodata "Hi, what's your name? " m st
    (cnt, m1, st2) ← sys.read 0 buf 1023 m st1
    if cnt == minus_one
        then fail_with sys rodata "Can't read name from keyboard.\n" 3 m1 st2
        else (do
          let m2 = update m1 (buf + cnt) 0
          st3 ← say sys rodata "Hello, " m2 st2
          st4 ← ece391_fdputs sys rodata 1 buf m2 st3
          some (0, st4))

  -- while (0 != (cnt = ece391_read (fd, buf, 1024)))
  unfoldable pub cat_loop : ℕ → ℕ → Bytes → sys.State → Option (ℕ × sys.State)
  cat_loop zero fd m st = none
  cat_loop (suc fuel) fd m st = do
    (cnt, m', st1) ← sys.read fd buf 1024 m st
    let failed = fail_with sys rodata "file read failed\n" 3 m' st1
    let written = (do
      (n, st2) ← sys.write 1 buf cnt m' st1
      let rest = cat_loop fuel fd m' st2
      if n == minus_one then some (3, st2) else rest)
    if cnt == 0 then some (0, st1) else if cnt == minus_one then failed else written

  unfoldable pub cat : ℕ → Bytes → sys.State → Option (ℕ × sys.State)
  cat fuel m st = do
    (status, m1, st1) ← sys.getargs buf 1024 m st
    if not (status == 0) then fail_with sys rodata "could not read arguments\n" 3 m1 st1 else (do
      (fd, st2) ← sys.open_file buf m1 st1
      if fd == minus_one
          then fail_with sys rodata "file not found\n" 2 m1 st2
          else cat_loop fuel fd m1 st2)

  -- while (0 != (cnt = ece391_read (fd, buf, SBUFSIZE-1)))
  unfoldable pub ls_loop : ℕ → ℕ → Bytes → sys.State → Option (ℕ × sys.State)
  ls_loop zero fd m st = none
  ls_loop (suc fuel) fd m st = do
    (cnt, m', st1) ← sys.read fd buf 32 m st
    let failed = fail_with sys rodata "directory entry read failed\n" 3 m' st1
    let line = update m' (buf + cnt) 10
    let written = (do
      (n, st2) ← sys.write 1 buf (add32 cnt 1) line st1
      let rest = ls_loop fuel fd line st2
      if n == minus_one then some (3, st2) else rest)
    if cnt == 0 then some (0, st1) else if cnt == minus_one then failed else written

  unfoldable pub ls : ℕ → Bytes → sys.State → Option (ℕ × sys.State)
  ls fuel m st = do
    (fd, st1) ← open_literal sys rodata "." m st
    if fd == minus_one
        then fail_with sys rodata "directory open failed\n" 2 m st1
        else ls_loop fuel fd m st1

  -- What the shell prints behind a program that returned `rval`.
  abbrev pub report : ℕ → Bytes → sys.State → Option sys.State
  report rval m st =
      let no_command = say sys rodata "no such command\n" m st in
      let by_exception = say sys rodata "program terminated by exception\n" m st in
      let abnormal = say sys rodata "program terminated abnormally\n" m st in
      if rval == minus_one
      then no_command
      else if rval == 256
      then by_exception
      else if not (rval == 0)
      then abnormal
      else some st

  -- The line that was read: a newline at its end goes, and a NUL stands behind it.
  abbrev pub end_line : ℕ → Bytes → Bytes
  end_line cnt m =
      let last = if slt 0 cnt && (m (buf + (cnt - 1)) == 10) then sub32 cnt 1 else cnt in
      update m (buf + last) 0

  -- while (1); the result is that of the round that returns.
  unfoldable pub shell_loop : ℕ → Bytes → sys.State → Option (ℕ × sys.State)
  shell_loop zero m st = none
  shell_loop (suc fuel) m st = do
    st1 ← say sys rodata "391OS> " m st
    (cnt, m1, st2) ← sys.read 0 buf 1023 m st1
    let failed = fail_with sys rodata "read from keyboard failed\n" 3 m1 st2
    let line = end_line cnt m1
    let again = shell_loop fuel line st2
    let run = (do
      (rval, m2, st3) ← sys.execute buf line st2
      st4 ← report rval m2 st3
      shell_loop fuel m2 st4)
    let command = (do
      differs ← ece391_strcmp (literal "exit" rodata line) buf rodata
      if differs == 0 then some (0, st2) else if line buf == 0 then again else run)
    if cnt == minus_one then failed else command

  unfoldable pub shell : ℕ → Bytes → sys.State → Option (ℕ × sys.State)
  shell fuel m st = do st1 ← say sys rodata "Starting 391 Shell\n" m st; shell_loop fuel m st1

  -- for (i = 0; i < max; i++), with the rounds that are left.
  unfoldable pub count_loop : ℕ → ℕ → Bytes → sys.State → Option (ℕ × sys.State)
  count_loop zero i m st = some (0, st)
  count_loop (suc rounds) i m st = do
    m1 ← ece391_itoa (i + 1) m buf 10
    st1 ← ece391_fdputs sys rodata 1 buf m1 st
    st2 ← say sys rodata "\n" m1 st1
    count_loop rounds (i + 1) m1 st2

  -- The switch over the first character; any other leaves `max` at 0.
  abbrev pub count_of : ℕ → ℕ
  count_of c =
      if c == b'0' then 100 else if c == b'1' then 10000 else if c == b'2' then 100000 else 0

  unfoldable pub counter : Bytes → sys.State → Option (ℕ × sys.State)
  counter m st = do
    st1 ← say sys rodata "Enter the Test Number: (0): 100, (1): 10000, (2): 100000\n" m st
    (cnt, m1, st2) ← sys.read 0 buf 1023 m st1
    let line = update m1 (buf + cnt) 0
    let failed = fail_with sys rodata "Can't read the number from keyboard.\n" 3 m1 st2
    let wrong = fail_with sys rodata "Wrong Choice!\n" 0 line st2
    let counted = count_loop (count_of (line buf)) 0 line st2
    let chosen = (do
      len ← ece391_strlen line buf
      if ltb 1 len || ((len == 1) && (ltb (line buf) b'0' || ltb b'2' (line buf)))
          then wrong
          else counted)
    if cnt == minus_one then failed else chosen
