-- ===== src/User/Syserr.antt =====
-- syscalls/ece391syserr.c: the tests of what the system calls refuse. `buf` is the address of a test's
-- local buffer; a result is the test's return value, 0 or 2, and the system behind it.
use Prim.Native.String.{String}
use zbiggie.Prelude.{
  ℕ, zero, suc, ◌+◌, Option, some, ◌==◌, if◌then◌else◌, minus_one, sub32, Bytes, ◌>>=◌,
}
use zbiggie.User.System.{System, say, open_literal}

-- NEG_FD and NEG_NUM, BIG_FD and BIG_NUM
abbrev pub neg_fd : ℕ
neg_fd = 3221225473

abbrev pub big_fd : ℕ
big_fd = 1073741823

module _ (sys : System) (rodata : ℕ) (buf : ℕ) where
  -- if (-1 != result) { fail = 2; ece391_fdputs(1, text); }
  abbrev pub refused : String → ℕ → ℕ → Bytes → sys.State → Option (ℕ × sys.State)
  refused text fail result m st =
      let wrong = (do st' ← say sys rodata text m st; some (2, st')) in
      if result == minus_one then some (fail, st) else wrong

  -- The line at the end of a test.
  abbrev pub verdict : String → String → ℕ → Bytes → sys.State → Option (ℕ × sys.State)
  verdict failed passed fail m st = do
    st' ← if fail == 0 then say sys rodata passed m st else say sys rodata failed m st
    some (fail, st')

  -- What err_neg_fd and err_big_fd do with their descriptor.
  abbrev pub bad_fd : ℕ → String → String → Bytes → sys.State → Option (ℕ × Bytes × sys.State)
  bad_fd fd failed passed m st = do
    (r, m1, st1) ← sys.read fd buf 31 m st
    (fail1, st2) ← refused "read fail\n" 0 r m1 st1
    (w, st3) ← sys.write fd buf 31 m1 st2
    (fail2, st4) ← refused "write fail\n" fail1 w m1 st3
    (c, st5) ← sys.close fd st4
    (fail3, st6) ← refused "close fail\n" fail2 c m1 st5
    (fail, st7) ← verdict failed passed fail3 m1 st6
    some (fail, m1, st7)

  unfoldable pub err_neg_fd : Bytes → sys.State → Option (ℕ × Bytes × sys.State)
  err_neg_fd = bad_fd neg_fd "err_neg_fd: FAIL\n" "err_neg_fd: PASS\n"

  unfoldable pub err_big_fd : Bytes → sys.State → Option (ℕ × Bytes × sys.State)
  err_big_fd = bad_fd big_fd "err_big_fd: FAIL\n" "err_big_fd: PASS\n"

  -- The opens, of which `rounds` are left, with the number that failed so far.
  unfoldable pub open_lots : ℕ → ℕ → Bytes → sys.State → Option (ℕ × sys.State)
  open_lots zero cnt m st = some (cnt, st)
  open_lots (suc rounds) cnt m st = do
    (fd, st1) ← open_literal sys rodata "." m st
    open_lots rounds (if fd == minus_one then cnt + 1 else cnt) m st1

  -- for(; rounds left; i++) ece391_close(i);
  unfoldable pub close_all : ℕ → ℕ → sys.State → Option sys.State
  close_all zero i st = some st
  close_all (suc rounds) i st = do (r, st1) ← sys.close i st; close_all rounds (i + 1) st1

  unfoldable pub err_open_lots : Bytes → sys.State → Option (ℕ × Bytes × sys.State)
  err_open_lots m st = do
    (cnt, st1) ← open_lots 7 0 m st
    st2 ← close_all 6 2 st1
    (fail, st3) ←
        verdict "err_open_lots: FAIL\n" "err_open_lots: PASS\n" (if cnt == 1 then 0 else 2) m st2
    some (fail, m, st3)

  unfoldable pub err_open : Bytes → sys.State → Option (ℕ × Bytes × sys.State)
  err_open m st = do
    (r1, st1) ← open_literal sys rodata "helloo" m st
    (fail1, st2) ← refused "'helloo' fail\n" 0 r1 m st1
    (r2, st3) ← open_literal sys rodata "shel" m st2
    (fail2, st4) ← refused "'shel' fail\n" fail1 r2 m st3
    (r3, st5) ← open_literal sys rodata "" m st4
    (fail3, st6) ← refused "empty string fail\n" fail2 r3 m st5
    (fail, st7) ← verdict "err_open: FAIL\n" "err_open: PASS\n" fail3 m st6
    some (fail, m, st7)

  -- The three loops of err_unopened, each over descriptors from `i` on.
  unfoldable pub close_unopened : ℕ → ℕ → ℕ → Bytes → sys.State → Option (ℕ × sys.State)
  close_unopened zero i fail m st = some (fail, st)
  close_unopened (suc rounds) i fail m st = do
    (r, st1) ← sys.close i st
    (fail', st2) ← refused "close unopened or invalid fd fail\n" fail r m st1
    close_unopened rounds (i + 1) fail' m st2

  unfoldable pub read_unopened : ℕ → ℕ → ℕ → Bytes → sys.State → Option (ℕ × Bytes × sys.State)
  read_unopened zero i fail m st = some (fail, m, st)
  read_unopened (suc rounds) i fail m st = do
    (r, m1, st1) ← sys.read i buf 31 m st
    (fail', st2) ← refused "read from unopened fd fail\n" fail r m1 st1
    read_unopened rounds (i + 1) fail' m1 st2

  unfoldable pub write_unopened : ℕ → ℕ → ℕ → Bytes → sys.State → Option (ℕ × sys.State)
  write_unopened zero i fail m st = some (fail, st)
  write_unopened (suc rounds) i fail m st = do
    (r, st1) ← sys.write i buf 31 m st
    (fail', st2) ← refused "write to unopened fd fail\n" fail r m st1
    write_unopened rounds (i + 1) fail' m st2

  unfoldable pub err_unopened : Bytes → sys.State → Option (ℕ × Bytes × sys.State)
  err_unopened m st = do
    (fail1, st1) ← close_unopened 8 0 0 m st
    (fail2, m1, st2) ← read_unopened 6 2 fail1 m st1
    (fail3, st3) ← write_unopened 6 2 fail2 m1 st2
    (fail, st4) ← verdict "err_unopened: FAIL\n" "err_unopened: PASS\n" fail3 m1 st3
    some (fail, m1, st4)

  unfoldable pub err_vidmap : Bytes → sys.State → Option (ℕ × Bytes × sys.State)
  err_vidmap m st = do
    (r1, m1, st1) ← sys.vidmap 0 m st
    (fail1, st2) ← refused "Null pointer fail\n" 0 r1 m1 st1
    (r2, m2, st3) ← sys.vidmap 0x400000 m1 st2
    (fail2, st4) ← refused "Kernel pointer fail fail\n" fail1 r2 m2 st3
    (fail, st5) ← verdict "err_vidmap: FAIL\n" "err_vidmap: PASS\n" fail2 m2 st4
    some (fail, m2, st5)

  unfoldable pub err_stdin_out : Bytes → sys.State → Option (ℕ × Bytes × sys.State)
  err_stdin_out m st = do
    (w, st1) ← sys.write 0 buf 31 m st
    (fail1, st2) ← refused "write to stdin fail\n" 0 w m st1
    (r, m1, st3) ← sys.read 1 buf 31 m st2
    (fail2, st4) ← refused "read from stdout fail\n" fail1 r m1 st3
    (fail, st5) ← verdict "err_stdin_out: FAIL\n" "err_stdin_out: PASS\n" fail2 m1 st4
    some (fail, m1, st5)

  unfoldable pub err_syscall_num : Bytes → sys.State → Option (ℕ × Bytes × sys.State)
  err_syscall_num m st = do
    (r1, st1) ← sys.call_sys big_fd st
    (fail1, st2) ← refused "syscall 0 fail\n" 0 r1 m st1
    (r2, st3) ← sys.call_sys neg_fd st2
    (fail2, st4) ← refused "big num syscall fail\n" fail1 r2 m st3
    (r3, st5) ← sys.call_sys 0 st4
    (fail3, st6) ← refused "neg num syscall fail\n" fail2 r3 m st5
    (fail, st7) ← verdict "err_syscall_num: FAIL\n" "err_syscall_num: PASS\n" fail3 m st6
    some (fail, m, st7)

  -- Every test in turn, and the sum of their results.
  unfoldable pub all_tests : Bytes → sys.State → Option (ℕ × sys.State)
  all_tests m st = do
    (f1, m1, st1) ← err_neg_fd m st
    (f2, m2, st2) ← err_big_fd m1 st1
    (f3, m3, st3) ← err_open_lots m2 st2
    (f4, m4, st4) ← err_open m3 st3
    (f5, m5, st5) ← err_unopened m4 st4
    (f6, m6, st6) ← err_vidmap m5 st5
    (f7, m7, st7) ← err_stdin_out m6 st6
    (f8, m8, st8) ← err_syscall_num m7 st7
    verdict "\nOverall Tests: FAIL\n" "\nOverall Tests: PASS\n"
        (f1 + f2 + f3 + f4 + f5 + f6 + f7 + f8) m8 st8

  -- A test's return value is the program's.
  abbrev pub only : Option (ℕ × Bytes × sys.State) → Option (ℕ × sys.State)
  only r = do (fail, m, st) ← r; some (fail, st)

  -- `choice` is the address of main's own buffer.
  unfoldable pub syserr : (choice : ℕ) → Bytes → sys.State → Option (ℕ × sys.State)
  syserr choice m st = do
    st1 ← say sys rodata "Choose from tests 1-8. 0 to run all: " m st
    (cnt, m1, st2) ← sys.read 0 choice 127 m st1
    let select = sub32 (m1 choice) b'0'
    let unread = (do st3 ← say sys rodata "Can't read test #\n" m1 st2; some (2, st3))
    let invalid = (do
      st3 ← say sys rodata "Invalid test number. Choose from tests 1-8 or 0" m1 st2
      some (0, st3))
    let t0 = all_tests m1 st2
    let t1 = only (err_neg_fd m1 st2)
    let t2 = only (err_big_fd m1 st2)
    let t3 = only (err_open_lots m1 st2)
    let t4 = only (err_open m1 st2)
    let t5 = only (err_unopened m1 st2)
    let t6 = only (err_vidmap m1 st2)
    let t7 = only (err_stdin_out m1 st2)
    let t8 = only (err_syscall_num m1 st2)
    if cnt == minus_one
        then unread
        else if select == 0
        then t0
        else if select == 1
        then t1
        else if select == 2
        then t2
        else if select == 3
        then t3
        else if select == 4
        then t4
        else if select == 5
        then t5
        else if select == 6
        then t6
        else if select == 7
        then t7
        else if select == 8
        then t8
        else invalid
