-- ===== src/User/System.antt =====
-- The system calls as the programs see them, syscalls/ece391syscall.h: an interface over an unknown
-- state of the system. The program's own memory is apart from that state; a call that fills a buffer
-- returns the new memory. `none` is a call that does not come back.
use Prim.Native.String.{String}
use zbiggie.Prelude.{ℕ, Option, some, Bytes, ◌>>=◌}
use zbiggie.Text.{literal}
use zbiggie.User.{ece391_strlen}

-- read, write and getargs take the buffer's address and its size; open_file is ece391_open, and
-- call_sys a call by a bare number.
pub record System : Type 1 where
  pub State : Type 0
  pub read : (fd buf nbytes : ℕ) → Bytes → State → Option (ℕ × Bytes × State)
  pub write : (fd buf nbytes : ℕ) → Bytes → State → Option (ℕ × State)
  pub open_file : (filename : ℕ) → Bytes → State → Option (ℕ × State)
  pub close : (fd : ℕ) → State → Option (ℕ × State)
  pub getargs : (buf nbytes : ℕ) → Bytes → State → Option (ℕ × Bytes × State)
  pub execute : (command : ℕ) → Bytes → State → Option (ℕ × Bytes × State)
  pub vidmap : (screen_start : ℕ) → Bytes → State → Option (ℕ × Bytes × State)
  pub call_sys : (num : ℕ) → State → Option (ℕ × State)

-- `rodata` is where the literals of a program stand, each for the call that names it.
module _ (sys : System) (rodata : ℕ) where
  -- The result of the write is dropped.
  unfoldable pub ece391_fdputs : ℕ → ℕ → Bytes → sys.State → Option sys.State
  ece391_fdputs fd s m st = do len ← ece391_strlen m s; (n, st') ← sys.write fd s len m st; some st'

  -- ece391_fdputs(1, "...")
  abbrev pub say : String → Bytes → sys.State → Option sys.State
  say text m st = ece391_fdputs 1 rodata (literal text rodata m) st

  -- ece391_open("...")
  abbrev pub open_literal : String → Bytes → sys.State → Option (ℕ × sys.State)
  open_literal name m st = sys.open_file rodata (literal name rodata m) st

  -- A message, and then the program's exit code.
  abbrev pub fail_with : String → ℕ → Bytes → sys.State → Option (ℕ × sys.State)
  fail_with text rval m st = do st' ← say text m st; some (rval, st')
