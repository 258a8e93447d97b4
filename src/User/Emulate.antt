-- ===== src/User/Emulate.antt =====
-- syscalls/ece391emulate.c: the system calls of the programs over those of Linux, which are a parameter.
-- A pointer 0 is NULL; `here` is where the literal "." stands.
use Prim.Native.String.{String}
use zbiggie.Prelude.{
  ℕ, zero, suc, ◌+◌, ◌-◌, ◌&&◌, ◌||◌, not, Option, none, some, List, [], ◌∷◌, ◌==◌, ltb,
  if◌then◌else◌, modulus, minus_one, sub32, slt, Bytes, update, load32, ◌>>=◌,
}
use zbiggie.Text.{literal}
use zbiggie.User.{ece391_strlen, ece391_strcpy, ece391_strcmp}

-- How a child ended: what the macros of sys/wait.h tell of its status.
pub data Outcome : Type 0 where
  exited : ℕ → Outcome
  signalled : ℕ → Outcome

-- int_80 is the interrupt, by the number and the three registers. readdir gives the address of d_name,
-- in memory that it may have changed; run_child is fork, execv in the child, and wait.
pub record Linux : Type 1 where
  pub State : Type 0
  pub int_80 : (eax ebx ecx edx : ℕ) → Bytes → State → ℕ × Bytes × State
  pub open_path : String → State → ℕ × State
  pub close_path : ℕ → State → State
  pub opendir : String → State → ℕ × State
  pub readdir : ℕ → Bytes → State → ℕ × Bytes × State
  pub closedir : ℕ → State → State
  pub mmap : (mem_fd : ℕ) → State → ℕ × State
  pub run_child : (path : ℕ) (args : List ℕ) → Bytes → State → Outcome × State

-- The static variables, with Linux behind them; mem_fd is that of ece391_vidmap.
pub record Emulator (l : Linux) : Type 0 where
  pub dir_fd : ℕ
  pub dir : ℕ
  pub mem_fd : ℕ
  pub linux : l.State

-- while (nbytes > copied && 32 > copied), with the rounds that are left up to 32.
unfoldable pub fill_name : ℕ → Bytes → ℕ → ℕ → ℕ → ℕ × Bytes
fill_name zero m to nbytes copied = (copied, m)
fill_name (suc left) m to nbytes copied =
    let rest = fill_name left (update m (to + copied) 0) to nbytes (copied + 1) in
    if slt copied nbytes && ltb copied 32 then rest else (copied, m)

-- while ('\0' != *from), and the loop behind it.
unfoldable pub copy_name : ℕ → Bytes → ℕ → ℕ → ℕ → ℕ → ℕ × Bytes
copy_name zero m to from nbytes copied = (copied, m)
copy_name (suc left) m to from nbytes copied =
    let m1 = update m (to + copied) (m (from + copied)) in
    let rest = copy_name left m1 to from nbytes (copied + 1) in
    let fill = fill_name (suc left) m to nbytes copied in
    if m (from + copied) == 0
    then fill
    else if copied + 1 == nbytes
    then (nbytes, m1)
    else if copied + 1 == 32
    then (32, m1)
    else rest

-- for (scan = buf + 2; '\0' != *scan && ' ' != *scan && '\n' != *scan; scan++);
unfoldable pub token_end : ℕ → Bytes → ℕ → Option ℕ
token_end zero m scan = none
token_end (suc fuel) m scan =
    let rest = token_end fuel m (scan + 1) in
    if m scan == 0 || m scan == b' ' || m scan == 10 then some scan else rest

-- while (' ' == *scan) scan++;
unfoldable pub skip_blanks : ℕ → Bytes → ℕ → Option ℕ
skip_blanks zero m scan = none
skip_blanks (suc fuel) m scan =
    let rest = skip_blanks fuel m (scan + 1) in if m scan == b' ' then rest else some scan

-- The rest of the arguments, and the memory with a NUL behind each.
unfoldable pub parse_args : ℕ → Bytes → ℕ → Option (List ℕ × Bytes)
parse_args zero m scan = none
parse_args (suc fuel) m scan = do
  word ← skip_blanks modulus m scan
  end ← token_end modulus m word
  let m1 = if m end == 0 then m else update m end 0
  let rest = parse_args fuel m1 (if m end == 0 then end else end + 1)
  let more = (do (args, m2) ← rest; some (word ∷ args, m2))
  if m word == 0 || m word == 10 then some ([], update m word 0) else more

-- The while loop of ece391_getargs, with the arguments that are left: the status, the memory, and where
-- the terminating NUL goes.
unfoldable pub join_args : List ℕ → Bytes → ℕ → ℕ → Option (ℕ × Bytes)
join_args [] m buf nbytes = some (if slt nbytes 1 then (minus_one, m) else (0, update m buf 0))
join_args (arg ∷ []) m buf nbytes = do
  len ← ece391_strlen m arg
  copied ← ece391_strcpy m buf arg
  let left = sub32 nbytes len
  let ended = if slt left 1 then (minus_one, copied) else (0, update copied (buf + len) 0)
  some (if slt nbytes len then (minus_one, m) else ended)
join_args (arg ∷ next ∷ args) m buf nbytes = do
  len ← ece391_strlen m arg
  copied ← ece391_strcpy m buf arg
  let left = sub32 nbytes len
  let rest = join_args (next ∷ args) (update copied (buf + len) b' ') (buf + len + 1) (sub32 left 1)
  if slt nbytes len
      then some (minus_one, m)
      else if slt left 1
      then some (minus_one, copied)
      else rest

-- argv[idx] for the indices from `idx` on.
unfoldable pub arguments : ℕ → Bytes → ℕ → List ℕ
arguments zero m argv = []
arguments (suc left) m argv = load32 m argv ∷ arguments left m (argv + 4)

-- ece391_getargs; `start_esp` is the stack pointer at the start, where argc stands.
unfoldable pub ece391_getargs : (start_esp : ℕ) → Bytes → ℕ → ℕ → Option (ℕ × Bytes)
ece391_getargs start_esp m buf nbytes =
    let argc = load32 m start_esp in
    let left = if slt 1 argc then argc - 1 else 0 in
    join_args (arguments left m (start_esp + 8)) m buf nbytes

module _ (l : Linux) (here : ℕ) where
  -- A wrapper of DO_CALL: the error numbers of Linux become -1.
  abbrev pub do_call : ℕ → ℕ → ℕ → ℕ → Bytes → Emulator l → ℕ × Bytes × Emulator l
  do_call number ebx ecx edx m e =
      let (value, m', st) = l.int_80 number ebx ecx edx m e.linux in
      (if ltb 0xFFFFC000 value then minus_one else value, m', record e { linux = st })

  -- `buf` is the local buffer of ece391_execute.
  unfoldable pub ece391_execute : (buf : ℕ) → ℕ → Bytes → Emulator l → Option (ℕ × Emulator l)
  ece391_execute buf command m e = do
    len ← ece391_strlen m command
    copied ← ece391_strcpy (update (update m buf b'.') (buf + 1) b'/') (buf + 2) command
    scan ← token_end modulus copied (buf + 2)
    let parsed = parse_args modulus (update copied scan 0) (scan + 1)
    let split = if copied scan == 0 then some ([], copied) else parsed
    let ran = (do
      (args, m') ← split
      let (outcome, st) = l.run_child buf (buf ∷ args) m' e.linux
      let status : ℕ = elim outcome [
        | exited code ↦ code
        | signalled sig ↦ if sig == 9 then minus_one else 256
      ]
      some (status, record e { linux = st }))
    if ltb 1023 len then some (minus_one, e) else ran

  unfoldable pub ece391_open : ℕ → Bytes → Emulator l → Option (ℕ × Bytes × Emulator l)
  ece391_open filename m e = do
    differs ← ece391_strcmp (literal "." here m) filename here
    let (opened, st) = l.opendir "." e.linux
    let (fd, st') = l.open_path "/dev/null" st
    let called = do_call 5 filename 0 0 m e
    if differs == 0
        then some (fd, m, record e { dir = opened; dir_fd = fd; linux = st' })
        else some called

  unfoldable pub ece391_read : ℕ → ℕ → ℕ → Bytes → Emulator l → ℕ × Bytes × Emulator l
  ece391_read fd buf nbytes m e =
      let (from, m1, st) = l.readdir e.dir m e.linux in
      let e1 = record e { linux = st } in
      let (copied, m2) = copy_name 33 m1 buf from nbytes 0 in
      if e.dir == 0 || not (e.dir_fd == fd)
      then do_call 3 fd buf nbytes m e
      else if from == 0
      then (0, m1, e1)
      else (copied, m2, e1)

  unfoldable pub ece391_write : ℕ → ℕ → ℕ → Bytes → Emulator l → ℕ × Bytes × Emulator l
  ece391_write fd buf nbytes m e =
      if e.dir == 0 || not (e.dir_fd == fd) then do_call 4 fd buf nbytes m e else (minus_one, m, e)

  unfoldable pub ece391_close : ℕ → Bytes → Emulator l → ℕ × Bytes × Emulator l
  ece391_close fd m e = if e.dir == 0 || not (e.dir_fd == fd) then do_call 6 fd 0 0 m e else (
    0,
    m,
    record e {
      dir = 0;
      dir_fd = minus_one;
      linux = l.close_path e.dir_fd (l.closedir e.dir e.linux);
    },
  )

  -- The result, the address that goes to *screen_start, and the emulator.
  unfoldable pub ece391_vidmap : Emulator l → ℕ × Option ℕ × Emulator l
  ece391_vidmap e =
      let (fd, st) = l.open_path "/dev/mem" e.linux in
      let e1 = if e.mem_fd == minus_one then record e { mem_fd = fd; linux = st } else e in
      let (image, st') = l.mmap e1.mem_fd e1.linux in
      let e2 = record e1 { linux = st' } in
      if image == minus_one then (minus_one, none, e2) else (0, some (image + 0xb8000), e2)
