-- ===== src/User/Grep.antt =====
-- syscalls/ece391grep.c. `area` is the address of the array `data` of do_one_file, which has 1025
-- bytes; an index into it is a native number. Loops that the input ends run on fuel.
use zbiggie.Prelude.{
  ℕ, zero, suc, ◌+◌, ◌-◌, Bool, true, false, ◌&&◌, not, Option, none, some, ◌==◌, leb,
  if◌then◌else◌, minus_one, Bytes, update, ◌>>=◌,
}
use zbiggie.User.{ece391_strlen, ece391_strcpy, ece391_strncmp}
use zbiggie.User.System.{System, ece391_fdputs, say, open_literal, fail_with}

-- while (line_end < last && '\n' != data[line_end]) line_end++; with the bytes up to `last` left.
unfoldable pub find_end : ℕ → Bytes → ℕ → ℕ → ℕ
find_end zero m area line_end = line_end
find_end (suc left) m area line_end =
    let rest = find_end left m area (line_end + 1) in
    if m (area + line_end) == 10 then line_end else rest

-- Whether some place of the line matches; `left` places are.
unfoldable pub has_match : ℕ → Bytes → ℕ → ℕ → ℕ → ℕ → Bool
has_match zero m area s s_len check = false
has_match (suc left) m area s s_len check =
    let rest = has_match left m area s s_len (check + 1) in
    if m s == m (area + check) && (ece391_strncmp m (area + check) s s_len == 0) then true else rest

module _ (sys : System) (rodata : ℕ) (area : ℕ) where
  -- fname, ":", the line and "\n".
  abbrev pub print_match : ℕ → ℕ → Bytes → sys.State → Option sys.State
  print_match fname line_start m st = do
    st1 ← ece391_fdputs sys rodata 1 fname m st
    st2 ← say sys rodata ":" m st1
    st3 ← ece391_fdputs sys rodata 1 (area + line_start) m st2
    say sys rodata "\n" m st3

  -- The inner loop: `last`, the memory and the system behind it.
  unfoldable pub each_line :
      ℕ → ℕ → ℕ → ℕ → ℕ → ℕ → ℕ → Bytes → sys.State → Option (ℕ × Bytes × sys.State)
  each_line zero s s_len fname cnt line_start last m st = none
  each_line (suc fuel) s s_len fname cnt line_start last m st =
      let line_end = find_end (last - line_start) m area line_start in
      let ended = update m (area + line_end) 0 in
      let moved = (do
        m' ← ece391_strcpy ended area (area + line_start)
        some (last - line_start, m', st)) in
      let found = has_match (line_end - line_start) ended area s s_len line_start in
      let next = (do
        st' ← if found then print_match fname line_start ended st else some st
        let rest = each_line fuel s s_len fname cnt (line_end + 1) last ended st'
        if leb last (line_end + 1) then some (0, ended, st') else rest) in
      if not (m (area + line_end) == 10) && (not (cnt == 0) && not (line_start == 0))
      then moved
      else next

  -- The outer loop, up to the end of the file or a failure: the status, the memory and the system.
  unfoldable pub file_loop :
      ℕ → ℕ → ℕ → ℕ → ℕ → ℕ → Bytes → sys.State → Option (ℕ × Bytes × sys.State)
  file_loop zero s s_len fname fd last m st = none
  file_loop (suc fuel) s s_len fname fd last m st = do
    (cnt, m1, st1) ← sys.read fd (area + last) (1024 - last) m st
    let failed = (do st2 ← say sys rodata "file read failed\n" m1 st1; some (minus_one, m1, st2))
    let lines = (do
      (last', m2, st2) ← each_line 1026 s s_len fname cnt 0 (last + cnt) m1 st1
      let rest = file_loop fuel s s_len fname fd last' m2 st2
      if cnt == 0 then some (0, m2, st2) else rest)
    if cnt == minus_one then failed else lines

  unfoldable pub do_one_file : ℕ → ℕ → ℕ → Bytes → sys.State → Option (ℕ × Bytes × sys.State)
  do_one_file fuel s fname m st = do
    s_len ← ece391_strlen m s
    (fd, st1) ← sys.open_file fname m st
    if fd == minus_one
        then (do st2 ← say sys rodata "file open failed\n" m st1; some (minus_one, m, st2))
        else (do
          (status, m1, st2) ← file_loop fuel s s_len fname fd 0 m st1
          if not (status == 0) then some (minus_one, m1, st2) else (do
            (closed, st3) ← sys.close fd st2
            if closed == minus_one
                then (do
                  st4 ← say sys rodata "file close failed\n" m1 st3
                  some (minus_one, m1, st4))
                else some (0, m1, st3)))

  -- One search for each entry of the directory whose name does not begin with '.'.
  unfoldable pub grep_loop : ℕ → ℕ → ℕ → ℕ → ℕ → Bytes → sys.State → Option (ℕ × sys.State)
  grep_loop zero lines search buf fd m st = none
  grep_loop (suc fuel) lines search buf fd m st = do
    (cnt, m1, st1) ← sys.read fd buf 32 m st
    let failed = fail_with sys rodata "directory entry read failed\n" 3 m1 st1
    let skipped = grep_loop fuel lines search buf fd m1 st1
    let searched = (do
      (status, m2, st2) ← do_one_file lines search buf (update m1 (buf + cnt) 0) st1
      let rest = grep_loop fuel lines search buf fd m2 st2
      if not (status == 0) then some (3, st2) else rest)
    if cnt == 0
        then some (0, st1)
        else if cnt == minus_one
        then failed
        else if m1 buf == b'.'
        then skipped
        else searched

  unfoldable pub grep : ℕ → ℕ → ℕ → ℕ → Bytes → sys.State → Option (ℕ × sys.State)
  grep fuel lines search buf m st = do
    (status, m1, st1) ← sys.getargs search 1024 m st
    if not (status == 0) then fail_with sys rodata "could not read argument\n" 3 m1 st1 else (do
      (fd, st2) ← open_literal sys rodata "." m1 st1
      if fd == minus_one
          then fail_with sys rodata "directory open failed\n" 2 m1 st2
          else grep_loop fuel lines search buf fd m1 st2)
