-- ===== src/Kernel.antt =====
-- The state that the parts of the kernel share, and student-distrib/tasking.c over it: process control
-- blocks, file descriptors, the run queue and the switch of the memory map. A user address is read in
-- the page of the current process. Interrupts come between the operations, never inside one.
pub mod Files
pub mod Access
pub mod Exec
pub mod Keyboard
pub mod Idt
pub mod Boot
pub mod Descriptors
pub mod Scheduling
pub mod Video
pub mod Gates
pub mod Words
pub mod Syscall
pub mod Calls
pub mod Segments
pub mod Entry
pub mod Serves
pub mod Shows
pub mod Opens
pub mod Prints
pub mod Refuses
pub mod Standard
pub mod Answers
pub mod Passes
pub mod Misnamed
pub mod Halts
pub mod Turns
pub mod Sound
pub mod Keeps
pub mod Between
pub mod Enters
pub mod Loads
pub mod Invariant
pub mod Presses
pub mod Steps
pub mod Pieces
pub mod Image
pub mod Rejects
pub mod Birth
mod Tests
mod Trials
mod Runs
mod Walks
mod Executable
use Prim.Native.Char.{code}
use Prim.Native.String.{String}
use zbiggie.Prelude.{
  ℕ, zero, suc, ◌+◌, ◌-◌, ◌*◌, ◌%◌, Bool, ◌||◌, List, [], ◌∷◌, Option, none, some, ◌==◌, leb, ltb,
  if◌then◌else◌, minus_one, slt, sle, sub32, Bytes, update, for_range,
}
use zbiggie.Console.{Console, video_mem}
use zbiggie.Console.Print.{putc}
use zbiggie.Terminal.{Terminal}
use zbiggie.Fs.{Volume, File, Optable, unset}
use zbiggie.Paging.{Tables, video_entry, offset_video, set_vmem_table, init_pd, set_cr3}

-- pcb_t
pub record Pcb : Type 0 where
  pub esp : ℕ
  pub parent : ℕ
  pub cmdstring : Bytes
  pub f : ℕ → File
  pub present : ℕ

-- `pages` holds the program page of each process, `esp0` the field of the task state segment.
pub record Kernel : Type 0 where
  pub terminal : Terminal
  pub open terminal use *
  pub tables : Tables
  pub volume : Volume
  pub pages : ℕ → Bytes
  pub pcbs : ℕ → Pcb
  pub processes : ℕ → ℕ
  pub current_process : ℕ
  pub esp0 : ℕ
  pub rtc_f : ℕ

abbrev pub with_terminal : (Terminal → Terminal) → Kernel → Kernel
with_terminal g k = record k { terminal = g k.terminal }

abbrev pub with_console : (Console → Console) → Kernel → Kernel
with_console g k = with_terminal (λ s. record s { console = g s.console }) k

-- The user memory that the current process sees, and a write of it.
abbrev pub user_memory : Kernel → Bytes
user_memory k = k.pages k.current_process

abbrev pub with_memory : Bytes → Kernel → Kernel
with_memory m k = record k { pages = update k.pages k.current_process m }

-- printf of a constant format with no '%'.
abbrev say : String → Console → Console
say String.[] c = c
say (String.◌∷◌ a s) c = say s (putc (code a) c)

unfoldable pub fresh_file : File
fresh_file = record { optable = unset; inode = 0; pos = 0; flags = 0 }

-- FILE_FLAG_IN_USE, bit 0.
abbrev pub in_use : File → Bool
in_use f = f.flags % 2 == 1

-- f.flags |= FILE_FLAG_IN_USE, and f.flags &= ~FILE_FLAG_IN_USE.
abbrev pub mark : File → File
mark f = record f { flags = f.flags - f.flags % 2 + 1 }

abbrev pub unmark : File → File
unmark f = record f { flags = f.flags - f.flags % 2 }

-- while (get_pcb(i)->present && i <= MAX_PID) i++; with the rounds that are left.
unfoldable pub scan_pcbs : ℕ → (ℕ → Pcb) → ℕ → ℕ
scan_pcbs zero pcbs i = i
scan_pcbs (suc rounds) pcbs i =
    let rest = scan_pcbs rounds pcbs (i + 1) in if (pcbs i).present == 0 then i else rest

unfoldable pub find_free_pcb : Kernel → ℕ × Kernel
unfolding scan_pcbs
find_free_pcb k =
    let i = scan_pcbs 10 k.pcbs 1 in
    if ltb 10 i then (minus_one, with_console (say "E: process limit reached\n") k) else (i, k)

unfoldable pub init_pcbs : Kernel → Kernel
init_pcbs k = record k {
  pcbs = for_range 11 0 (λ i pcbs. update pcbs i (record (pcbs i) { present = 0 })) k.pcbs;
}

abbrev pub get_current_pcb : Kernel → Pcb
get_current_pcb k = k.pcbs k.current_process

-- A change of the current process's files.
abbrev pub with_file : ℕ → File → Kernel → Kernel
with_file fd f k = record k {
  pcbs =
      update k.pcbs k.current_process
        (record (get_current_pcb k) { f = update (get_current_pcb k).f fd f });
}

-- A stack pointer into the block of process `pid`.
abbrev pub update_pcb_esp : ℕ → ℕ → Kernel → Kernel
update_pcb_esp pid esp k = record k { pcbs = update k.pcbs pid (record (k.pcbs pid) { esp = esp }) }

-- `none` is the pointer -1.
unfoldable pub get_file : ℕ → Kernel → Option File
get_file fd k =
    let f = (get_current_pcb k).f fd in
    if sle 8 fd || slt fd 0 then none else if in_use f then some f else none

unfoldable pub scan_files : ℕ → (ℕ → File) → ℕ → ℕ
scan_files zero f i = minus_one
scan_files (suc rounds) f i =
    let rest = scan_files rounds f (i + 1) in if in_use (f i) then rest else i

unfoldable pub get_new_fd : Kernel → ℕ × Kernel
unfolding scan_files
get_new_fd k =
    let fd = scan_files 8 (get_current_pcb k).f 0 in
    if fd == minus_one
    then (minus_one, k)
    else (fd, with_file fd (mark ((get_current_pcb k).f fd)) k)

unfoldable pub free_fd : ℕ → Kernel → ℕ × Kernel
free_fd fd k =
    let f = (get_current_pcb k).f fd in
    if sle 8 fd || slt fd 2
    then (minus_one, k)
    else if in_use f
    then (0, with_file fd (unmark f) k)
    else (minus_one, k)

unfoldable pub get_next_task_pid : Kernel → ℕ
get_next_task_pid k = k.processes ((k.current_active_process + 1) % 3)

unfoldable pub get_current_task_pid : Kernel → ℕ
get_current_task_pid k = k.processes k.current_active_process

unfoldable pub save_queue : Kernel → Kernel
save_queue k = record k {
  processes = update k.processes k.current_active_process k.current_process;
}

unfoldable pub incr_current_active_process : Kernel → Kernel
incr_current_active_process k =
    with_console (λ c. record c { current_active_process = (c.current_active_process + 1) % 3 }) k

-- The window's page for the frame of an entry: the fourth is the video memory itself.
abbrev pub window_page : ℕ → ℕ
window_page entry =
    let frame = entry - entry % 4096 in if frame == offset_video then video_mem else frame

-- set_vmem_table, and with it where the console finds the page at VIDEO.
unfoldable pub remap_video : ℕ → Kernel → Kernel
remap_video term k =
    let tables = set_vmem_table k.current_terminal term k.tables in
    with_console (λ c. record c { mapped = window_page (tables.low_memory_table video_entry) })
      (record k { tables = tables })

unfoldable pub switch_context : ℕ → Kernel → Kernel
unfolding remap_video
switch_context pid k =
    let mapped = remap_video k.current_active_process (record k { current_process = pid }) in
    record mapped { tables = set_cr3 pid mapped.tables; esp0 = sub32 8388608 (pid * 8192) }

-- The next free descriptor, open on a terminal: stdin_open and stdout_open of what get_new_fd gives.
unfoldable pub open_standard : Optable → Kernel → Kernel
open_standard table k =
    let (fd, k') = get_new_fd k in
    with_file fd (record ((get_current_pcb k').f fd) { optable = table }) k'

-- A fresh block and page directory for the process, which then runs.
unfoldable pub start_process : ℕ → Kernel → Kernel
unfolding fresh_file
start_process pid k =
    let pcb : Pcb = record {
      esp = 0;
      parent = k.current_process;
      cmdstring = λ i. 0;
      f = λ i. fresh_file;
      present = 1;
    } in
    switch_context pid (record k { pcbs = update k.pcbs pid pcb; tables = init_pd pid k.tables })

-- A process with a free block, and its standard files.
unfoldable pub setup_new_process : Kernel → ℕ × Kernel
setup_new_process k =
    let (pid, k0) = find_free_pcb k in
    let started =
      open_standard Optable.ops_stdout (open_standard Optable.ops_stdin (start_process pid k0)) in
    if pid == minus_one then (minus_one, k0) else (0, started)
