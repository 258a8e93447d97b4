-- ===== src/Kernel/Syscall.antt =====
-- student-distrib/syscall.S: the dispatch of a system call by its number, halt and execute. Registers
-- are arguments; `esp` is the stack pointer of the process that calls.
use zbiggie.Prelude.{
  ℕ, ◌||◌, Option, some, ◌==◌, ltb, if◌then◌else◌, minus_one, sub32, Bytes, ◌>>=◌,
}
use zbiggie.Text.{strlen, literal}
use zbiggie.Devices.{Ports}
use zbiggie.Kernel.{Kernel, get_current_pcb, user_memory, switch_context, update_pcb_esp}
use zbiggie.Kernel.Files.{
  usr_ptr_ok, free_current_pcb, syscall_open, syscall_close, syscall_getargs, syscall_vidmap,
  syscall_read, syscall_write,
}
use zbiggie.Kernel.Exec.{Locals, load_exec_to_mem, kload_exec_to_mem}

-- Where the processor goes on: behind a system call of the process that now runs, with its result, or
-- at the entry point of a program.
pub data Control : Type 0 where
  back : ℕ → Control
  program : ℕ → Control

module _ (inb : Ports → ℕ → ℕ) (interrupts : Kernel → Kernel) (v : Locals) where
  -- The end of execute and kexecute: the loader's -1 and 1 fail, anything else is an entry point, and
  -- the stack pointer goes into the block of the process that called.
  unfoldable pub enter_program : ℕ → ℕ → ℕ × Kernel → Control × Kernel
  enter_program esp caller (entry, k) =
      if entry == minus_one || entry == 1
      then (back minus_one, k)
      else (program entry, update_pcb_esp caller esp k)

  unfoldable pub execute : ℕ → ℕ → Kernel → Option (Control × Kernel)
  execute esp command k = do
    len ← strlen (user_memory k) command
    if usr_ptr_ok command len
        then (do
          loaded ← load_exec_to_mem inb interrupts v command k
          some (enter_program esp k.current_process loaded))
        else some (back minus_one, k)

  unfoldable pub kexecute : ℕ → Bytes → Kernel → Option (Control × Kernel)
  kexecute esp command k = do
    loaded ← kload_exec_to_mem inb interrupts v command k
    some (enter_program esp k.current_process loaded)

  -- A process numbered below 4 is replaced by a new shell; another one's parent gets the status.
  unfoldable pub halt : ℕ → ℕ → Kernel → Option (Control × Kernel)
  halt esp status k =
      let freed = free_current_pcb k in
      let shell = kexecute esp (literal "shell" 0 (λ i. 0)) freed in
      if ltb freed.current_process 4
      then shell
      else some (back status, switch_context (get_current_pcb freed).parent freed)

  -- A call that comes back to its caller.
  abbrev returned : Option (ℕ × Kernel) → Option (Control × Kernel)
  returned r = do (value, k) ← r; some (back value, k)

  -- The jump table. set_handler and sigreturn are stubs, which leave the index in eax.
  unfoldable pub syscall : ℕ → ℕ → ℕ → ℕ → ℕ → Kernel → Option (Control × Kernel)
  syscall esp eax ebx ecx edx k =
      let index = sub32 eax 1 in
      let halted = halt esp ebx k in
      let executed = execute esp ebx k in
      if ltb 9 index
      then some (back minus_one, k)
      else if index == 0
      then halted
      else if index == 1
      then executed
      else if index == 2
      then returned (syscall_read interrupts v.d ebx ecx edx k)
      else if index == 3
      then returned (syscall_write inb ebx ecx edx k)
      else if index == 4
      then returned (syscall_open inb v.d ebx k)
      else if index == 5
      then returned (some (syscall_close ebx k))
      else if index == 6
      then returned (some (syscall_getargs ebx ecx k))
      else if index == 7
      then returned (some (syscall_vidmap ebx k))
      else some (back index, k)
