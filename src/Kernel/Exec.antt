-- ===== src/Kernel/Exec.antt =====
-- The start of a program: parse_input and load_exec_to_mem of student-distrib/syscall_funcs.c, and
-- the scheduler's step of tasking_funcs.S. The arrays and structs on the loader's stack come as
-- arguments, with what their slots held.
use zbiggie.Prelude.{
  ℕ, zero, suc, ◌+◌, Bool, ◌&&◌, not, Option, none, some, ◌==◌, ltb, if◌then◌else◌, modulus,
  minus_one, Bytes, update, load32, ◌>>=◌,
}
use zbiggie.Text.{strncpy}
use zbiggie.Block.{memcpy}
use zbiggie.Terminal.History.{save_hist}
use zbiggie.Fs.{Dentry, File, ftype_regular, read_dentry_by_name}
use zbiggie.Devices.{Ports, send_eoi}
use zbiggie.Kernel.{
  Kernel, with_console, with_memory, user_memory, get_current_pcb, setup_new_process, save_queue,
  get_next_task_pid, incr_current_active_process, get_current_task_pid, switch_context,
}
use zbiggie.Kernel.Files.{kopen, kread}

-- while(in[in_i] == ' ') in_i++;
unfoldable pub skip_spaces : ℕ → Bytes → ℕ → Option ℕ
skip_spaces zero input i = none
skip_spaces (suc fuel) input i =
    let rest = skip_spaces fuel input (i + 1) in if input i == b' ' then rest else some i

-- in_i < size && in[in_i] != 0 && in[in_i] != '\n'
abbrev pub in_line : Bytes → ℕ → ℕ → Bool
in_line input size i = ltb i size && not (input i == 0) && not (input i == 10)

-- The first word into exec_buf: the positions behind it in the input and in the word.
unfoldable pub take_word : ℕ → Bytes → ℕ → ℕ → Bytes → ℕ → Option (ℕ × ℕ × Bytes)
take_word zero input size i exec out = none
take_word (suc fuel) input size i exec out =
    let rest = take_word fuel input size (i + 1) (update exec out (input i)) (out + 1) in
    if in_line input size i && not (input i == b' ') then rest else some (i, out, exec)

-- The rest of the line into args_buf.
unfoldable pub take_line : ℕ → Bytes → ℕ → ℕ → Bytes → ℕ → Option (ℕ × Bytes)
take_line zero input size i args out = none
take_line (suc fuel) input size i args out =
    let rest = take_line fuel input size (i + 1) (update args out (input i)) (out + 1) in
    if in_line input size i then rest else some (out, args)

-- `input` is the line from its first byte on. The two buffers are the result. The return for a null
-- pointer is left out: execute refuses one in usr_ptr_ok, and kexecute is called with a literal.
unfoldable pub parse_input : Bytes → Bytes → Bytes → ℕ → Option (Bytes × Bytes)
parse_input input exec args size = do
  start ← skip_spaces modulus input 0
  (i, out, word) ← take_word modulus input size start exec 0
  next ← skip_spaces modulus input i
  (end, line) ← take_line modulus input size next (update args 0 0) 0
  some (update word out 0, update line end 0)

-- What the local variables of the loader hold before it sets them.
pub record Locals : Type 0 where
  pub f : File
  pub exec : Bytes
  pub args : Bytes
  pub buf : Bytes
  pub d : Dentry

-- LOAD_ADDR
abbrev pub load_addr : ℕ
load_addr = 134512640

-- The load of kload_exec_to_mem, of the command line `input`; the word is the entry point, -1 or 1.
unfoldable pub kload_exec_to_mem :
    (Ports → ℕ → ℕ) → (Kernel → Kernel) → Locals → Bytes → Kernel → Option (ℕ × Kernel)
unfolding parse_input
kload_exec_to_mem inb interrupts v input k = do
  (exec, args) ← parse_input input v.exec v.args 128
  let d = (read_dentry_by_name k.volume exec 0 v.d).1
  if not (d.ftype == ftype_regular) then some (minus_one, k) else (do
    (ret, f, k1) ← kopen inb v.d v.f exec 0 k
    if not (ret == 0) then some (minus_one, k1) else (do
      (n, f1, buf, k2) ← kread interrupts v.d f v.buf 0 28 k1
      let (status, k3) = setup_new_process k2
      if not (load32 buf 0 == 0x464c457f)
          then some (minus_one, k2)
          else (if not (status == 0) then some (1, k3) else (do
            let m = memcpy (user_memory k3) load_addr buf 0 28
            (n', f2, m', k4) ← kread interrupts v.d f1 m (load_addr + 28) 3899392 k3
            let pcb = get_current_pcb k4
            let loaded = record pcb { cmdstring = strncpy pcb.cmdstring 0 args 0 128 }
            some (
              load32 m' (load_addr + 24),
              record (with_memory m' k4) { pcbs = update k4.pcbs k4.current_process loaded },
            )))))

-- load_exec_to_mem keeps the command line in the history of the terminal first.
unfoldable pub load_exec_to_mem :
    (Ports → ℕ → ℕ) → (Kernel → Kernel) → Locals → ℕ → Kernel → Option (ℕ × Kernel)
unfolding kload_exec_to_mem
load_exec_to_mem inb interrupts v fname k = do
  terminal ← save_hist (user_memory k) fname k.terminal
  kload_exec_to_mem inb interrupts v (λ i. user_memory k (fname + i))
      (record k { terminal = terminal })

-- Where next_task of tasking_funcs.S goes on: in a task that ran before, or in a first shell.
pub data Resume : Type 0 where
  task shell : Resume

-- next_task: acknowledge the timer, queue the process with its stack, take the next turn.
unfoldable pub next_task : (esp : ℕ) → Kernel → Resume × Kernel
next_task esp k =
    let k0 = save_queue (with_console (λ c. record c { ports = send_eoi 0 c.ports }) k) in
    let k1 = record k0 {
      pcbs = update k0.pcbs k0.current_process (record (get_current_pcb k0) { esp = esp });
    } in
    let pid = get_next_task_pid k1 in
    let k2 = incr_current_active_process k1 in
    if pid == 0 then (shell, k2) else (task, switch_context (get_current_task_pid k2) k2)
