-- ===== src/Kernel/Steps.antt =====
-- The kernel as a whole: every way it goes from one state to the next, in any order, and what holds in
-- every state that it comes to.
use zbiggie.Prelude.{ℕ, ◌≡◌, arith, Bool, true, false, if◌then◌else◌, some, Bytes, update}
use zbiggie.Devices.{Ports, send_eoi}
use zbiggie.Kernel.{
  Kernel, get_current_pcb, with_console, with_memory, save_queue, get_current_task_pid,
  incr_current_active_process, switch_context,
}
use zbiggie.Kernel.Exec.{Locals, Resume, task, shell, next_task}
use zbiggie.Kernel.Keyboard.{Keys, key_handler, rtc_handler}
use zbiggie.Text.{literal}
use zbiggie.Kernel.Syscall.{Control, program, kexecute, syscall}
use zbiggie.Kernel.Sound.{Ready, Sound}
use zbiggie.Kernel.Enters.{switch_context-Sound}

-- The first part of next_task, up to the choice.
abbrev turned : ℕ → Kernel → Kernel
turned esp k =
    let k0 = save_queue (with_console (λ c. record c { ports = send_eoi 0 c.ports }) k) in
    incr_current_active_process (record k0 {
      pcbs = update k0.pcbs k0.current_process (record (get_current_pcb k0) { esp = esp });
    })

turned-Ready : (esp : ℕ) (k : Kernel) → Ready k → Ready (turned esp k)
unfolding save_queue incr_current_active_process
turned-Ready esp k r =
    let process = r.process in
    record {
      turn = omega arith;
      shown = r.shown;
      process = r.process;
      directory = r.directory;
      stack = r.stack;
      queue = λ j. (let q = r.queue j in ground arith);
      family = λ p. (let f = r.family p in ground arith);
      frames = λ p. (let f = r.frames p in ground (arith, f));
    }

-- Behind a tick of the timer: a task goes on in a sound kernel, a first shell is yet to be started.
abbrev Ticked : Resume × Kernel → Type 0
Ticked (task, k) = Sound k
Ticked (shell, k) = Ready k

Ticked-either :
    (b : Bool) (r r' : Resume × Kernel) → Ticked r → Ticked r' → Ticked (if b then r else r')
Ticked-either true r r' h h' = h
Ticked-either false r r' h h' = h'

pub next_task-Ticked : (esp : ℕ) (k : Kernel) → Ready k → Ticked (next_task esp k)
unfolding next_task get_current_task_pid
next_task-Ticked esp k r =
    let k2 = turned esp k in
    let r2 = turned-Ready esp k r in
    Ticked-either _ (shell, k2) (task, switch_context (get_current_task_pid k2) k2) r2
      (switch_context-Sound (get_current_task_pid k2) k2 (r2.queue k2.current_active_process) r2)

module _ (inb : Ports → ℕ → ℕ) (interrupts : Kernel → Kernel) (v : Locals) where
  -- A step of the machine: a key, the real-time clock, the timer with a task that goes on or a first
  -- shell that starts, a system call of the process that runs, and a write to that process's memory.
  pub data Step (s s' : Keys) : Type 0 where
    key : (code : ℕ) → key_handler code s ≡ some s' → Step s s'
    clock : s' ≡ record s { kernel = rtc_handler inb s.kernel } → Step s s'
    turn :
        (esp : ℕ) (k : Kernel)
        → next_task esp s.kernel ≡ (task, k)
        → s' ≡ record s { kernel = k }
        → Step s s'
    first_shell :
        (esp esp' entry : ℕ) (k k' : Kernel)
        → next_task esp s.kernel ≡ (shell, k)
        → kexecute inb interrupts v esp' (literal "shell" 0 (λ i. 0)) k ≡ some (program entry, k')
        → s' ≡ record s { kernel = k' }
        → Step s s'
    call :
        (esp eax ebx ecx edx : ℕ) (control : Control) (k : Kernel)
        → syscall inb interrupts v esp eax ebx ecx edx s.kernel ≡ some (control, k)
        → s' ≡ record s { kernel = k }
        → Step s s'
    store : (m : Bytes) → s' ≡ record s { kernel = with_memory m s.kernel } → Step s s'

  pub data Reach (s : Keys) : Keys → Type 0 where
    here : Reach s s
    next : {t u : Keys} → Reach s t → Step t u → Reach s u
