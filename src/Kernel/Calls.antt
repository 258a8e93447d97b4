-- ===== src/Kernel/Calls.antt =====
-- The kernel as the system that the programs call: each operation of the interface is a system call of
-- the process that runs, whose page holds the program's memory.
use zbiggie.Prelude.{ℕ, Option, none, some, Bytes, ◌>>=◌}
use zbiggie.Devices.{Ports}
use zbiggie.Kernel.{Kernel, with_memory, user_memory}
use zbiggie.Kernel.Exec.{Locals}
use zbiggie.Kernel.Syscall.{Control, back, program, syscall}
use zbiggie.User.System.{System}

-- `children` is what runs between an execute and the halt that comes back from it, and `spare` what the
-- registers hold that a call does not set.
module _ (inb : Ports → ℕ → ℕ) (interrupts : Kernel → Kernel) (v : Locals) (esp spare : ℕ)
    (children : Kernel → Option (ℕ × Kernel)) where
  -- The result for the process that called.
  unfoldable pub resumed : Option (Control × Kernel) → Option (ℕ × Kernel)
  resumed none = none
  resumed (some (back value, k)) = some (value, k)
  resumed (some (program entry, k)) = children k

  -- A call with the program's memory in its page.
  abbrev pub call : ℕ → ℕ → ℕ → ℕ → Bytes → Kernel → Option (ℕ × Kernel)
  call number ebx ecx edx m k =
      resumed (syscall inb interrupts v esp number ebx ecx edx (with_memory m k))

  -- The same, of a call that may fill memory.
  abbrev pub filling : ℕ → ℕ → ℕ → ℕ → Bytes → Kernel → Option (ℕ × Bytes × Kernel)
  filling number ebx ecx edx m k = do
    (value, k') ← call number ebx ecx edx m k
    some (value, user_memory k', k')

  abbrev pub kernel_system : System
  kernel_system = record {
    State = Kernel;
    read = λ fd buf nbytes m k. filling 3 fd buf nbytes m k;
    write = λ fd buf nbytes m k. call 4 fd buf nbytes m k;
    open_file = λ filename m k. call 5 filename spare spare m k;
    close = λ fd k. call 6 fd spare spare (user_memory k) k;
    getargs = λ buf nbytes m k. filling 7 buf nbytes spare m k;
    execute = λ command m k. filling 2 command spare spare m k;
    vidmap = λ screen_start m k. filling 8 screen_start spare spare m k;
    call_sys = λ num k. call num spare spare spare (user_memory k) k;
  }
