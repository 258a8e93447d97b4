-- ===== src/Kernel/Answers.antt =====
-- What the kernel as a system answers to faulty calls of a process with its two standard files.
use zbiggie.Prelude.{ℕ, ◌≤◌, ◌<◌, ◌≡◌, refl, true, Option, none, some, ltb, minus_one, sub32, Bytes}
use zbiggie.Devices.{Ports}
use zbiggie.Kernel.{Kernel, user_memory, with_memory, get_file}
use zbiggie.Kernel.Exec.{Locals}
use zbiggie.Kernel.Syscall.{syscall}
use zbiggie.Kernel.Calls.{kernel_system, resumed}
use zbiggie.Kernel.Serves.{user_memory-with_memory}
use zbiggie.Kernel.Refuses.{
  Newborn, Newborn-Newborn, get_file-rest, syscall_close-refused, syscall_vidmap-refused,
}

module _ (inb : Ports → ℕ → ℕ) (interrupts : Kernel → Kernel) (v : Locals) (esp spare : ℕ)
    (children : Kernel → Option (ℕ × Kernel)) where
  pub close-refused :
      (fd : ℕ) (k : Kernel)
      → Newborn k
      → fd < 4294967296
      → (kernel_system inb interrupts v esp spare children).close fd k
        ≡ some (minus_one, with_memory (user_memory k) k)
  unfolding syscall resumed
  close-refused fd k b lt =
      let k1 = with_memory (user_memory k) k in
      rw (syscall_close-refused fd k1 (Newborn-Newborn k k1 refl b) lt) refl

  pub vidmap-refused :
      (p : ℕ) (m : Bytes) (k : Kernel)
      → p < 134217728
      → (kernel_system inb interrupts v esp spare children).vidmap p m k
        ≡ some (minus_one, m, with_memory m k)
  unfolding syscall resumed
  vidmap-refused p m k lt =
      rw (syscall_vidmap-refused p (with_memory m k) lt, user_memory-with_memory m k) refl

  pub call_sys-refused :
      (num : ℕ) (k : Kernel)
      → ltb 9 (sub32 num 1) ≡ true
      → (kernel_system inb interrupts v esp spare children).call_sys num k
        ≡ some (minus_one, with_memory (user_memory k) k)
  unfolding syscall resumed
  call_sys-refused num k out = rw out refl

  pub shut-rest :
      (fd : ℕ) (k : Kernel)
      → Newborn k
      → 2 ≤ fd
      → fd < 4294967296
      → (page : Bytes) → get_file fd (with_memory page k) ≡ none
  shut-rest fd k b lo hi page =
      get_file-rest fd (with_memory page k) (Newborn-Newborn k (with_memory page k) refl b) lo hi
