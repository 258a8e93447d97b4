-- ===== src/Kernel/Passes.antt =====
-- The tests of syscalls/ece391syserr.c on the kernel, in a process with no descriptors but its own two.
use Prim.Native.String.{String}
use zbiggie.Prelude.{ℕ, zero, suc, ◌+◌, ◌≤◌, ◌<◌, ◌≡◌, refl, arith, true, Option, some, Bytes}
use zbiggie.Devices.{Ports}
use zbiggie.Kernel.{Kernel, user_memory, with_memory}
use zbiggie.Kernel.Exec.{Locals}
use zbiggie.Kernel.Syscall.{syscall}
use zbiggie.Kernel.Calls.{kernel_system, resumed}
use zbiggie.Kernel.Serves.{user_memory-with_memory}
use zbiggie.Kernel.Refuses.{Newborn, fits, Newborn-Newborn, say-kernel, read-refused, write-refused}
use zbiggie.Kernel.Standard.{syscall_write-input, syscall_read-output}
use zbiggie.Kernel.Answers.{close-refused, vidmap-refused, call_sys-refused, shut-rest}
use zbiggie.User.Syserr.{
  neg_fd, big_fd, err_neg_fd, err_big_fd, err_unopened, err_vidmap, err_stdin_out, err_syscall_num,
  bad_fd, close_unopened, read_unopened, write_unopened,
}

-- The test ends with 0, in a process with its two standard descriptors and no other.
abbrev pub Ends : (Bytes → Kernel → Option (ℕ × Bytes × Kernel)) → Bytes → Kernel → Type 0
Ends test m k = (m' : Bytes) × (k' : Kernel) × (test m k ≡ some (0, m', k')) × Newborn k'

-- A test that ends so in every such process.
abbrev Passes : (Bytes → Kernel → Option (ℕ × Bytes × Kernel)) → Type 0
Passes test = (m : Bytes) (k : Kernel) → Newborn k → Ends test m k

module _ (inb : Ports → ℕ → ℕ) (interrupts : Kernel → Kernel) (v : Locals) (esp spare : ℕ)
    (children : Kernel → Option (ℕ × Kernel)) where
  module _ (rodata buf : ℕ) (lo : 134217728 ≤ rodata) (hi : rodata + 64 ≤ 138412032) where
    err_vidmap-Passes :
        Passes (err_vidmap (kernel_system inb interrupts v esp spare children) rodata buf)
    unfolding err_vidmap
    err_vidmap-Passes m k b =
        let k1 = with_memory m k in
        let k2 = with_memory m k1 in
        let (k3, said, b3) =
          say-kernel inb interrupts v esp spare children "err_vidmap: PASS\n" rodata m k2 refl lo hi
            (Newborn-Newborn k k2 refl b) in
        (
          m,
          k3,
          rw
              (
                vidmap-refused inb interrupts v esp spare children 0 m k (omega arith),
                vidmap-refused inb interrupts v esp spare children 0x400000 m k1 (omega arith),
                said,
              )
              refl,
          b3,
        )

    err_syscall_num-Passes :
        Passes (err_syscall_num (kernel_system inb interrupts v esp spare children) rodata buf)
    unfolding err_syscall_num
    err_syscall_num-Passes m k b =
        let k1 = with_memory (user_memory k) k in
        let k2 = with_memory (user_memory k1) k1 in
        let k3 = with_memory (user_memory k2) k2 in
        let (k4, said, b4) =
          say-kernel inb interrupts v esp spare children "err_syscall_num: PASS\n" rodata m k3 refl
            lo hi (Newborn-Newborn k k3 refl b) in
        (
          m,
          k4,
          rw
              (
                call_sys-refused inb interrupts v esp spare children big_fd k refl,
                call_sys-refused inb interrupts v esp spare children neg_fd k1 refl,
                call_sys-refused inb interrupts v esp spare children 0 k2 refl,
                said,
              )
              refl,
          b4,
        )

    -- The tests that use a descriptor of no file.
    bad_fd-Passes :
        (fd : ℕ) (failed passed : String)
        → 2 ≤ fd
        → fd < 4294967296
        → fits 64 passed ≡ true
        → Passes
            (bad_fd (kernel_system inb interrupts v esp spare children) rodata buf fd failed passed)
    bad_fd-Passes fd failed passed low high fit m k b =
        let k1 = with_memory m k in
        let k2 = with_memory m k1 in
        let k3 = with_memory (user_memory k2) k2 in
        let (k4, said, b4) =
          say-kernel inb interrupts v esp spare children passed rodata m k3 fit lo hi
            (Newborn-Newborn k k3 refl b) in
        (
          m,
          k4,
          rw
              (
                read-refused inb interrupts v esp spare children fd buf 31 m k
                    (shut-rest inb interrupts v esp spare children fd k b low high),
                write-refused inb interrupts v esp spare children fd buf 31 m k1 (
                    shut-rest inb interrupts v esp spare children fd k1
                      (Newborn-Newborn k k1 refl b) low high),
                close-refused inb interrupts v esp spare children fd k2
                    (Newborn-Newborn k k2 refl b) high,
                said,
              )
              refl,
          b4,
        )

    close_unopened-passes :
        (rounds i fail : ℕ) (m : Bytes) (k : Kernel)
        → i + rounds ≤ 8
        → Newborn k
        → (k' : Kernel) × (close_unopened
              (kernel_system inb interrupts v esp spare children)
              rodata
              buf
              rounds
              i
              fail
              m
              k
            ≡ some (fail, k'))
          × Newborn k'
    unfolding close_unopened
    close_unopened-passes zero i fail m k le b = (k, refl, b)
    close_unopened-passes (suc rounds) i fail m k le b =
        let k1 = with_memory (user_memory k) k in
        let (k2, run, b2) =
          close_unopened-passes rounds (i + 1) fail m k1 (omega arith)
            (Newborn-Newborn k k1 refl b) in
        (k2, rw (close-refused inb interrupts v esp spare children i k b (omega arith)) run, b2)

    read_unopened-passes :
        (rounds i fail : ℕ) (m : Bytes) (k : Kernel)
        → 2 ≤ i
        → i + rounds ≤ 8
        → Newborn k
        → (k' : Kernel) × (read_unopened
              (kernel_system inb interrupts v esp spare children)
              rodata
              buf
              rounds
              i
              fail
              m
              k
            ≡ some (fail, m, k'))
          × Newborn k'
    unfolding read_unopened
    read_unopened-passes zero i fail m k low le b = (k, refl, b)
    read_unopened-passes (suc rounds) i fail m k low le b =
        let k1 = with_memory m k in
        let (k2, run, b2) =
          read_unopened-passes rounds (i + 1) fail m k1 (omega arith) (omega arith)
            (Newborn-Newborn k k1 refl b) in
        let shut = shut-rest inb interrupts v esp spare children i k b low (omega arith) in
        (k2, rw (read-refused inb interrupts v esp spare children i buf 31 m k shut) run, b2)

    write_unopened-passes :
        (rounds i fail : ℕ) (m : Bytes) (k : Kernel)
        → 2 ≤ i
        → i + rounds ≤ 8
        → Newborn k
        → (k' : Kernel) × (write_unopened
              (kernel_system inb interrupts v esp spare children)
              rodata
              buf
              rounds
              i
              fail
              m
              k
            ≡ some (fail, k'))
          × Newborn k'
    unfolding write_unopened
    write_unopened-passes zero i fail m k low le b = (k, refl, b)
    write_unopened-passes (suc rounds) i fail m k low le b =
        let k1 = with_memory m k in
        let (k2, run, b2) =
          write_unopened-passes rounds (i + 1) fail m k1 (omega arith) (omega arith)
            (Newborn-Newborn k k1 refl b) in
        let shut = shut-rest inb interrupts v esp spare children i k b low (omega arith) in
        (k2, rw (write-refused inb interrupts v esp spare children i buf 31 m k shut) run, b2)

    err_unopened-Passes :
        Passes (err_unopened (kernel_system inb interrupts v esp spare children) rodata buf)
    unfolding err_unopened
    err_unopened-Passes m k b =
        let (k1, run1, b1) = close_unopened-passes 8 0 0 m k (omega arith) b in
        let (k2, run2, b2) = read_unopened-passes 6 2 0 m k1 (omega arith) (omega arith) b1 in
        let (k3, run3, b3) = write_unopened-passes 6 2 0 m k2 (omega arith) (omega arith) b2 in
        let (k4, said, b4) =
          say-kernel inb interrupts v esp spare children "err_unopened: PASS\n" rodata m k3 refl lo
            hi b3 in
        (m, k4, rw (run1, run2, run3, said) refl, b4)

    err_stdin_out-Passes :
        Passes (err_stdin_out (kernel_system inb interrupts v esp spare children) rodata buf)
    unfolding err_stdin_out syscall resumed
    err_stdin_out-Passes m k b =
        let k1 = with_memory m k in
        let written = syscall_write-input inb buf 31 k1 (Newborn-Newborn k k1 refl b) in
        let k2 = with_memory m k1 in
        let (k3, run, mem, b3) =
          syscall_read-output interrupts v.d buf 31 m k2 (Newborn-Newborn k k2 refl b)
            (user_memory-with_memory m k1) in
        let (k4, said, b4) =
          say-kernel inb interrupts v esp spare children "err_stdin_out: PASS\n" rodata m k3 refl lo
            hi b3 in
        (m, k4, rw (written, run, mem, said) refl, b4)

    -- In a process with its two standard descriptors and no other, with its literals in its page, the
    -- tests err_neg_fd, err_big_fd, err_unopened, err_vidmap, err_stdin_out and err_syscall_num of
    -- ece391syserr.c end on the kernel with 0, which is PASS, and leave such a process.
    pub syserr-Ends :
        (m : Bytes) (k : Kernel)
        → Newborn k
        → let sys = kernel_system inb interrupts v esp spare children in
          Ends (err_neg_fd sys rodata buf) m k
          × Ends (err_big_fd sys rodata buf) m k
          × Ends (err_unopened sys rodata buf) m k
          × Ends (err_vidmap sys rodata buf) m k
          × Ends (err_stdin_out sys rodata buf) m k
          × Ends (err_syscall_num sys rodata buf) m k
    unfolding err_neg_fd err_big_fd
    syserr-Ends m k b = (
      bad_fd-Passes neg_fd "err_neg_fd: FAIL\n" "err_neg_fd: PASS\n" (omega arith) (omega arith)
          refl m k b,
      bad_fd-Passes big_fd "err_big_fd: FAIL\n" "err_big_fd: PASS\n" (omega arith) (omega arith)
          refl m k b,
      err_unopened-Passes m k b,
      err_vidmap-Passes m k b,
      err_stdin_out-Passes m k b,
      err_syscall_num-Passes m k b,
    )
