-- ===== src/Kernel/Misnamed.antt =====
-- The test err_open of syscalls/ece391syserr.c on the kernel: names that the directory does not have.
use Prim.Native.String.{String}
use zbiggie.Prelude.{
  ℕ, ◌+◌, ◌≤◌, ◌<◌, ◌≡◌, ◌∙◌, refl, sym, arith, true, Bool-cases, inl, inr, Option, some, ◌==◌,
  minus_one, modulus, Bytes,
}
use zbiggie.Text.{strlen, literal}
use zbiggie.Fs.{Volume, num_dentry}
use zbiggie.Fs.Directory.{Named}
use zbiggie.Devices.{Ports}
use zbiggie.Kernel.{Kernel, with_memory, get_current_pcb, in_use}
use zbiggie.Kernel.Access.{usr_ptr_ok_iff}
use zbiggie.Kernel.Exec.{Locals}
use zbiggie.Kernel.Syscall.{syscall}
use zbiggie.Kernel.Calls.{kernel_system, resumed}
use zbiggie.Kernel.Serves.{user_memory-with_memory}
use zbiggie.Kernel.Opens.{Asks, OnlyFile, syscall_open-missing}
use zbiggie.Kernel.Refuses.{Newborn, Newborn-Newborn, fits, literal-end, say-kernel}
use zbiggie.Kernel.Passes.{Ends}
use zbiggie.User.{ece391_strlen}
use zbiggie.User.Same.{ece391_strlen-strlen}
use zbiggie.User.System.{open_literal}
use zbiggie.User.Syserr.{err_open}

-- The directory has no entry of the name, wherever the literal stands in memory.
pub record NoEntry (vol : Volume) (name : String) (rodata : ℕ) (m : Bytes) : Type 0 where
  pub absent : (j : ℕ) → j < num_dentry vol → ¬ (Named vol (literal name rodata m) rodata j)

OnlyFile-Newborn :
    (k k' : Kernel)
    → Newborn k
    → OnlyFile 2 k k'
    → ((j : ℕ) → in_use ((get_current_pcb k').f j) ≡ in_use ((get_current_pcb k).f j))
    → Newborn k'
OnlyFile-Newborn k k' b only still = record {
  input = still 0 ∙ b.input;
  input_table = rw (only.others 0) b.input_table;
  output = still 1 ∙ b.output;
  output_table = rw (only.others 1) b.output_table;
  rest = λ j lo hi. still j ∙ b.rest j lo hi;
}

module _ (inb : Ports → ℕ → ℕ) (interrupts : Kernel → Kernel) (v : Locals) (esp spare : ℕ)
    (children : Kernel → Option (ℕ × Kernel)) (rodata : ℕ) (lo : 134217728 ≤ rodata)
    (hi : rodata + 64 ≤ 138412032) where
  literal-Asks :
      (name : String) (m : Bytes) (k : Kernel)
      → fits 64 name ≡ true
      → Newborn k
      → (len : ℕ) × Asks rodata len 2 (with_memory (literal name rodata m) k)
  unfolding ece391_strlen
  literal-Asks name m k ok b =
      let page = literal name rodata m in
      let (len, ends, bound) =
        literal-end 64 name rodata modulus 0 m page ok (omega arith) (λ i le. refl) in
      let ends' : strlen page rodata ≡ some len = sym (ece391_strlen-strlen page rodata) ∙ ends in
      (
        len,
        record {
          ends = rw (user_memory-with_memory page k) ends';
          allowed = (usr_ptr_ok_iff rodata len (omega arith)).1 (lo, omega arith);
          behind = omega arith;
          low = omega arith;
          free = b.rest 2 (omega arith) (omega arith);
          taken = λ j lt. elim (Bool-cases (j == 0)) [
            | inl e ↦ let z : j ≡ 0 = ground arith in rw z b.input
            | inr e ↦ let z : j ≡ 1 = ground arith in rw z b.output
          ];
        },
      )

  open_literal-missing :
      (name : String) (m : Bytes) (k : Kernel)
      → fits 64 name ≡ true
      → Newborn k
      → NoEntry k.volume name rodata m
      → (k' : Kernel) × (open_literal
            (kernel_system inb interrupts v esp spare children)
            rodata
            name
            m
            k
          ≡ some (minus_one, k'))
        × Newborn k'
        × (k'.volume ≡ k.volume)
  unfolding syscall resumed
  open_literal-missing name m k ok b gone =
      let page = literal name rodata m in
      let k1 = with_memory page k in
      let (len, asks) = literal-Asks name m k ok b in
      let (k', run, still, only) =
        syscall_open-missing inb v.d rodata len 2 k1 asks
          (rw (user_memory-with_memory page k) gone.absent) in
      (
        k',
        rw run refl,
        OnlyFile-Newborn k1 k' (Newborn-Newborn k k1 refl b) only still,
        only.mounted,
      )

  -- In a process with its two standard descriptors and no other, with its literals in its page, and a
  -- directory with no entry of the names "helloo", "shel" and "", the test err_open of ece391syserr.c
  -- ends on the kernel with 0, which is PASS, and leaves such a process.
  pub err_open-Ends :
      (buf : ℕ) (m : Bytes) (k : Kernel)
      → Newborn k
      → NoEntry k.volume "helloo" rodata m
      → NoEntry k.volume "shel" rodata m
      → NoEntry k.volume "" rodata m
      → Ends (err_open (kernel_system inb interrupts v esp spare children) rodata buf) m k
  unfolding err_open
  err_open-Ends buf m k b long short empty =
      let (k1, run1, b1, vol1) = open_literal-missing "helloo" m k refl b long in
      let (k2, run2, b2, vol2) = open_literal-missing "shel" m k1 refl b1 (rw vol1 short) in
      let (k3, run3, b3, vol3) = open_literal-missing "" m k2 refl b2 (rw (vol2, vol1) empty) in
      let (k4, said, b4) =
        say-kernel inb interrupts v esp spare children "err_open: PASS\n" rodata m k3 refl lo hi
          b3 in
      (m, k4, rw (run1, run2, run3, said) refl, b4)
