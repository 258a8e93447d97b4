-- ===== src/Kernel/Runs.antt =====
-- Programs on the kernel: cat with the argument "a", and the tests of ece391syserr.c.
use zbiggie.Prelude.{ℕ, ◌+◌, ◌≡◌, refl, arith, some, ◌==◌, load32}
use zbiggie.Samples.{zeros, volume_a}
use zbiggie.Text.{strncmp}
use zbiggie.Fs.{num_dentry, num_inode, inode_length, inode_at, dentry_at}
use zbiggie.Fs.Data.{file_byte}
use zbiggie.Kernel.{Kernel}
use zbiggie.Kernel.Calls.{kernel_system}
use zbiggie.Text.{literal}
use zbiggie.Prelude.{Bool-cases, inl, inr}
use zbiggie.User.Syserr.{err_open}
use zbiggie.Kernel.Misnamed.{NoEntry, err_open-Ends}
use zbiggie.Kernel.Prints.{Starts, cat-print_all}
use zbiggie.Kernel.Shows.{screen, print_all}
use zbiggie.Kernel.Passes.{Ends, syserr-Ends}
use zbiggie.User.Cat.{bytes}
use zbiggie.User.Programs.{cat}
use zbiggie.User.Syserr.{
  err_neg_fd, err_big_fd, err_unopened, err_vidmap, err_stdin_out, err_syscall_num,
}
use zbiggie.Kernel.Trials.{
  born, quiet_inb, no_interrupts, no_children, born-Newborn, page, born_ends, some_locals,
  born-IsFile,
}

born-Starts : Starts page 1 0 0 zeros born
unfolding load32 num_inode inode_length inode_at
born-Starts = record {
  from_page = omega arith;
  to_page = omega arith;
  ends = born_ends;
  short = omega arith;
  input = refl;
  output = refl;
  standard = refl;
  free = refl;
  named = born-IsFile;
  there = ground arith;
  length = ground arith;
}

cat-print_all_example :
    (k' : Kernel) × (cat
        (kernel_system quiet_inb no_interrupts some_locals 0 0 no_children)
        134520832
        page
        (inode_length volume_a 0 + 1)
        zeros
        born
      ≡ some (0, k'))
    × (screen.shown k'
        ≡ print_all (screen.shown born) (bytes (file_byte volume_a 0) 0 (inode_length volume_a 0)))
cat-print_all_example =
    cat-print_all quiet_inb no_interrupts some_locals 0 0 no_children 134520832 page 1 0 0 zeros
      born born-Starts

syserr-Ends_example :
    Ends
      (err_neg_fd
        (kernel_system quiet_inb no_interrupts some_locals 0 0 no_children)
        134520832
        page)
      zeros
      born
    × Ends
        (err_big_fd
          (kernel_system quiet_inb no_interrupts some_locals 0 0 no_children)
          134520832
          page)
        zeros
        born
    × Ends
        (err_unopened
          (kernel_system quiet_inb no_interrupts some_locals 0 0 no_children)
          134520832
          page)
        zeros
        born
    × Ends
        (err_vidmap
          (kernel_system quiet_inb no_interrupts some_locals 0 0 no_children)
          134520832
          page)
        zeros
        born
    × Ends
        (err_stdin_out
          (kernel_system quiet_inb no_interrupts some_locals 0 0 no_children)
          134520832
          page)
        zeros
        born
    × Ends
        (err_syscall_num
          (kernel_system quiet_inb no_interrupts some_locals 0 0 no_children)
          134520832
          page)
        zeros
        born
syserr-Ends_example =
    syserr-Ends quiet_inb no_interrupts some_locals 0 0 no_children 134520832 page (omega arith)
      (omega arith) zeros born born-Newborn

abbrev strings : ℕ
strings = 134520832

helloo-NoEntry : NoEntry volume_a "helloo" strings zeros
unfolding strncmp dentry_at num_dentry load32 literal
helloo-NoEntry = record {
  absent = λ j lt. elim (Bool-cases (j == 0)) [
    | inl e ↦ let z : j ≡ 0 = ground arith in rw z (λ h. ground arith)
    | inr e ↦ absurd (ground arith)
  ];
}

shel-NoEntry : NoEntry volume_a "shel" strings zeros
unfolding strncmp dentry_at num_dentry load32 literal
shel-NoEntry = record {
  absent = λ j lt. elim (Bool-cases (j == 0)) [
    | inl e ↦ let z : j ≡ 0 = ground arith in rw z (λ h. ground arith)
    | inr e ↦ absurd (ground arith)
  ];
}

empty-NoEntry : NoEntry volume_a "" strings zeros
unfolding strncmp dentry_at num_dentry load32 literal
empty-NoEntry = record {
  absent = λ j lt. elim (Bool-cases (j == 0)) [
    | inl e ↦ let z : j ≡ 0 = ground arith in rw z (λ h. ground arith)
    | inr e ↦ absurd (ground arith)
  ];
}

err_open-Ends_example :
    Ends
      (err_open (kernel_system quiet_inb no_interrupts some_locals 0 0 no_children) strings page)
      zeros
      born
err_open-Ends_example =
    err_open-Ends quiet_inb no_interrupts some_locals 0 0 no_children strings (omega arith)
      (omega arith) page zeros born born-Newborn helloo-NoEntry shel-NoEntry empty-NoEntry
