-- ===== src/Kernel/Trials.antt =====
-- The calls and the programs on a kernel whose process has the files that it was born with.
use zbiggie.Prelude.{
  ℕ, zero, suc, ◌-◌, ◌<◌, ◌≡◌, refl, arith, false, some, none, Option, minus_one, ◌==◌, ◌&&◌, leb,
  ltb, if◌then◌else◌, load32,
}
use zbiggie.Samples.{one_process, zeros, volume_a, blank_dentry, greeting}
use zbiggie.Text.{strlen, strlen_loop, strncmp, strncpy}
use zbiggie.Fs.{ops_stdin, ops_stdout, ops_regular, unset, num_dentry, dentry_at}
use zbiggie.Fs.Directory.{Named}
use zbiggie.Devices.{Ports}
use zbiggie.Kernel.{Kernel, in_use, mark, get_current_pcb, user_memory}
use zbiggie.Kernel.Files.{syscall_open, usr_ptr_ok}
use zbiggie.Kernel.Exec.{Locals}
use zbiggie.Kernel.Syscall.{back, halt}
use zbiggie.Kernel.Segments.{
  SegDesc, the_tss_desc, low_word, high_word, segment_base, segment_limit, access_byte,
  segment_flags, the_tss_desc-words,
}
use zbiggie.Kernel.Opens.{Asks, IsFile, OnlyFile, syscall_open-found, syscall_open-missing}
use zbiggie.Kernel.Exec.{next_task, task}
use zbiggie.Kernel.Turns.{next_task-next_task}
use zbiggie.Kernel.Halts.{halt_lem}
use zbiggie.Kernel.Prints.{with_args}
use zbiggie.Kernel.Refuses.{Newborn}

-- A process with the argument "a".
abbrev pub born : Kernel
born = record one_process {
  pcbs = λ p. record (one_process.pcbs p) {
    cmdstring = λ i. if i == 0 then b'a' else 0;
    f = λ fd. record {
      optable = if fd == 0 then ops_stdin else if fd == 1 then ops_stdout else unset;
      inode = 0;
      pos = 0;
      flags = if ltb fd 2 then 1 else 0;
    };
  };
}

-- What the devices, the interrupts and other programs do.
abbrev pub quiet_inb : Ports → ℕ → ℕ
quiet_inb p a = 0

abbrev pub no_interrupts : Kernel → Kernel
no_interrupts k = k

abbrev pub no_children : Kernel → Option (ℕ × Kernel)
no_children k = none

pub born-Newborn : Newborn born
born-Newborn = record {
  input = refl;
  input_table = refl;
  output = refl;
  output_table = refl;
  rest = λ j lo hi. ground arith;
}

abbrev pub page : ℕ
page = 134512640

pub born_ends : strlen (with_args page zeros born) page ≡ some 1
unfolding strlen strlen_loop strncpy
born_ends = refl

born-Named : Named volume_a (with_args page zeros born) page 0
unfolding strncmp strncpy dentry_at
born-Named = refl

abbrev pub some_locals : Locals
some_locals = record {
  f = record { optable = unset; inode = 0; pos = 0; flags = 0 };
  exec = zeros;
  args = zeros;
  buf = zeros;
  d = blank_dentry;
}

pub born-IsFile : IsFile volume_a (with_args page zeros born) page 0 0
unfolding load32 num_dentry dentry_at
born-IsFile = record {
  there = ground arith;
  named = born-Named;
  first = λ j lt. absurd (omega arith);
  regular = refl;
  number = refl;
}

-- The same process with "a" in its page, at address `page`.
abbrev asking : Kernel
asking = record born { pages = λ p. with_args page zeros born }

asking-Asks : Asks page 1 2 asking
unfolding usr_ptr_ok
asking-Asks = record {
  ends = born_ends;
  allowed = refl;
  behind = omega arith;
  low = omega arith;
  free = refl;
  taken = λ j lt. ground arith;
}

syscall_open-found_example :
    (k' : Kernel) × (syscall_open quiet_inb blank_dentry page asking ≡ some (2, k'))
    × ((get_current_pcb k').f 2 ≡ record (mark ((get_current_pcb asking).f 2)) {
      pos = 0;
      inode = 0;
      optable = ops_regular;
    })
    × OnlyFile 2 asking k'
syscall_open-found_example =
    syscall_open-found quiet_inb blank_dentry page 1 2 0 0 asking asking-Asks born-IsFile

-- A process that asks for "hi".
abbrev missing : Kernel
missing = record born { pages = λ p i. greeting (i - page) }

missing_ends : strlen (user_memory missing) page ≡ some 2
unfolding strlen strlen_loop
missing_ends = refl

missing-Asks : Asks page 2 2 missing
unfolding usr_ptr_ok
missing-Asks = record {
  ends = missing_ends;
  allowed = refl;
  behind = omega arith;
  low = omega arith;
  free = refl;
  taken = λ j lt. ground arith;
}

missing_unnamed :
    (j : ℕ) → j < num_dentry volume_a → ¬ (Named volume_a (user_memory missing) page j)
unfolding strncmp dentry_at num_dentry load32
missing_unnamed zero lt = λ e. ground arith
missing_unnamed (suc j) lt = λ e. ground arith

syscall_open-missing_example :
    (k' : Kernel) × (syscall_open quiet_inb blank_dentry page missing ≡ some (minus_one, k'))
    × ((j : ℕ) → in_use ((get_current_pcb k').f j) ≡ in_use ((get_current_pcb missing).f j))
    × OnlyFile 2 missing k'
syscall_open-missing_example =
    syscall_open-missing quiet_inb blank_dentry page 2 2 missing missing-Asks missing_unnamed

-- Process 5, a child of process 1.
abbrev child : Kernel
child = record born {
  current_process = 5;
  pcbs = λ p. record (born.pcbs p) { parent = 1; present = 1 };
}

halt_lem_example :
    (k' : Kernel) × (halt quiet_inb no_interrupts some_locals 77 7 child ≡ some (back 7, k'))
    × (k'.current_process ≡ 1)
    × (k'.tables.cr3 ≡ 1)
    × ((k'.pcbs 5).present ≡ 0)
    × ((j : ℕ) → (leb 2 j && ltb j 8 && in_use ((k'.pcbs 5).f j)) ≡ false)
    × (k'.pages ≡ child.pages)
halt_lem_example =
    halt_lem quiet_inb no_interrupts some_locals 77 7 child (omega arith) (omega arith)
      (omega arith)

abbrev pub old_desc : SegDesc
old_desc = record {
  seg_lim_15_00 = 0;
  base_15_00 = 0;
  base_23_16 = 0;
  kind = 0;
  sys = 0;
  dpl = 0;
  present = 0;
  seg_lim_19_16 = 0;
  avail = 0;
  reserved = 0;
  opsize = 0;
  granularity = 0;
  base_31_24 = 0;
}

the_tss_desc-words_example :
    (segment_base
        (low_word (the_tss_desc old_desc 4198400 104))
        (high_word (the_tss_desc old_desc 4198400 104))
      ≡ 4198400)
    × (segment_limit
          (low_word (the_tss_desc old_desc 4198400 104))
          (high_word (the_tss_desc old_desc 4198400 104))
        ≡ 104)
    × (access_byte (high_word (the_tss_desc old_desc 4198400 104)) ≡ 0x89)
    × (segment_flags (high_word (the_tss_desc old_desc 4198400 104)) ≡ 0)
the_tss_desc-words_example = the_tss_desc-words old_desc 4198400 104 (omega arith) (omega arith)

-- Three processes, of which the first runs.
abbrev three : Kernel
three = record born { processes = λ i. if i == 2 then 2 else if i == 0 then 3 else 1 }

next_task-next_task_example :
    ((next_task 70 three).1.current_process ≡ 2)
    × ((next_task 80 (next_task 70 three).1).1.current_process ≡ 3)
    × ((next_task 90 (next_task 80 (next_task 70 three).1).1).1.current_process ≡ 1)
    × (((next_task 90 (next_task 80 (next_task 70 three).1).1).1.pcbs 1).esp ≡ 70)
    × ((next_task 90 (next_task 80 (next_task 70 three).1).1).0 ≡ task)
next_task-next_task_example =
    next_task-next_task 70 80 90 three 2 3 (omega arith) refl refl (λ e. omega arith)
      (λ e. omega arith) (λ e. omega arith) (λ e. omega arith) (λ e. omega arith)
