-- ===== src/Kernel/Standard.antt =====
-- What a write to the standard input and a read of the standard output answer.
use zbiggie.Prelude.{ℕ, ◌≡◌, ◌∙◌, refl, arith, Bool-cases, inl, inr, some, minus_one, Bytes}
use zbiggie.Fs.{File, Dentry, ops_stdin}
use zbiggie.Devices.{Ports}
use zbiggie.Kernel.{Kernel, user_memory, with_memory, with_file, get_current_pcb, get_file}
use zbiggie.Kernel.Files.{usr_ptr_ok, syscall_read, syscall_write, kread, kwrite}
use zbiggie.Kernel.Descriptors.{get_file_lem}
use zbiggie.Kernel.Serves.{user_memory-with_memory}
use zbiggie.Kernel.Refuses.{Newborn}

syscall_write-stdin :
    (inb : Ports → ℕ → ℕ) (fd buf n : ℕ) (k : Kernel) (f : File)
    → get_file fd k ≡ some f
    → f.optable ≡ ops_stdin
    → syscall_write inb fd buf n k ≡ some (minus_one, k)
unfolding syscall_write kwrite
syscall_write-stdin inb fd buf n k f file table = elim (Bool-cases (usr_ptr_ok buf n)) [
  | inl e ↦ rw (e, file, table) refl
  | inr e ↦ rw e refl
]

pub syscall_write-input :
    (inb : Ports → ℕ → ℕ) (buf n : ℕ) (k : Kernel)
    → Newborn k
    → syscall_write inb 0 buf n k ≡ some (minus_one, k)
syscall_write-input inb buf n k b =
    let f = (get_current_pcb k).f 0 in
    let file : get_file 0 k ≡ some f = get_file_lem 0 k (omega arith) ∙ rw b.input refl in
    syscall_write-stdin inb 0 buf n k f file b.input_table

pub syscall_read-output :
    (interrupts : Kernel → Kernel) (d : Dentry) (buf n : ℕ) (m : Bytes) (k : Kernel)
    → Newborn k
    → user_memory k ≡ m
    → (k' : Kernel) × (syscall_read interrupts d 1 buf n k ≡ some (minus_one, k'))
      × (user_memory k' ≡ m)
      × Newborn k'
unfolding syscall_read kread
syscall_read-output interrupts d buf n m k b mem =
    let f = (get_current_pcb k).f 1 in
    let file : get_file 1 k ≡ some f = get_file_lem 1 k (omega arith) ∙ rw b.output refl in
    let k1 = with_memory m (with_file 1 f k) in
    elim (Bool-cases (usr_ptr_ok buf n)) [
      | inl e ↦ (
        k1,
        rw (e, file, b.output_table, mem) refl,
        user_memory-with_memory m (with_file 1 f k),
        record {
          input = ground (arith, b.input);
          input_table = ground (arith, b.input_table);
          output = ground (arith, b.output);
          output_table = ground (arith, b.output_table);
          rest = λ j lo hi. (let r = b.rest j lo hi in ground arith);
        },
      )
      | inr e ↦ (k, rw e refl, mem, b)
    ]
