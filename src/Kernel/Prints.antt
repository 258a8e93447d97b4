-- ===== src/Kernel/Prints.antt =====
-- The program cat on the kernel, from its start to the last byte on the screen: getargs, open, and then
-- a read and a write in turn.
use zbiggie.Prelude.{
  ℕ, ◌+◌, ◌≤◌, ◌<◌, ◌≡◌, ◌∙◌, refl, arith, true, false, Option, some, ◌==◌, slt, minus_one, Bytes,
}
use zbiggie.Prelude.{Bool-cases, inl, inr}
use zbiggie.Text.{strlen, strncpy}
use zbiggie.Fs.{ops_regular, ops_stdout, num_inode, inode_length}
use zbiggie.Fs.Data.{file_byte}
use zbiggie.Devices.{Ports}
use zbiggie.Kernel.{Kernel, user_memory, with_memory, get_current_pcb, in_use, mark}
use zbiggie.Kernel.Files.{usr_ptr_ok, min_int, syscall_getargs}
use zbiggie.Kernel.Access.{usr_ptr_ok_iff}
use zbiggie.Kernel.Exec.{Locals}
use zbiggie.Kernel.Syscall.{syscall}
use zbiggie.Kernel.Calls.{kernel_system, resumed}
use zbiggie.Kernel.Opens.{Asks, IsFile, OnlyFile, syscall_open-found}
use zbiggie.Kernel.Serves.{Reading, kernel-FileReads, user_memory-with_memory}
use zbiggie.Kernel.Shows.{screen, print_all, kernel-WritesAll}
use zbiggie.User.Cat.{bytes, cat_lem}
use zbiggie.User.Programs.{cat}

-- The memory of a program that got its arguments.
abbrev pub with_args : ℕ → Bytes → Kernel → Bytes
with_args buf m k = strncpy m buf (get_current_pcb k).cmdstring 0 128

-- The buffer is in the page of the process, its descriptors are the two that it was born with, and its
-- argument names a regular file, inode `inode` of a sound volume.
pub record Starts (buf len i inode : ℕ) (m : Bytes) (k : Kernel) : Type 0 where
  pub from_page : 134217728 ≤ buf
  pub to_page : buf + 1024 ≤ 138412032
  pub ends : strlen (with_args buf m k) buf ≡ some len
  pub short : len ≤ 1024
  pub input : in_use ((get_current_pcb k).f 0) ≡ true
  pub output : in_use ((get_current_pcb k).f 1) ≡ true
  pub standard : ((get_current_pcb k).f 1).optable ≡ ops_stdout
  pub free : in_use ((get_current_pcb k).f 2) ≡ false
  pub named : IsFile k.volume (with_args buf m k) buf i inode
  pub there : inode < num_inode k.volume
  pub length : inode_length k.volume inode < 2147483648

syscall_getargs-gives :
    (buf : ℕ) (m : Bytes) (k : Kernel)
    → 134217728 ≤ buf
    → buf + 1024 ≤ 138412032
    → user_memory k ≡ m
    → syscall_getargs buf 1024 k ≡ (0, with_memory (with_args buf m k) k)
unfolding syscall_getargs min_int
syscall_getargs-gives buf m k lo hi mem =
    let ptr : usr_ptr_ok buf 1024 ≡ true = (usr_ptr_ok_iff buf 1024 (omega arith)).1 (lo, hi) in
    let high : slt buf 1024 ≡ false = ground arith in rw (ptr, high, mem) refl

module _ (inb : Ports → ℕ → ℕ) (interrupts : Kernel → Kernel) (v : Locals) (esp spare : ℕ)
    (children : Kernel → Option (ℕ × Kernel)) where
  getargs-kernel :
      (buf len i inode : ℕ) (m : Bytes) (k : Kernel)
      → Starts buf len i inode m k
      → let m1 = with_args buf m k in
        (kernel_system inb interrupts v esp spare children).getargs buf 1024 m k
        ≡ some (0, m1, with_memory m1 (with_memory m k))
  unfolding syscall resumed
  getargs-kernel buf len i inode m k s =
      let m1 = with_args buf m k in
      let given =
        syscall_getargs-gives buf m (with_memory m k) s.from_page s.to_page
          (user_memory-with_memory m k) in
      rw (given, user_memory-with_memory m1 (with_memory m k)) refl

  -- The process behind getargs: descriptor 2 is the lowest that is free.
  kernel-Asks :
      (buf len i inode : ℕ) (m : Bytes) (k kk : Kernel)
      → Starts buf len i inode m k
      → user_memory kk ≡ with_args buf m k
      → get_current_pcb kk ≡ get_current_pcb k
      → Asks buf len 2 kk
  kernel-Asks buf len i inode m k kk s mem block =
      let lo = s.from_page in
      let hi = s.to_page in
      let low = s.short in
      record {
        ends = rw mem s.ends;
        allowed = (usr_ptr_ok_iff buf len (omega arith)).1 (lo, omega arith);
        behind = omega arith;
        low = omega arith;
        free = rw block s.free;
        taken = λ j lt. elim (Bool-cases (j == 0)) [
          | inl e ↦ let z : j ≡ 0 = ground arith in rw z (rw block s.input)
          | inr e ↦ let z : j ≡ 1 = ground arith in rw z (rw block s.output)
        ];
      }

  kernel-Reading :
      (inode : ℕ) (k kk k2 : Kernel)
      → OnlyFile 2 kk k2
      → kk.volume ≡ k.volume
      → get_current_pcb kk ≡ get_current_pcb k
      → ((get_current_pcb k).f 1).optable ≡ ops_stdout
      → in_use ((get_current_pcb k).f 1) ≡ true
      → (get_current_pcb k2).f 2
        ≡ record (mark ((get_current_pcb kk).f 2)) { pos = 0; inode = inode; optable = ops_regular }
      → Reading k.volume 2 inode 0 k2
  kernel-Reading inode k kk k2 only vol block standard output opened =
      let one = only.others 1 in
      record {
        mounted = only.mounted ∙ vol;
        table = rw opened refl;
        number = rw opened refl;
        pos = rw opened refl;
        used = rw opened (ground arith);
        standard = rw one (rw block standard);
        output = rw one (rw block output);
        within = omega arith;
      }

  open-kernel :
      (buf len i inode : ℕ) (m : Bytes) (k : Kernel)
      → Starts buf len i inode m k
      → let m1 = with_args buf m k in
        (k2 : Kernel) × ((kernel_system inb interrupts v esp spare children).open_file buf m1
            (with_memory m1 (with_memory m k))
          ≡ some (2, k2))
        × Reading k.volume 2 inode 0 k2
        × (screen.shown k2 ≡ screen.shown k)
  unfolding syscall resumed
  open-kernel buf len i inode m k s =
      let m1 = with_args buf m k in
      let kk = with_memory m1 (with_memory m1 (with_memory m k)) in
      let mem = user_memory-with_memory m1 (with_memory m1 (with_memory m k)) in
      let asked = kernel-Asks buf len i inode m k kk s mem refl in
      let (k2, run, opened, only) =
        syscall_open-found inb v.d buf len 2 i inode kk asked (rw mem s.named) in
      let reads = kernel-Reading inode k kk k2 only refl refl s.standard s.output opened in
      (k2, rw run refl, reads, rw only.screen refl)

  -- If a program's page, descriptors and argument are sound, and the argument names a regular file of
  -- fewer than 2 ^ 31 bytes, cat on the kernel ends with 0, and the screen then shows what it would
  -- show if each byte of the file had been printed, in order.
  pub cat-print_all :
      (rodata buf len i inode : ℕ) (m : Bytes) (k : Kernel)
      → Starts buf len i inode m k
      → (k' : Kernel) × (cat
            (kernel_system inb interrupts v esp spare children)
            rodata
            buf
            (inode_length k.volume inode + 1)
            m
            k
          ≡ some (0, k'))
        × (screen.shown k'
            ≡ print_all
                (screen.shown k)
                (bytes (file_byte k.volume inode) 0 (inode_length k.volume inode)))
  cat-print_all rodata buf len i inode m k s =
      let sys = kernel_system inb interrupts v esp spare children in
      let m1 = with_args buf m k in
      let k1 = with_memory m1 (with_memory m k) in
      let (k2, opened, reads, same) = open-kernel buf len i inode m k s in
      let lo = s.from_page in
      let hi = s.to_page in
      let ptr : usr_ptr_ok buf 1024 ≡ true = (usr_ptr_ok_iff buf 1024 (omega arith)).1 (lo, hi) in
      let file =
        kernel-FileReads inb interrupts v esp spare children k.volume 2 inode buf 1024 (omega arith)
          (omega arith) s.there s.length (omega arith) ptr in
      let sink =
        kernel-WritesAll inb interrupts v esp spare children k.volume 2 inode buf 1024 (omega arith)
          (omega arith) s.there s.length (omega arith) lo hi in
      let (k3, run, shows) =
        cat_lem sys rodata buf 2 (inode_length k.volume inode) (file_byte k.volume inode)
          (Reading k.volume 2 inode) screen file sink s.length m m1 k k1 k2
          (getargs-kernel buf len i inode m k s) opened (λ (e : 2 ≡ minus_one). omega arith)
          reads in
      (k3, run, rw same at shows)
