-- ===== src/Kernel/Serves.antt =====
-- The kernel fills the interface that cat relies on: a program's reads of a regular file.
use Prim.Native.Nat.{min}
use zbiggie.Prelude.{
  ℕ, ◌+◌, ◌-◌, ◌≤◌, ◌<◌, ◌≡◌, ◌∙◌, refl, ap, arith, true, Option, some, ◌==◌, ◌&&◌, leb, ltb,
  if◌then◌else◌, modulus, Bytes,
}
use zbiggie.Fs.{
  Volume, Dentry, File, ops_regular, ops_stdout, num_inode, inode_length, regular_read,
}
use zbiggie.Fs.Data.{regular_read_lem, file_byte}
use zbiggie.Devices.{Ports}
use zbiggie.Kernel.{Kernel, with_memory, user_memory, get_current_pcb, with_file, get_file, in_use}
use zbiggie.Kernel.Files.{usr_ptr_ok, syscall_read, kread}
use zbiggie.Kernel.Exec.{Locals}
use zbiggie.Kernel.Descriptors.{get_file_lem}
use zbiggie.Kernel.Syscall.{syscall}
use zbiggie.Kernel.Calls.{kernel_system, resumed}
use zbiggie.User.Cat.{FileReads}

-- Descriptor `fd` of the process that runs is open on a regular file of the volume, of which `p` bytes
-- were read, and descriptor 1 on its terminal.
pub record Reading (vol : Volume) (fd inode p : ℕ) (k : Kernel) : Type 0 where
  pub mounted : k.volume ≡ vol
  pub table : ((get_current_pcb k).f fd).optable ≡ ops_regular
  pub number : ((get_current_pcb k).f fd).inode ≡ inode
  pub pos : ((get_current_pcb k).f fd).pos ≡ p
  pub used : in_use ((get_current_pcb k).f fd) ≡ true
  pub standard : ((get_current_pcb k).f 1).optable ≡ ops_stdout
  pub output : in_use ((get_current_pcb k).f 1) ≡ true
  pub within : p ≤ inode_length vol inode

pub user_memory-with_memory : (m : Bytes) (k : Kernel) → user_memory (with_memory m k) ≡ m
user_memory-with_memory m k =
    let self : k.current_process == k.current_process ≡ true = ground arith in rw self refl

syscall_read-regular :
    (interrupts : Kernel → Kernel) (d : Dentry) (fd buf size : ℕ) (k : Kernel) (f f' : File) (n : ℕ)
    (m out : Bytes)
    → usr_ptr_ok buf size ≡ true
    → get_file fd k ≡ some f
    → f.optable ≡ ops_regular
    → user_memory k ≡ m
    → regular_read k.volume f m buf size ≡ some (n, f', out)
    → syscall_read interrupts d fd buf size k ≡ some (n, with_memory out (with_file fd f' k))
unfolding syscall_read kread
syscall_read-regular interrupts d fd buf size k f f' n m out ptr file table mem run =
    rw (ptr, file, table, mem, run) refl

pub regular_read-at :
    (vol : Volume) (f : File) (m : Bytes) (buf size inode p : ℕ)
    → f.inode ≡ inode
    → f.pos ≡ p
    → inode < num_inode vol
    → inode_length vol inode < 2147483648
    → size ≤ 2147483648
    → p ≤ inode_length vol inode
    → let n = min size (inode_length vol inode - p) in
      (out : Bytes) × (regular_read vol f m buf size ≡ some (n, record f { pos = p + n }, out))
      × ((a : ℕ)
          → out a
            ≡ (if leb buf a && ltb a (buf + n) then file_byte vol inode (p + (a - buf)) else m a))
regular_read-at vol f m buf size inode p ei ep there len room le =
    rw (← ei, ← ep)
      (regular_read_lem vol f m buf size (rw ei there) (rw ei len)
        (let lt : p + size < modulus = omega arith in rw ep lt) (rw (ei, ep) le))

module _ (inb : Ports → ℕ → ℕ) (interrupts : Kernel → Kernel) (v : Locals) (esp spare : ℕ)
    (children : Kernel → Option (ℕ × Kernel)) where
  -- What the read does, with the kernel that it leaves.
  unfoldable pub behind_read : ℕ → ℕ → Bytes → Bytes → Kernel → Kernel
  behind_read fd n m out k =
      let k' = with_memory m k in
      let f = (get_current_pcb k').f fd in
      with_memory out (with_file fd (record f { pos = f.pos + n }) k')

  pub read-behind_read :
      (vol : Volume) (fd inode buf size p : ℕ) (m : Bytes) (k : Kernel)
      → 2 ≤ fd
      → fd < 8
      → inode < num_inode vol
      → inode_length vol inode < 2147483648
      → size ≤ 2147483648
      → usr_ptr_ok buf size ≡ true
      → p ≤ inode_length vol inode
      → Reading vol fd inode p k
      → let n = min size (inode_length vol inode - p) in
        (out : Bytes) × ((kernel_system inb interrupts v esp spare children).read fd buf size m k
          ≡ some (n, out, behind_read fd n m out k))
        × ((a : ℕ)
            → out a
              ≡ (if leb buf a && ltb a (buf + n) then file_byte vol inode (p + (a - buf)) else m a))
        × Reading vol fd inode (p + n) (behind_read fd n m out k)
  unfolding syscall resumed behind_read
  read-behind_read vol fd inode buf size p m k behind low there len room ptr le r =
      let f = (get_current_pcb k).f fd in
      let n = min size (inode_length vol inode - p) in
      let (out, run, bytes) =
        regular_read-at vol f m buf size inode p r.number r.pos there len room le in
      let f' : File = record f { pos = f.pos + n } in
      let moved : record f { pos = p + n } ≡ f' = rw r.pos refl in
      let file : get_file fd (with_memory m k) ≡ some f =
        get_file_lem fd (with_memory m k) (omega arith) ∙ ground (arith, r.used) in
      let run' : regular_read (with_memory m k).volume f m buf size ≡ some (n, f', out) =
        rw r.mounted (run ∙ ap (λ (g : File). some (n, g, out)) moved) in
      let called =
        syscall_read-regular interrupts v.d fd buf size (with_memory m k) f f' n m out ptr file
          r.table (user_memory-with_memory m k) run' in
      let k' = with_file fd f' (with_memory m k) in
      (
        out,
        rw (called, user_memory-with_memory out k') refl,
        bytes,
        record {
          mounted = r.mounted;
          table = ground (arith, r.table);
          number = ground (arith, r.number);
          pos = ground (arith, r.pos);
          used = ground (arith, r.used);
          standard = ground (arith, r.standard);
          output = ground (arith, r.output);
          within = omega arith;
        },
      )

  -- In the kernel, a read system call on a descriptor that is open on a regular file, with a buffer that
  -- the pointer check accepts, hands out what follows in the file.
  pub kernel-FileReads :
      (vol : Volume) (fd inode buf size : ℕ)
      → 2 ≤ fd
      → fd < 8
      → inode < num_inode vol
      → inode_length vol inode < 2147483648
      → size ≤ 2147483648
      → usr_ptr_ok buf size ≡ true
      → FileReads
          (kernel_system inb interrupts v esp spare children)
          fd
          buf
          size
          (inode_length vol inode)
          (file_byte vol inode)
          (Reading vol fd inode)
  kernel-FileReads vol fd inode buf size behind low there len room ptr = record {
    reads = λ p m k le r.
        (let n = min size (inode_length vol inode - p) in
          let (out, run, bytes, next) =
            read-behind_read vol fd inode buf size p m k behind low there len room ptr le r in
          (out, behind_read fd n m out k, run, bytes, next));
  }
