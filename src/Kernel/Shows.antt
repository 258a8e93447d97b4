-- ===== src/Kernel/Shows.antt =====
-- The kernel fills the other interface that cat relies on: a program's writes to its standard output.
use zbiggie.Prelude.{
  ℕ, zero, suc, ◌+◌, ◌≤◌, ◌<◌, ◌≡◌, ◌∙◌, refl, ap, sym, arith, true, false, Option, none, some,
  List, [], ◌∷◌, ◌++◌, slt, Bytes,
}
use zbiggie.Console.{Console}
use zbiggie.Console.Print.{mt_putc}
use zbiggie.Console.Plain.{plain, mt_putc-plain}
use zbiggie.Terminal.{Terminal, term_write, term_write_loop}
use zbiggie.Kernel.{Kernel}
use zbiggie.Fs.{Volume, num_inode, inode_length, File, ops_stdout}
use zbiggie.Devices.{Ports}
use zbiggie.Kernel.{get_current_pcb, with_memory, user_memory, get_file}
use zbiggie.Kernel.Files.{usr_ptr_ok, syscall_write, kwrite}
use zbiggie.Kernel.Access.{usr_ptr_ok_iff}
use zbiggie.Kernel.Exec.{Locals}
use zbiggie.Kernel.Descriptors.{get_file_lem}
use zbiggie.Kernel.Syscall.{syscall}
use zbiggie.Kernel.Calls.{kernel_system, resumed}
use zbiggie.Kernel.Serves.{Reading, read-behind_read, behind_read, user_memory-with_memory}
use zbiggie.User.Cat.{WritesAll}
use zbiggie.User.Cat.{bytes, Output}

-- The screen behind more characters.
pub print_all : Console → List ℕ → Console
print_all o [] = o
print_all o (c ∷ cs) = print_all (plain (mt_putc c o)) cs

pub print_all-nil : (o : Console) → print_all o [] ≡ o
unfolding print_all
print_all-nil o = refl

pub print_all-append :
    (o : Console) (xs ys : List ℕ) → print_all (print_all o xs) ys ≡ print_all o (xs ++ ys)
unfolding print_all
print_all-append o [] ys = refl
print_all-append o (c ∷ cs) ys = print_all-append (plain (mt_putc c o)) cs ys

-- What the screen of the kernel shows, the marks of the writes apart.
abbrev pub screen : Output Kernel
screen = record {
  Shown = Console;
  shown = λ k. plain k.console;
  emit = print_all;
  emit-nil = λ o. print_all-nil o;
  emit-append = λ o xs ys. print_all-append o xs ys;
}

term_write_loop-print_all :
    (n : ℕ) (m : Bytes) (buf : ℕ) (c : Console)
    → plain (term_write_loop n m buf c) ≡ print_all (plain c) (bytes m buf n)
unfolding term_write_loop print_all bytes
term_write_loop-print_all zero m buf c = refl
term_write_loop-print_all (suc n) m buf c =
    term_write_loop-print_all n m (buf + 1) (mt_putc (m buf) c)
    ∙ ap (λ (o : Console). print_all o (bytes m (buf + 1) n)) (mt_putc-plain (m buf) c)

-- term_write of a count that is not negative returns it, and shows the bytes of the buffer in order.
pub term_write-print_all :
    (n : ℕ) (m : Bytes) (buf : ℕ) (s : Terminal)
    → n < 2147483648
    → ((term_write m buf n s).0 ≡ n)
      × (plain (term_write m buf n s).1.console ≡ print_all (plain s.console) (bytes m buf n))
unfolding term_write
term_write-print_all n m buf s small =
    let sign : slt n 0 ≡ false = ground arith in
    (refl, rw sign (term_write_loop-print_all n m buf s.console))

pub syscall_write-stdout :
    (inb : Ports → ℕ → ℕ) (fd buf n : ℕ) (k : Kernel) (f : File) (m : Bytes)
    → usr_ptr_ok buf n ≡ true
    → get_file fd k ≡ some f
    → f.optable ≡ ops_stdout
    → user_memory k ≡ m
    → let screen = term_write m buf n k.terminal in
      syscall_write inb fd buf n k ≡ some (screen.0, record k { terminal = screen.1 })
unfolding syscall_write kwrite
syscall_write-stdout inb fd buf n k f m ptr file table mem = rw (ptr, file, table, mem) refl

module _ (inb : Ports → ℕ → ℕ) (interrupts : Kernel → Kernel) (v : Locals) (esp spare : ℕ)
    (children : Kernel → Option (ℕ × Kernel)) where
  write-shows :
      (vol : Volume) (fd inode buf p n : ℕ) (m : Bytes) (k : Kernel)
      → n < 2147483648
      → usr_ptr_ok buf n ≡ true
      → Reading vol fd inode p k
      → (k' : Kernel) × ((kernel_system inb interrupts v esp spare children).write 1 buf n m k
          ≡ some (n, k'))
        × (screen.shown k' ≡ print_all (screen.shown k) (bytes m buf n))
        × Reading vol fd inode p k'
  unfolding syscall resumed
  write-shows vol fd inode buf p n m k small ptr r =
      let k1 = with_memory m k in
      let f = (get_current_pcb k).f 1 in
      let file : get_file 1 k1 ≡ some f =
        get_file_lem 1 k1 (omega arith) ∙ ground (arith, r.output) in
      let mem = user_memory-with_memory m k in
      let (count, shows) = term_write-print_all n m buf k1.terminal small in
      let called = syscall_write-stdout inb 1 buf n k1 f m ptr file r.standard mem in
      let k2 = record k1 { terminal = (term_write m buf n k1.terminal).1 } in
      (
        k2,
        rw called (ap (λ (i : ℕ). some (i, k2)) count),
        shows,
        record {
          mounted = r.mounted;
          table = r.table;
          number = r.number;
          pos = r.pos;
          used = r.used;
          standard = r.standard;
          output = r.output;
          within = r.within;
        },
      )

  -- What a read leaves on the screen, from what it returned.
  shown_of : Option (ℕ × Bytes × Kernel) → Kernel → Console
  shown_of none k = screen.shown k
  shown_of (some (n, m, k')) k = screen.shown k'

  -- In the kernel, a write system call of up to `size` bytes of a buffer in the page of the process to a
  -- terminal accepts them all and prints them in order, and a read of a regular file prints nothing.
  pub kernel-WritesAll :
      (vol : Volume) (fd inode buf size : ℕ)
      → 2 ≤ fd
      → fd < 8
      → inode < num_inode vol
      → inode_length vol inode < 2147483648
      → size < 2147483648
      → 134217728 ≤ buf
      → buf + size ≤ 138412032
      → WritesAll
          (kernel_system inb interrupts v esp spare children)
          fd
          buf
          size
          (Reading vol fd inode)
          screen
  unfolding shown_of behind_read
  kernel-WritesAll vol fd inode buf size behind low there len small start end = record {
    writes = λ p n m k le r. write-shows vol fd inode buf p n m k (omega arith) (accepted n le) r;
    quiet = λ p n m m' k k' r run. still p n m m' k k' r run;
  }
    where
      accepted : (n : ℕ) → n ≤ size → usr_ptr_ok buf n ≡ true
      accepted n le = (usr_ptr_ok_iff buf n (omega arith)).1 (start, omega arith)

      still :
          (p n : ℕ) (m m' : Bytes) (k k' : Kernel)
          → Reading vol fd inode p k
          → (kernel_system inb interrupts v esp spare children).read fd buf size m k
            ≡ some (n, m', k')
          → screen.shown k' ≡ screen.shown k
      still p n m m' k k' r run =
          let (out, run', bytes, next) =
            read-behind_read inb interrupts v esp spare children vol fd inode buf size p m k behind
              low there len (omega arith) (accepted size (omega arith)) r.within r in
          ap (λ (o : Option (ℕ × Bytes × Kernel)). shown_of o k) (sym run ∙ run')
