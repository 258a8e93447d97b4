-- ===== src/Kernel/Keeps.antt =====
-- The operations on files and memory, the devices and the end of a process keep what Kept says.
use Prim.{tt}
use Prim.Native.Char.{code}
use Prim.Native.String.{String}
use zbiggie.Prelude.{
  ℕ, refl, arith, Bool, true, false, Bool-cases, inl, inr, ◌==◌, ◌||◌, ltb, load32, sle, slt,
  if◌then◌else◌, Option, none, some, minus_one, Bytes, for_range, for_range_inv,
}
use zbiggie.Console.{Console}
use zbiggie.Console.Print.{putc}
use zbiggie.Console.Places.{Placed, Placed-refl, Placed-Placed, putc-Placed}
use zbiggie.Terminal.{Terminal, term_write}
use zbiggie.Terminal.Places.{term_write-Stays}
use zbiggie.Fs.{
  Dentry, File, Optable, unset, ops_regular, ops_directory, ops_rtc, ops_stdin, ops_stdout,
  read_dentry_by_name,
}
use zbiggie.Devices.{Ports, rtc_open, rtc_write}
use zbiggie.Kernel
use zbiggie.Kernel.{
  Kernel, with_terminal, with_console, with_memory, with_file, user_memory, get_current_pcb,
  get_new_fd, free_fd, mark, unmark, in_use, find_free_pcb, scan_pcbs, scan_files, get_file,
}
use zbiggie.Kernel.Files.{
  open_operation, kopen, kwrite, syscall_close, free_current_pcb, syscall_getargs, syscall_vidmap,
  syscall_write, usr_ptr_ok, min_int,
}
use zbiggie.Kernel.Sound.{
  Kept, Kept-refl, Kept-Kept, with_terminal-Kept, with_console-Kept, with_memory-Kept,
  with_file-Kept,
}

-- Every result, if there is one.
abbrev pub KeptIf {ℓ} : {A : Type ℓ} → Kernel → Option (A × Kernel) → Type 0
KeptIf k none = Unit
KeptIf k (some (a, k')) = Kept k k'

pub KeptIf-either {ℓ} :
    {A : Type ℓ} (k : Kernel) (b : Bool) (r r' : Option (A × Kernel))
    → KeptIf k r
    → KeptIf k r'
    → KeptIf k (if b then r else r')
KeptIf-either k true r r' h h' = h
KeptIf-either k false r r' h h' = h'

pub get_new_fd-Kept : (k : Kernel) → Kept k (get_new_fd k).1
unfolding get_new_fd
get_new_fd-Kept k = elim (Bool-cases (scan_files 8 (get_current_pcb k).f 0 == minus_one)) [
  | inl e ↦ rw e (Kept-refl k)
  | inr e ↦ rw e (with_file-Kept _ _ k)
]

pub free_fd-Kept : (fd : ℕ) (k : Kernel) → Kept k (free_fd fd k).1
unfolding free_fd
free_fd-Kept fd k = elim (Bool-cases (sle 8 fd || slt fd 2)) [
  | inl e ↦ rw e (Kept-refl k)
  | inr e ↦ elim (Bool-cases (in_use ((get_current_pcb k).f fd))) [
    | inl u ↦ rw (e, u) (with_file-Kept fd (unmark ((get_current_pcb k).f fd)) k)
    | inr u ↦ rw (e, u) (Kept-refl k)
  ]
]

pub syscall_close-Kept : (fd : ℕ) (k : Kernel) → Kept k (syscall_close fd k).1
unfolding syscall_close get_file
syscall_close-Kept fd k = found (get_file fd k)
  where
    found :
        (r : Option File)
        → Kept k (elim r as (λ x. ℕ × Kernel) [ none ↦ (minus_one, k) | some f ↦ free_fd fd k ]).1
    found none = Kept-refl k
    found (some f) = free_fd-Kept fd k

pub free_current_pcb-Kept : (k : Kernel) → Kept k (free_current_pcb k)
unfolding free_current_pcb
free_current_pcb-Kept k =
    let closed = for_range 8 0 (λ i (s : Kernel). (syscall_close i s).1) k in
    Kept-Kept k closed _
      (for_range_inv (λ i (t : Kernel). Kept k t) (λ i (s : Kernel). (syscall_close i s).1) 8 0 8 k
        (omega arith)
        (λ i t lo hi h. Kept-Kept k t (syscall_close i t).1 h (syscall_close-Kept i t))
        (Kept-refl k))
      (record {
        place = Placed-refl closed.console;
        process = refl;
        tables = refl;
        stack = refl;
        queue = refl;
        family = λ p. ground arith;
        alive = λ p. ground arith;
      })

pub syscall_getargs-Kept : (buf n : ℕ) (k : Kernel) → Kept k (syscall_getargs buf n k).1
unfolding syscall_getargs min_int
syscall_getargs-Kept buf n k = elim (Bool-cases (usr_ptr_ok buf n)) [
  | inl e ↦ rw e (with_memory-Kept _ k)
  | inr e ↦ rw e (Kept-refl k)
]

pub syscall_vidmap-Kept : (p : ℕ) (k : Kernel) → Kept k (syscall_vidmap p k).1
unfolding syscall_vidmap
syscall_vidmap-Kept p k = elim (Bool-cases (usr_ptr_ok p 4)) [
  | inl e ↦ rw e (with_memory-Kept _ k)
  | inr e ↦ rw e (Kept-refl k)
]

say-Placed : (s : String) (c : Console) → Placed c (Kernel.say s c)
say-Placed String.[] c = Placed-refl c
say-Placed (String.◌∷◌ a s) c =
    Placed-Placed c (putc (code a) c) (Kernel.say s (putc (code a) c)) (putc-Placed (code a) c)
      (say-Placed s (putc (code a) c))

pub find_free_pcb-Kept : (k : Kernel) → Kept k (find_free_pcb k).1
unfolding find_free_pcb
find_free_pcb-Kept k = elim (Bool-cases (ltb 10 (scan_pcbs 10 k.pcbs 1))) [
  | inl e ↦ rw e (
      with_console-Kept (Kernel.say "E: process limit reached\n") k
        (say-Placed "E: process limit reached\n" k.console))
  | inr e ↦ rw e (Kept-refl k)
]

abbrev pub KeptFile : Kernel → Option (ℕ × File × Kernel) → Type 0
KeptFile k none = Unit
KeptFile k (some (n, f, k')) = Kept k k'

open_operation-KeptFile :
    (inb : Ports → ℕ → ℕ) (f : File) (k : Kernel) → KeptFile k (open_operation inb f k)
unfolding open_operation
open_operation-KeptFile inb f k = opened f.optable
  where
    status : ℕ
    status = (rtc_open inb k.ports).0

    rang : Kernel
    rang = with_console (λ c. record c { ports = (rtc_open inb k.ports).1 }) k

    opened :
        (t : Optable)
        → KeptFile k
            (elim t [ unset ↦ none | ops_rtc ↦ some (status, f, rang) | _ ↦ some (0, f, k) ])
    opened unset = tt
    opened ops_rtc =
        with_console-Kept (λ c. record c { ports = (rtc_open inb k.ports).1 }) k
          (record { shown = refl; turn = refl; page = refl })
    opened ops_regular = Kept-refl k
    opened ops_directory = Kept-refl k
    opened ops_stdin = Kept-refl k
    opened ops_stdout = Kept-refl k

pub kopen-KeptFile :
    (inb : Ports → ℕ → ℕ) (d : Dentry) (f : File) (m : Bytes) (name : ℕ) (k : Kernel)
    → KeptFile k (kopen inb d f m name k)
unfolding kopen
kopen-KeptFile inb d f m name k =
    elim (Bool-cases (ltb 0 (read_dentry_by_name k.volume m name d).0)) [
      | inl e ↦ rw e (Kept-refl k)
      | inr e ↦ rw e (open_operation-KeptFile inb _ k)
    ]

pub kwrite-KeptIf :
    (inb : Ports → ℕ → ℕ) (f : File) (m : Bytes) (buf n : ℕ) (k : Kernel)
    → KeptIf k (kwrite inb f m buf n k)
unfolding kwrite
kwrite-KeptIf inb f m buf n k = written f.optable
  where
    clock : ℕ × Ports
    clock = rtc_write inb (load32 m buf) n k.ports

    rang : Kernel
    rang = with_console (λ c. record c { ports = clock.1 }) k

    screen : ℕ × Terminal
    screen = term_write m buf n k.terminal

    written :
        (t : Optable)
        → KeptIf k (elim t [
          | unset ↦ none
          | ops_regular ↦ some (minus_one, k)
          | ops_directory ↦ some (minus_one, k)
          | ops_rtc ↦ some (clock.0, rang)
          | ops_stdin ↦ some (minus_one, k)
          | ops_stdout ↦ some (screen.0, record k { terminal = screen.1 })
        ])
    written unset = tt
    written ops_regular = Kept-refl k
    written ops_directory = Kept-refl k
    written ops_rtc =
        with_console-Kept (λ c. record c { ports = clock.1 }) k
          (record { shown = refl; turn = refl; page = refl })
    written ops_stdin = Kept-refl k
    written ops_stdout = with_terminal-Kept (λ t. screen.1) k (term_write-Stays m buf n k.terminal)

pub syscall_write-KeptIf :
    (inb : Ports → ℕ → ℕ) (fd buf n : ℕ) (k : Kernel) → KeptIf k (syscall_write inb fd buf n k)
unfolding syscall_write
syscall_write-KeptIf inb fd buf n k =
    KeptIf-either k (usr_ptr_ok buf n) _ (some (minus_one, k)) (found (get_file fd k)) (Kept-refl k)
  where
    found :
        (r : Option File)
        → KeptIf k
            (elim r [ none ↦ some (minus_one, k) | some f ↦ kwrite inb f (user_memory k) buf n k ])
    found none = Kept-refl k
    found (some f) = kwrite-KeptIf inb f (user_memory k) buf n k
