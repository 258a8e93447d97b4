-- ===== src/Kernel/Refuses.antt =====
-- What the kernel answers to the programs' faulty calls, and that a program can print a message: the
-- steps of the tests of syscalls/ece391syserr.c.
use Prim.Native.Char.{code}
use Prim.Native.String.{String}
use zbiggie.Prelude.{
  ℕ, zero, suc, ◌+◌, ◌≤◌, ◌<◌, ◌≡◌, ◌∙◌, refl, arith, Bool, true, false, Bool-cases, inl, inr,
  Option, none, some, ◌==◌, ◌&&◌, not, ltb, sle, slt, ◌||◌, minus_one, modulus, Bytes,
}
use zbiggie.Text.{literal}
use zbiggie.Fs.{Dentry, ops_stdin, ops_stdout}
use zbiggie.Terminal.{term_write}
use zbiggie.Devices.{Ports}
use zbiggie.Kernel.{Kernel, with_memory, get_current_pcb, in_use, get_file, free_fd}
use zbiggie.Kernel.Files.{usr_ptr_ok, syscall_read, syscall_write, syscall_close, syscall_vidmap}
use zbiggie.Kernel.Access.{usr_ptr_ok_iff}
use zbiggie.Kernel.Exec.{Locals}
use zbiggie.Kernel.Descriptors.{get_file_lem}
use zbiggie.Kernel.Syscall.{syscall}
use zbiggie.Kernel.Calls.{kernel_system, resumed}
use zbiggie.Kernel.Serves.{user_memory-with_memory}
use zbiggie.Kernel.Shows.{syscall_write-stdout}
use zbiggie.User.{ece391_strlen, ece391_strlen_loop}
use zbiggie.User.System.{say, ece391_fdputs}

-- A process with the two descriptors that it was born with, and no other.
pub record Newborn (k : Kernel) : Type 0 where
  pub input : in_use ((get_current_pcb k).f 0) ≡ true
  pub input_table : ((get_current_pcb k).f 0).optable ≡ ops_stdin
  pub output : in_use ((get_current_pcb k).f 1) ≡ true
  pub output_table : ((get_current_pcb k).f 1).optable ≡ ops_stdout
  pub rest : (j : ℕ) → 2 ≤ j → j < 8 → in_use ((get_current_pcb k).f j) ≡ false

-- A text of at most `room` characters, none of them NUL.
abbrev pub fits : ℕ → String → Bool
fits room String.[] = true
fits zero (String.◌∷◌ a s) = false
fits (suc room) (String.◌∷◌ a s) = not (code a == 0) && fits room s

pub literal-end :
    (room : ℕ) (s : String) (p fuel acc : ℕ) (m m' : Bytes)
    → fits room s ≡ true
    → room < fuel
    → ((i : ℕ) → p ≤ i → m' i ≡ literal s p m i)
    → (len : ℕ) × (ece391_strlen_loop fuel m' p acc ≡ some len) × (len ≤ acc + room)
unfolding literal ece391_strlen_loop
literal-end room s p zero acc m m' ok lt same = absurd (omega arith)
literal-end room String.[] p (suc fuel) acc m m' ok lt same =
    let here : m' p ≡ 0 = same p (omega arith) ∙ ground arith in (acc, rw here refl, omega arith)
literal-end zero (String.◌∷◌ a s) p (suc fuel) acc m m' ok lt same = absurd (ground arith)
literal-end (suc room) (String.◌∷◌ a s) p (suc fuel) acc m m' ok lt same =
    let here : m' p ≡ code a = same p (omega arith) ∙ ground arith in
    let more : (m' p == 0) ≡ false = rw here (ground arith) in
    let (len, run, bound) =
      literal-end room s (p + 1) fuel (acc + 1) m m' (ground arith) (omega arith)
        (λ i le. same i (omega arith) ∙ ground arith) in
    (len, rw more run, omega arith)

pub Newborn-Newborn :
    (k k' : Kernel) → get_current_pcb k' ≡ get_current_pcb k → Newborn k → Newborn k'
Newborn-Newborn k k' same b = record {
  input = rw same b.input;
  input_table = rw same b.input_table;
  output = rw same b.output;
  output_table = rw same b.output_table;
  rest = λ j lo hi. rw same (b.rest j lo hi);
}

syscall_read-shut :
    (interrupts : Kernel → Kernel) (d : Dentry) (fd buf n : ℕ) (k : Kernel)
    → get_file fd k ≡ none
    → syscall_read interrupts d fd buf n k ≡ some (minus_one, k)
unfolding syscall_read
syscall_read-shut interrupts d fd buf n k shut = elim (Bool-cases (usr_ptr_ok buf n)) [
  | inl e ↦ rw (e, shut) refl
  | inr e ↦ rw e refl
]

syscall_write-shut :
    (inb : Ports → ℕ → ℕ) (fd buf n : ℕ) (k : Kernel)
    → get_file fd k ≡ none
    → syscall_write inb fd buf n k ≡ some (minus_one, k)
unfolding syscall_write
syscall_write-shut inb fd buf n k shut = elim (Bool-cases (usr_ptr_ok buf n)) [
  | inl e ↦ rw (e, shut) refl
  | inr e ↦ rw e refl
]

-- A descriptor above those that a process is born with, and the standard files are not closed.
pub syscall_close-refused :
    (fd : ℕ) (k : Kernel) → Newborn k → fd < 4294967296 → syscall_close fd k ≡ (minus_one, k)
unfolding syscall_close get_file free_fd
syscall_close-refused fd k b lt = elim (Bool-cases (sle 8 fd || slt fd 0)) [
  | inl out ↦ rw (syscall_close, out) refl
  | inr inside ↦ elim (Bool-cases (ltb fd 2)) [
    | inl low ↦
        let no : (sle 8 fd || slt fd 2) ≡ true = ground arith in
        elim (Bool-cases (in_use ((get_current_pcb k).f fd))) [
          | inl e ↦ rw (syscall_close, inside, e, no) refl
          | inr e ↦ rw (syscall_close, inside, e) refl
        ]
    | inr high ↦ rw (syscall_close, inside, b.rest fd (ground arith) (ground arith)) refl
  ]
]

pub syscall_vidmap-refused :
    (p : ℕ) (k : Kernel) → p < 134217728 → syscall_vidmap p k ≡ (minus_one, k)
unfolding syscall_vidmap usr_ptr_ok
syscall_vidmap-refused p k lt = let out : usr_ptr_ok p 4 ≡ false = ground arith in rw out refl

pub get_file-rest :
    (fd : ℕ) (k : Kernel) → Newborn k → 2 ≤ fd → fd < 4294967296 → get_file fd k ≡ none
get_file-rest fd k b lo hi = get_file_lem fd k hi ∙ elim (Bool-cases (ltb fd 8)) [
  | inl small ↦
      let lt : fd < 8 = ground arith in let free = b.rest fd lo lt in rw (small, free) refl
  | inr large ↦ rw large refl
]

module _ (inb : Ports → ℕ → ℕ) (interrupts : Kernel → Kernel) (v : Locals) (esp spare : ℕ)
    (children : Kernel → Option (ℕ × Kernel)) where
  -- A message of up to 64 characters from a program's page is printed.
  pub say-kernel :
      (text : String) (rodata : ℕ) (m : Bytes) (k : Kernel)
      → fits 64 text ≡ true
      → 134217728 ≤ rodata
      → rodata + 64 ≤ 138412032
      → Newborn k
      → (k' : Kernel) × (say (kernel_system inb interrupts v esp spare children) rodata text m k
          ≡ some k')
        × Newborn k'
  unfolding ece391_fdputs ece391_strlen syscall resumed
  say-kernel text rodata m k ok lo hi b =
      let page = literal text rodata m in
      let (len, ends, bound) =
        literal-end 64 text rodata modulus 0 m page ok (omega arith) (λ i le. refl) in
      let k1 = with_memory page k in
      let f = (get_current_pcb k).f 1 in
      let ptr = (usr_ptr_ok_iff rodata len (omega arith)).1 (lo, omega arith) in
      let file : get_file 1 k1 ≡ some f = get_file_lem 1 k1 (omega arith) ∙ rw b.output refl in
      let written =
        syscall_write-stdout inb 1 rodata len k1 f page ptr file b.output_table
          (user_memory-with_memory page k) in
      let k2 = record k1 { terminal = (term_write page rodata len k1.terminal).1 } in
      (k2, rw (ends, written) refl, Newborn-Newborn k k2 refl b)

  -- Reads and writes of a descriptor that is not open, whatever the buffer.
  pub read-refused :
      (fd buf n : ℕ) (m : Bytes) (k : Kernel)
      → ((page : Bytes) → get_file fd (with_memory page k) ≡ none)
      → (kernel_system inb interrupts v esp spare children).read fd buf n m k
        ≡ some (minus_one, m, with_memory m k)
  unfolding syscall resumed
  read-refused fd buf n m k shut =
      rw
        (
          syscall_read-shut interrupts v.d fd buf n (with_memory m k) (shut m),
          user_memory-with_memory m k,
        )
        refl

  pub write-refused :
      (fd buf n : ℕ) (m : Bytes) (k : Kernel)
      → ((page : Bytes) → get_file fd (with_memory page k) ≡ none)
      → (kernel_system inb interrupts v esp spare children).write fd buf n m k
        ≡ some (minus_one, with_memory m k)
  unfolding syscall resumed
  write-refused fd buf n m k shut =
      rw (syscall_write-shut inb fd buf n (with_memory m k) (shut m)) refl
