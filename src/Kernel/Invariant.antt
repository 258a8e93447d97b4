-- ===== src/Kernel/Invariant.antt =====
-- Every system call leaves a sound kernel, whatever its number and its arguments.
use Prim.{tt}
use zbiggie.Prelude.{
  ℕ, refl, arith, Bool, true, false, Bool-cases, inl, inr, ◌==◌, ◌||◌, ltb, if◌then◌else◌, Option,
  none, some, minus_one, Bytes, sub32, ◌>>=◌,
}
use zbiggie.Text.{strlen, literal}
use zbiggie.Devices.{Ports}
use zbiggie.Kernel.{Kernel, get_current_pcb, user_memory, update_pcb_esp}
use zbiggie.Kernel.Files.{
  usr_ptr_ok, free_current_pcb, syscall_close, syscall_getargs, syscall_vidmap,
}
use zbiggie.Kernel.Exec.{Locals, load_exec_to_mem, kload_exec_to_mem}
use zbiggie.Kernel.Syscall.{Control, back, program, enter_program, execute, kexecute, halt, syscall}
use zbiggie.Kernel.Sound.{Ready, Sound, Kept, Kept-Sound}
use zbiggie.Kernel.Keeps.{
  KeptIf, syscall_close-Kept, free_current_pcb-Kept, syscall_getargs-Kept, syscall_vidmap-Kept,
  syscall_write-KeptIf,
}
use zbiggie.Kernel.Between.{After, syscall_read-After, syscall_open-After}
use zbiggie.Kernel.Enters.{switch_context-Sound}
use zbiggie.Kernel.Loads.{Enters, kload_exec_to_mem-Enters, load_exec_to_mem-Enters}

-- A kernel that goes on in a program is sound; one that goes back to the caller is as P says.
abbrev pub Leads : (Kernel → Type 0) → Option (Control × Kernel) → Type 0
Leads P none = Unit
Leads P (some (back value, k)) = P k
Leads P (some (program entry, k)) = Sound k

Leads-either :
    (P : Kernel → Type 0) (b : Bool) (r r' : Option (Control × Kernel))
    → Leads P r
    → Leads P r'
    → Leads P (if b then r else r')
Leads-either P true r r' h h' = h
Leads-either P false r r' h h' = h'

update_pcb_esp-Kept : (pid esp : ℕ) (k : Kernel) → Kept k (update_pcb_esp pid esp k)
update_pcb_esp-Kept pid esp k = record {
  place = record { shown = refl; turn = refl; page = refl };
  process = refl;
  tables = refl;
  stack = refl;
  queue = refl;
  family = λ p. ground arith;
  alive = λ p. ground arith;
}

-- A result of a system call for its caller.
abbrev returned : Option (ℕ × Kernel) → Option (Control × Kernel)
returned r = do (value, k) ← r; some (back value, k)

returned-Leads : (P : Kernel → Type 0) (r : Option (ℕ × Kernel)) → After P r → Leads P (returned r)
returned-Leads P none h = tt
returned-Leads P (some (value, k)) h = h

KeptIf-After : (k : Kernel) (r : Option (ℕ × Kernel)) → Sound k → KeptIf k r → After Sound r
KeptIf-After k none s h = tt
KeptIf-After k (some (value, k')) s h = Kept-Sound k k' h s

module _ (P : Kernel → Type 0) (kept : (k k' : Kernel) → Kept k k' → P k → P k')
    (ready : (k : Kernel) → P k → Ready k) (sound : (k : Kernel) → Sound k → P k)
    (interrupts : Kernel → Kernel) (rely : (k : Kernel) → P k → P (interrupts k))
    (rely_sound : (k : Kernel) → Sound k → Sound (interrupts k)) where
  enter_program-Leads :
      (inb : Ports → ℕ → ℕ) (v : Locals) (esp caller : ℕ) (r : Option (ℕ × Kernel))
      → Enters P r
      → Leads P (do loaded ← r; some (enter_program inb interrupts v esp caller loaded))
  unfolding enter_program
  enter_program-Leads inb v esp caller none h = tt
  enter_program-Leads inb v esp caller (some (e, k)) h =
      elim (Bool-cases (e == minus_one || e == 1)) [
        | inl failed ↦ rw failed h.0
        | inr entered ↦ rw entered (
            Kept-Sound k (update_pcb_esp caller esp k) (update_pcb_esp-Kept caller esp k)
              (h.1 entered))
      ]

  pub kexecute-Leads :
      (inb : Ports → ℕ → ℕ) (v : Locals) (esp : ℕ) (command : Bytes) (k : Kernel)
      → P k
      → Leads P (kexecute inb interrupts v esp command k)
  unfolding kexecute
  kexecute-Leads inb v esp command k h =
      enter_program-Leads inb v esp k.current_process (kload_exec_to_mem inb interrupts v command k)
        (kload_exec_to_mem-Enters P kept ready sound interrupts rely rely_sound inb v command k h)

module _ (inb : Ports → ℕ → ℕ) (interrupts : Kernel → Kernel) (v : Locals)
    (rely : (k : Kernel) → Sound k → Sound (interrupts k)) where
  execute-Leads :
      (esp command : ℕ) (k : Kernel)
      → Sound k
      → Leads Sound (execute inb interrupts v esp command k)
  unfolding execute
  execute-Leads esp command k s = measured (strlen (user_memory k) command)
    where
      measured :
          (r : Option ℕ)
          → Leads Sound (do
            len ← r
            if usr_ptr_ok command len
                then (do
                  loaded ← load_exec_to_mem inb interrupts v command k
                  some (enter_program inb interrupts v esp k.current_process loaded))
                else some (back minus_one, k))
      measured none = tt
      measured (some len) =
          Leads-either Sound (usr_ptr_ok command len) _ (some (back minus_one, k))
            (enter_program-Leads Sound Kept-Sound (λ k s. s.ready) (λ k s. s) interrupts rely rely
              inb v esp k.current_process (load_exec_to_mem inb interrupts v command k)
              (load_exec_to_mem-Enters Sound Kept-Sound (λ k s. s.ready) (λ k s. s) interrupts rely
                rely inb v command k s))
            s

  pub halt-Leads :
      (esp status : ℕ) (k : Kernel) → Sound k → Leads Sound (halt inb interrupts v esp status k)
  unfolding halt
  halt-Leads esp status k s =
      let freed = free_current_pcb k in
      let s' = Kept-Sound k freed (free_current_pcb-Kept k) s in
      Leads-either Sound (ltb freed.current_process 4) _ _
        (kexecute-Leads Sound Kept-Sound (λ k s. s.ready) (λ k s. s) interrupts rely rely inb v esp
          (literal "shell" 0 (λ i. 0)) freed s')
        (switch_context-Sound (get_current_pcb freed).parent freed
          (s'.ready.family freed.current_process) s'.ready)

  pub syscall-Leads :
      (esp eax ebx ecx edx : ℕ) (k : Kernel)
      → Sound k
      → Leads Sound (syscall inb interrupts v esp eax ebx ecx edx k)
  unfolding syscall
  syscall-Leads esp eax ebx ecx edx k s =
      let index = sub32 eax 1 in
      Leads-either Sound (ltb 9 index) (some (back minus_one, k)) _ s (
        Leads-either Sound (index == 0) _ _ (halt-Leads esp ebx k s) (
          Leads-either Sound (index == 1) _ _ (execute-Leads esp ebx k s) (
            Leads-either Sound (index == 2) _ _
              (returned-Leads Sound _
                (syscall_read-After Sound Kept-Sound interrupts rely v.d ebx ecx edx k s))
              (Leads-either Sound (index == 3) _ _
                (returned-Leads Sound _
                  (KeptIf-After k _ s (syscall_write-KeptIf inb ebx ecx edx k)))
                (Leads-either Sound (index == 4) _ _
                  (returned-Leads Sound _
                    (syscall_open-After Sound Kept-Sound interrupts rely inb v.d ebx k s))
                  (Leads-either Sound (index == 5) _ _
                    (Kept-Sound k (syscall_close ebx k).1 (syscall_close-Kept ebx k) s)
                    (Leads-either Sound (index == 6) _ _
                      (Kept-Sound k (syscall_getargs ebx ecx k).1 (syscall_getargs-Kept ebx ecx k)
                        s)
                      (Leads-either Sound (index == 7) _ (some (back index, k))
                        (Kept-Sound k (syscall_vidmap ebx k).1 (syscall_vidmap-Kept ebx k) s)
                        s))))))))
