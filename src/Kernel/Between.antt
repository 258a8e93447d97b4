-- ===== src/Kernel/Between.antt =====
-- The system calls that open and read keep whatever Kept keeps, if the interrupts during a read do.
use Prim.{tt}
use zbiggie.Prelude.{
  ℕ, refl, Bool, true, false, ◌==◌, if◌then◌else◌, Option, none, some, minus_one, Bytes, ◌>>=◌,
}
use zbiggie.Text.{strlen}
use zbiggie.Terminal.{Terminal, term_read_start, term_read_finish}
use zbiggie.Terminal.Places.{term_read_finish-Stays}
use zbiggie.Fs.{
  Dentry, File, Optable, unset, ops_regular, ops_directory, ops_rtc, ops_stdin, ops_stdout,
  regular_read, directory_read,
}
use zbiggie.Devices.{Ports}
use zbiggie.Kernel.{
  Kernel, with_terminal, with_memory, with_file, user_memory, get_current_pcb, get_new_fd, free_fd,
  get_file,
}
use zbiggie.Kernel.Files.{kopen, kread, rtc_read, syscall_open, syscall_read, usr_ptr_ok}
use zbiggie.Kernel.Sound.{
  Kept, Kept-Kept, with_terminal-Kept, with_memory-Kept, with_file-Kept, with_rtc_f-Kept,
}
use zbiggie.Kernel.Keeps.{KeptFile, kopen-KeptFile, get_new_fd-Kept, free_fd-Kept}

-- The kernel of every result, if there is one.
abbrev pub After {ℓ} : {A : Type ℓ} → (Kernel → Type 0) → Option (A × Kernel) → Type 0
After P none = Unit
After P (some (a, k)) = P k

abbrev pub AfterRead : (Kernel → Type 0) → Option (ℕ × File × Bytes × Kernel) → Type 0
AfterRead P none = Unit
AfterRead P (some (n, f, m, k)) = P k

pub After-either {ℓ} :
    {A : Type ℓ} (P : Kernel → Type 0) (b : Bool) (r r' : Option (A × Kernel))
    → After P r
    → After P r'
    → After P (if b then r else r')
After-either P true r r' h h' = h
After-either P false r r' h h' = h'

module _ (P : Kernel → Type 0) (kept : (k k' : Kernel) → Kept k k' → P k → P k')
    (interrupts : Kernel → Kernel) (rely : (k : Kernel) → P k → P (interrupts k)) where
  pub kread-After :
      (d : Dentry) (f : File) (m : Bytes) (buf n : ℕ) (k : Kernel)
      → P k
      → AfterRead P (kread interrupts d f m buf n k)
  unfolding kread rtc_read term_read_start
  kread-After d f m buf n k h = taken f.optable
    where
      waited : Kernel
      waited = interrupts (record k { rtc_f = 1 })

      reading : Kernel
      reading = interrupts (with_terminal term_read_start k)

      line : ℕ × Bytes × Terminal
      line = term_read_finish m buf n reading.terminal

      entry : ℕ × File × Bytes
      entry = directory_read k.volume d f m buf n

      file : Option (ℕ × File × Bytes) → Option (ℕ × File × Bytes × Kernel)
      file none = none
      file (some (i, f', m')) = some (i, f', m', k)

      file_After : (r : Option (ℕ × File × Bytes)) → AfterRead P (file r)
      file_After none = tt
      file_After (some (i, f', m')) = h

      taken :
          (t : Optable)
          → AfterRead P (elim t [
            | unset ↦ none
            | ops_regular ↦ elim (regular_read k.volume f m buf n) [
              | none ↦ none
              | some (i, f', m') ↦ some (i, f', m', k)
            ]
            | ops_directory ↦ some (entry.0, entry.1, entry.2, k)
            | ops_rtc ↦ some (0, f, m, waited)
            | ops_stdin ↦ some (line.0, f, line.1, record reading { terminal = line.2 })
            | ops_stdout ↦ some (minus_one, f, m, k)
          ])
      taken unset = tt
      taken ops_regular = file_After (regular_read k.volume f m buf n)
      taken ops_directory = h
      taken ops_rtc =
          rely (record k { rtc_f = 1 }) (kept k (record k { rtc_f = 1 }) (with_rtc_f-Kept 1 k) h)
      taken ops_stdin =
          kept reading (record reading { terminal = line.2 })
            (with_terminal-Kept (λ t. line.2) reading
              (term_read_finish-Stays m buf n reading.terminal))
            (rely (with_terminal term_read_start k) (
              kept k (with_terminal term_read_start k)
                (with_terminal-Kept term_read_start k
                  (record { shown = refl; turn = refl; page = refl }))
                h))
      taken ops_stdout = h

  pub syscall_read-After :
      (d : Dentry) (fd buf n : ℕ) (k : Kernel)
      → P k
      → After P (syscall_read interrupts d fd buf n k)
  unfolding syscall_read
  syscall_read-After d fd buf n k h =
      After-either P (usr_ptr_ok buf n) _ (some (minus_one, k)) (found (get_file fd k)) h
    where
      stored :
          (r : Option (ℕ × File × Bytes × Kernel))
          → AfterRead P r
          → After P (elim r as (λ x. Option (ℕ × Kernel)) [
            | none ↦ none
            | some (i, f', m, k') ↦ some (i, with_memory m (with_file fd f' k'))
          ])
      stored none r = tt
      stored (some (i, f', m, k')) r =
          kept k' (with_memory m (with_file fd f' k'))
            (Kept-Kept k' (with_file fd f' k') (with_memory m (with_file fd f' k'))
              (with_file-Kept fd f' k') (with_memory-Kept m (with_file fd f' k')))
            r

      found :
          (r : Option File)
          → After P (elim r as (λ x. Option (ℕ × Kernel)) [
            | none ↦ some (minus_one, k)
            | some f ↦ elim (kread interrupts d f (user_memory k) buf n k) [
              | none ↦ none
              | some (i, f', m, k') ↦ some (i, with_memory m (with_file fd f' k'))
            ]
          ])
      found none = h
      found (some f) =
          stored (kread interrupts d f (user_memory k) buf n k)
            (kread-After d f (user_memory k) buf n k h)

  pub syscall_open-After :
      (inb : Ports → ℕ → ℕ) (d : Dentry) (name : ℕ) (k : Kernel)
      → P k
      → After P (syscall_open inb d name k)
  unfolding syscall_open
  syscall_open-After inb d name k h = measured (strlen (user_memory k) name)
    where
      fd : ℕ
      fd = (get_new_fd k).0

      k1 : Kernel
      k1 = (get_new_fd k).1

      h1 : P k1
      h1 = kept k k1 (get_new_fd-Kept k) h

      ended :
          (r : Option (ℕ × File × Kernel))
          → KeptFile k1 r
          → After P (elim r as (λ x. Option (ℕ × Kernel)) [
            | none ↦ none
            | some (ret, f, k2) ↦
                if ret == 0
                then some (fd, with_file fd f k2)
                else some (ret, (free_fd fd (with_file fd f k2)).1)
          ])
      ended none a = tt
      ended (some (ret, f, k2)) a =
          let h2 = kept k1 k2 a h1 in
          let h3 = kept k2 (with_file fd f k2) (with_file-Kept fd f k2) h2 in
          After-either P (ret == 0) (some (fd, with_file fd f k2))
            (some (ret, (free_fd fd (with_file fd f k2)).1)) h3
            (kept (with_file fd f k2) (free_fd fd (with_file fd f k2)).1
              (free_fd-Kept fd (with_file fd f k2)) h3)

      measured :
          (len : Option ℕ)
          → After P (do
            l ← len
            if usr_ptr_ok name l
                then (if fd == minus_one
                    then some (minus_one, k1)
                    else elim (kopen inb d ((get_current_pcb k1).f fd) (user_memory k1) name k1) [
                      | none ↦ none
                      | some (ret, f, k2) ↦
                          if ret == 0
                          then some (fd, with_file fd f k2)
                          else some (ret, (free_fd fd (with_file fd f k2)).1)
                    ])
                else some (minus_one, k))
      measured none = tt
      measured (some l) =
          After-either P (usr_ptr_ok name l) _ (some (minus_one, k))
            (After-either P (fd == minus_one) (some (minus_one, k1)) _ h1 (
              ended (kopen inb d ((get_current_pcb k1).f fd) (user_memory k1) name k1)
                (kopen-KeptFile inb d ((get_current_pcb k1).f fd) (user_memory k1) name k1)))
            h
