-- ===== src/Kernel/Loads.antt =====
-- The loader leaves a sound kernel if it gives an entry point, and keeps what holds if it does not.
use Prim.{tt}
use zbiggie.Prelude.{
  ℕ, ◌+◌, ◌≡◌, refl, arith, Bool, true, false, Bool-cases, inl, inr, ◌==◌, ◌||◌, not, if◌then◌else◌,
  Option, none, some, minus_one, Bytes, update, load32, ◌>>=◌,
}
use zbiggie.Text.{strncpy}
use zbiggie.Block.{memcpy}
use zbiggie.Terminal.{Terminal}
use zbiggie.Terminal.Places.{StaysIf}
use zbiggie.Terminal.History.{save_hist}
use zbiggie.Terminal.History.Keeps.{save_hist-Stays}
use zbiggie.Fs.{Dentry, File, ftype_regular, read_dentry_by_name}
use zbiggie.Devices.{Ports}
use zbiggie.Kernel.{Kernel, Pcb, with_memory, user_memory, get_current_pcb, setup_new_process}
use zbiggie.Kernel.Files.{kopen, kread}
use zbiggie.Kernel.Exec.{Locals, load_addr, parse_input, kload_exec_to_mem, load_exec_to_mem}
use zbiggie.Kernel.Sound.{Ready, Sound, Kept, with_terminal-Kept, Kept-Sound}
use zbiggie.Kernel.Keeps.{KeptFile, kopen-KeptFile}
use zbiggie.Kernel.Between.{AfterRead, kread-After}
use zbiggie.Kernel.Enters.{SetUp, setup_new_process-SetUp}

-- Behind a loader: P in any case, and a sound kernel where it gives an entry point.
abbrev pub Enters : (Kernel → Type 0) → Option (ℕ × Kernel) → Type 0
Enters P none = Unit
Enters P (some (e, k)) = P k × ((e == minus_one || e == 1) ≡ false → Sound k)

Enters-either :
    (P : Kernel → Type 0) (b : Bool) (r r' : Option (ℕ × Kernel))
    → Enters P r
    → Enters P r'
    → Enters P (if b then r else r')
Enters-either P true r r' h h' = h
Enters-either P false r r' h h' = h'

loaded-Kept :
    (m args : Bytes) (k : Kernel)
    → let pcb = get_current_pcb k in
      let loaded : Pcb = record pcb { cmdstring = strncpy pcb.cmdstring 0 args 0 128 } in
      Kept k (record (with_memory m k) { pcbs = update k.pcbs k.current_process loaded })
loaded-Kept m args k = record {
  place = record { shown = refl; turn = refl; page = refl };
  process = refl;
  tables = refl;
  stack = refl;
  queue = refl;
  family = λ p. ground arith;
  alive = λ p. ground arith;
}

module _ (P : Kernel → Type 0) (kept : (k k' : Kernel) → Kept k k' → P k → P k')
    (ready : (k : Kernel) → P k → Ready k) (sound : (k : Kernel) → Sound k → P k)
    (interrupts : Kernel → Kernel) (rely : (k : Kernel) → P k → P (interrupts k))
    (rely_sound : (k : Kernel) → Sound k → Sound (interrupts k)) where
  -- The last read and the command line.
  filled :
      (args : Bytes) (r : Option (ℕ × File × Bytes × Kernel))
      → AfterRead Sound r
      → Enters P (do
        (n', f2, m', k4) ← r
        let pcb = get_current_pcb k4
        let loaded = record pcb { cmdstring = strncpy pcb.cmdstring 0 args 0 128 }
        some (
          load32 m' (load_addr + 24),
          record (with_memory m' k4) { pcbs = update k4.pcbs k4.current_process loaded },
        ))
  filled args none h = tt
  filled args (some (n, f, m, k)) h =
      let s = Kept-Sound k _ (loaded-Kept m args k) h in (sound _ s, λ entry. s)

  -- The start of the process, with the header that was read.
  started :
      (d : Dentry) (f : File) (args buf : Bytes) (k2 : Kernel) (r : ℕ × Kernel)
      → P k2
      → SetUp P r
      → Enters P (
          let (status, k3) = r in
          if not (load32 buf 0 == 0x464c457f)
          then some (minus_one, k2)
          else (if not (status == 0) then some (1, k3) else (do
            let m = memcpy (user_memory k3) load_addr buf 0 28
            (n', f2, m', k4) ← kread interrupts d f m (load_addr + 28) 3899392 k3
            let pcb = get_current_pcb k4
            let loaded = record pcb { cmdstring = strncpy pcb.cmdstring 0 args 0 128 }
            some (
              load32 m' (load_addr + 24),
              record (with_memory m' k4) { pcbs = update k4.pcbs k4.current_process loaded },
            ))))
  started d f args buf k2 (status, k3) h (h3, s3) =
      let m = memcpy (user_memory k3) load_addr buf 0 28 in
      elim (Bool-cases (status == 0)) [
        | inl e ↦ rw e (
            Enters-either P (not (load32 buf 0 == 0x464c457f)) (some (minus_one, k2)) _
              (h, λ no. absurd (ground arith))
              (filled args (kread interrupts d f m (load_addr + 28) 3899392 k3) (
                kread-After Sound Kept-Sound interrupts rely_sound d f m (load_addr + 28) 3899392 k3
                  (s3 e))))
        | inr e ↦ rw e (
            Enters-either P (not (load32 buf 0 == 0x464c457f)) (some (minus_one, k2)) (some (1, k3))
              (h, λ no. absurd (ground arith)) (h3, λ no. absurd (ground arith)))
      ]

  -- The read of the header.
  headed :
      (d : Dentry) (f : File) (args : Bytes) (r : Option (ℕ × File × Bytes × Kernel))
      → AfterRead P r
      → Enters P (do
        (n, f1, buf, k2) ← r
        let (status, k3) = setup_new_process k2
        if not (load32 buf 0 == 0x464c457f)
            then some (minus_one, k2)
            else (if not (status == 0) then some (1, k3) else (do
              let m = memcpy (user_memory k3) load_addr buf 0 28
              (n', f2, m', k4) ← kread interrupts d f1 m (load_addr + 28) 3899392 k3
              let pcb = get_current_pcb k4
              let loaded = record pcb { cmdstring = strncpy pcb.cmdstring 0 args 0 128 }
              some (
                load32 m' (load_addr + 24),
                record (with_memory m' k4) { pcbs = update k4.pcbs k4.current_process loaded },
              ))))
  headed d f args none h = tt
  headed d f args (some (n, f1, buf, k2)) h =
      started d f1 args buf k2 (setup_new_process k2) h
        (setup_new_process-SetUp P k2 kept ready sound h)

  -- The opening of the file.
  opened :
      (v : Locals) (args : Bytes) (k : Kernel) (r : Option (ℕ × File × Kernel))
      → P k
      → KeptFile k r
      → Enters P (do
        (ret, f, k1) ← r
        if not (ret == 0) then some (minus_one, k1) else (do
          (n, f1, buf, k2) ← kread interrupts v.d f v.buf 0 28 k1
          let (status, k3) = setup_new_process k2
          if not (load32 buf 0 == 0x464c457f)
              then some (minus_one, k2)
              else (if not (status == 0) then some (1, k3) else (do
                let m = memcpy (user_memory k3) load_addr buf 0 28
                (n', f2, m', k4) ← kread interrupts v.d f1 m (load_addr + 28) 3899392 k3
                let pcb = get_current_pcb k4
                let loaded = record pcb { cmdstring = strncpy pcb.cmdstring 0 args 0 128 }
                some (
                  load32 m' (load_addr + 24),
                  record (with_memory m' k4) { pcbs = update k4.pcbs k4.current_process loaded },
                )))))
  opened v args k none h a = tt
  opened v args k (some (ret, f, k1)) h a =
      let h1 = kept k k1 a h in
      Enters-either P (not (ret == 0)) (some (minus_one, k1)) _ (h1, λ no. absurd (ground arith))
        (headed v.d f args (kread interrupts v.d f v.buf 0 28 k1)
          (kread-After P kept interrupts rely v.d f v.buf 0 28 k1 h1))

  parsed :
      (inb : Ports → ℕ → ℕ) (v : Locals) (k : Kernel) (r : Option (Bytes × Bytes))
      → P k
      → Enters P (do
        (exec, args) ← r
        let d = (read_dentry_by_name k.volume exec 0 v.d).1
        if not (d.ftype == ftype_regular) then some (minus_one, k) else (do
          (ret, f, k1) ← kopen inb v.d v.f exec 0 k
          if not (ret == 0) then some (minus_one, k1) else (do
            (n, f1, buf, k2) ← kread interrupts v.d f v.buf 0 28 k1
            let (status, k3) = setup_new_process k2
            if not (load32 buf 0 == 0x464c457f)
                then some (minus_one, k2)
                else (if not (status == 0) then some (1, k3) else (do
                  let m = memcpy (user_memory k3) load_addr buf 0 28
                  (n', f2, m', k4) ← kread interrupts v.d f1 m (load_addr + 28) 3899392 k3
                  let pcb = get_current_pcb k4
                  let loaded = record pcb { cmdstring = strncpy pcb.cmdstring 0 args 0 128 }
                  some (
                    load32 m' (load_addr + 24),
                    record (with_memory m' k4) { pcbs = update k4.pcbs k4.current_process loaded },
                  ))))))
  parsed inb v k none h = tt
  parsed inb v k (some (exec, args)) h =
      Enters-either P (not ((read_dentry_by_name k.volume exec 0 v.d).1.ftype == ftype_regular))
        (some (minus_one, k)) _ (h, λ no. absurd (ground arith))
        (opened v args k (kopen inb v.d v.f exec 0 k) h (kopen-KeptFile inb v.d v.f exec 0 k))

  pub kload_exec_to_mem-Enters :
      (inb : Ports → ℕ → ℕ) (v : Locals) (input : Bytes) (k : Kernel)
      → P k
      → Enters P (kload_exec_to_mem inb interrupts v input k)
  unfolding kload_exec_to_mem
  kload_exec_to_mem-Enters inb v input k h = parsed inb v k (parse_input input v.exec v.args 128) h

  pub load_exec_to_mem-Enters :
      (inb : Ports → ℕ → ℕ) (v : Locals) (fname : ℕ) (k : Kernel)
      → P k
      → Enters P (load_exec_to_mem inb interrupts v fname k)
  unfolding load_exec_to_mem
  load_exec_to_mem-Enters inb v fname k h =
      kept_line (save_hist (user_memory k) fname k.terminal)
        (save_hist-Stays (user_memory k) fname k.terminal)
    where
      kept_line :
          (r : Option Terminal)
          → StaysIf k.terminal r
          → Enters P (do
            terminal ← r
            kload_exec_to_mem inb interrupts v
                (λ i. user_memory k (fname + i))
                (record k { terminal = terminal }))
      kept_line none s = tt
      kept_line (some t) s =
          kload_exec_to_mem-Enters inb v (λ i. user_memory k (fname + i))
            (record k { terminal = t })
            (kept k (record k { terminal = t }) (with_terminal-Kept (λ x. t) k s) h)
