-- ===== src/Kernel/Halts.antt =====
-- The end of a process: what halt of student-distrib/syscall.S leaves behind.
use zbiggie.Prelude.{
  ℕ, ◌+◌, ◌≤◌, ◌<◌, ◌≡◌, ◌∙◌, refl, ap, sym, arith, false, Bool-cases, inl, inr, some, ◌==◌, ltb,
  leb, ◌&&◌, for_range_inv,
}
use zbiggie.Devices.{Ports}
use zbiggie.Kernel.{Kernel, Pcb, get_current_pcb, in_use, get_file, free_fd, switch_context}
use zbiggie.Kernel.Files.{syscall_close, free_current_pcb}
use zbiggie.Kernel.Exec.{Locals}
use zbiggie.Kernel.Scheduling.{switch_context_lem}
use zbiggie.Kernel.Syscall.{back, halt}

-- What closing the descriptors from 2 up to `i` leaves of `k`.
record Closed (k : Kernel) (i : ℕ) (k' : Kernel) : Type 0 where
  pub process : k'.current_process ≡ k.current_process
  pub parent : (get_current_pcb k').parent ≡ (get_current_pcb k).parent
  pub turn : k'.current_active_process ≡ k.current_active_process
  pub pages : k'.pages ≡ k.pages
  pub shut : (j : ℕ) → 2 ≤ j → j < i → j < 8 → in_use ((get_current_pcb k').f j) ≡ false

syscall_close-shut :
    (fd j : ℕ) (k : Kernel)
    → in_use ((get_current_pcb k).f j) ≡ false
    → in_use ((get_current_pcb (syscall_close fd k).1).f j) ≡ false
unfolding syscall_close get_file free_fd
syscall_close-shut fd j k free = ground arith

syscall_close_self :
    (fd : ℕ) (k : Kernel)
    → 2 ≤ fd
    → fd < 8
    → in_use ((get_current_pcb (syscall_close fd k).1).f fd) ≡ false
unfolding syscall_close get_file free_fd
syscall_close_self fd k lo hi = ground arith

syscall_close-Closed :
    (k : Kernel) (i : ℕ) (now : Kernel) → Closed k i now → Closed k (i + 1) (syscall_close i now).1
unfolding syscall_close get_file free_fd
syscall_close-Closed k i now c = record {
  process = ground (arith, c.process);
  parent = ground (arith, c.parent);
  turn = ground (arith, c.turn);
  pages = ground (arith, c.pages);
  shut = λ j lo lt hi. elim (Bool-cases (j == i)) [
    | inl e ↦
        let here : j ≡ i = ground arith in
        rw here (syscall_close_self i now (rw here at lo) (rw here at hi))
    | inr e ↦ syscall_close-shut i j now (c.shut j lo (ground arith) hi)
  ];
}

free_current_pcb-Closed :
    (k : Kernel)
    → Closed k 8 (free_current_pcb k) × ((get_current_pcb (free_current_pcb k)).present ≡ 0)
unfolding free_current_pcb
free_current_pcb-Closed k =
    let closed =
      for_range_inv (λ i (now : Kernel). Closed k i now) (λ i now. (syscall_close i now).1) 8 0 8 k
        (omega arith) (λ i now lo hi c. syscall_close-Closed k i now c)
        (record {
          process = refl;
          parent = refl;
          turn = refl;
          pages = refl;
          shut = λ j lo lt hi. absurd (omega arith);
        }) in
    (
      record {
        process = closed.process;
        parent = ground (arith, closed.parent);
        turn = closed.turn;
        pages = closed.pages;
        shut = λ j lo lt hi. (let s = closed.shut j lo lt hi in ground arith);
      },
      ground arith,
    )

switch_context-pcbs : (pid : ℕ) (k : Kernel) → (switch_context pid k).pcbs ≡ k.pcbs
unfolding switch_context
switch_context-pcbs pid k = refl

switch_context-pages : (pid : ℕ) (k : Kernel) → (switch_context pid k).pages ≡ k.pages
unfolding switch_context
switch_context-pages pid k = refl

module _ (inb : Ports → ℕ → ℕ) (interrupts : Kernel → Kernel) (v : Locals) where
  -- If process 4 or a later one calls halt, and its parent is one of the process numbers up to 10, the
  -- call comes back in the parent, with the status as its result: the parent runs, in its own
  -- directory, the block of the process that ended is free with its descriptors from 2 on closed, and
  -- no memory of any process has changed.
  pub halt_lem :
      (esp status : ℕ) (k : Kernel)
      → 4 ≤ k.current_process
      → (get_current_pcb k).parent < 11
      → k.current_active_process < 3
      → (k' : Kernel) × (halt inb interrupts v esp status k ≡ some (back status, k'))
        × (k'.current_process ≡ (get_current_pcb k).parent)
        × (k'.tables.cr3 ≡ (get_current_pcb k).parent)
        × ((k'.pcbs k.current_process).present ≡ 0)
        × ((j : ℕ) → (leb 2 j && ltb j 8 && in_use ((k'.pcbs k.current_process).f j)) ≡ false)
        × (k'.pages ≡ k.pages)
  unfolding halt
  halt_lem esp status k late family turn =
      let freed = free_current_pcb k in
      let (c, gone) = free_current_pcb-Closed k in
      let same = c.process in
      let low : ltb freed.current_process 4 ≡ false = ground arith in
      let runs =
        switch_context_lem (get_current_pcb freed).parent freed (rw c.parent family)
          (rw c.turn turn) in
      let k' = switch_context (get_current_pcb freed).parent freed in
      let blocks = switch_context-pcbs (get_current_pcb freed).parent freed in
      let pages = switch_context-pages (get_current_pcb freed).parent freed in
      let block : freed.pcbs k.current_process ≡ get_current_pcb freed = ap freed.pcbs (sym same) in
      let shut : (j : ℕ)
          → (leb 2 j && ltb j 8 && in_use ((freed.pcbs k.current_process).f j)) ≡ false =
        (λ j. elim (Bool-cases (leb 2 j && ltb j 8)) [
          | inl e ↦
              let s = c.shut j (ground arith) (ground arith) (ground arith) in
              rw e (ap (λ (p : Pcb). in_use (p.f j)) block ∙ s)
          | inr e ↦ ground arith
        ]) in
      (
        k',
        rw low refl,
        runs.0 ∙ c.parent,
        runs.1 ∙ c.parent,
        rw blocks (ap (λ (p : Pcb). p.present) block ∙ gone),
        rw blocks shut,
        pages ∙ c.pages,
      )
