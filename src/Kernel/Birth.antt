-- ===== src/Kernel/Birth.antt =====
-- The process that setup_new_process makes.
use zbiggie.Prelude.{
  ℕ, ◌<◌, ◌≡◌, ◌≢◌, ◌∙◌, refl, arith, true, false, ◌==◌, ◌||◌, Bool-cases, inl, inr, minus_one,
}
use zbiggie.Fs.{Optable, ops_stdin, ops_stdout}
use zbiggie.Kernel.{
  Kernel, in_use, setup_new_process, start_process, open_standard, switch_context, fresh_file,
  get_current_pcb,
}
use zbiggie.Kernel.Descriptors.{get_new_fd-first}
use zbiggie.Kernel.Scheduling.{find_free_pcb-first}

-- `k'` is `k` but for one descriptor of the process that runs, which is open on a terminal.
record Opened (table : Optable) (fd : ℕ) (k k' : Kernel) : Type 0 where
  same : k'.current_process ≡ k.current_process
  present : (get_current_pcb k').present ≡ (get_current_pcb k).present
  parent : (get_current_pcb k').parent ≡ (get_current_pcb k).parent
  opened : ((get_current_pcb k').f fd).optable ≡ table
  used : in_use ((get_current_pcb k').f fd) ≡ true
  others : (j : ℕ) → j ≢ fd → (get_current_pcb k').f j ≡ (get_current_pcb k).f j
  blocks : (q : ℕ) → q ≢ k.current_process → k'.pcbs q ≡ k.pcbs q

open_standard-Opened :
    (table : Optable) (k : Kernel) (fd : ℕ)
    → fd < 8
    → in_use ((get_current_pcb k).f fd) ≡ false
    → ((j : ℕ) → j < fd → in_use ((get_current_pcb k).f j) ≡ true)
    → Opened table fd k (open_standard table k)
unfolding open_standard
open_standard-Opened table k fd lt free before = rw (get_new_fd-first k fd lt free before) (record {
  same = refl;
  present = ground arith;
  parent = ground arith;
  opened = ground arith;
  used = ground arith;
  others = λ j ne. ground arith;
  blocks = λ q ne. ground arith;
})

-- Behind the start of a process it runs, with a block of its own and no open descriptor.
start_process_lem :
    (pid : ℕ) (k : Kernel)
    → let s = start_process pid k in
      (s.current_process ≡ pid)
      × ((s.pcbs pid).present ≡ 1)
      × ((s.pcbs pid).parent ≡ k.current_process)
      × ((fd : ℕ) → in_use ((s.pcbs pid).f fd) ≡ false)
      × ((q : ℕ) → q ≢ pid → s.pcbs q ≡ k.pcbs q)
unfolding start_process switch_context fresh_file
start_process_lem pid k =
    (refl, ground arith, ground arith, λ fd. ground arith, λ q ne. ground arith)

-- What two openings leave of the process that runs.
Opened-Opened :
    (pid : ℕ) (s s1 s2 : Kernel)
    → s.current_process ≡ pid
    → Opened ops_stdin 0 s s1
    → Opened ops_stdout 1 s1 s2
    → ((fd : ℕ) → in_use ((s.pcbs pid).f fd) ≡ false)
    → (s2.current_process ≡ pid)
      × ((s2.pcbs pid).present ≡ (s.pcbs pid).present)
      × ((s2.pcbs pid).parent ≡ (s.pcbs pid).parent)
      × (((s2.pcbs pid).f 0).optable ≡ ops_stdin)
      × (((s2.pcbs pid).f 1).optable ≡ ops_stdout)
      × ((fd : ℕ) → in_use ((s2.pcbs pid).f fd) ≡ (fd == 0 || fd == 1))
      × ((q : ℕ) → q ≢ pid → s2.pcbs q ≡ s.pcbs q)
Opened-Opened pid s s1 s2 runs o1 o2 closed =
    let runs1 : s1.current_process ≡ pid = o1.same ∙ runs in
    let runs2 : s2.current_process ≡ pid = o2.same ∙ runs1 in
    let p1 : (s1.pcbs pid).present ≡ (s.pcbs pid).present = rw (runs1, runs) at o1.present in
    let p2 : (s2.pcbs pid).present ≡ (s1.pcbs pid).present = rw (runs2, runs1) at o2.present in
    let q1 : (s1.pcbs pid).parent ≡ (s.pcbs pid).parent = rw (runs1, runs) at o1.parent in
    let q2 : (s2.pcbs pid).parent ≡ (s1.pcbs pid).parent = rw (runs2, runs1) at o2.parent in
    let t1 : ((s1.pcbs pid).f 0).optable ≡ ops_stdin = rw runs1 at o1.opened in
    let t2 : ((s2.pcbs pid).f 1).optable ≡ ops_stdout = rw runs2 at o2.opened in
    let u1 : in_use ((s1.pcbs pid).f 0) ≡ true = rw runs1 at o1.used in
    let u2 : in_use ((s2.pcbs pid).f 1) ≡ true = rw runs2 at o2.used in
    let same1 : (j : ℕ) → j ≢ 0 → (s1.pcbs pid).f j ≡ (s.pcbs pid).f j =
      rw (runs1, runs) at o1.others in
    let same2 : (j : ℕ) → j ≢ 1 → (s2.pcbs pid).f j ≡ (s1.pcbs pid).f j =
      rw (runs2, runs1) at o2.others in
    let zero_one : (s2.pcbs pid).f 0 ≡ (s1.pcbs pid).f 0 = same2 0 (omega arith) in
    (
      runs2,
      p2 ∙ p1,
      q2 ∙ q1,
      rw zero_one t1,
      t2,
      λ fd. elim (Bool-cases (fd == 0)) [
        | inl e ↦ (let z : fd ≡ 0 = ground arith in rw (z, zero_one) u1)
        | inr e ↦ elim (Bool-cases (fd == 1)) [
          | inl e1 ↦ (let z : fd ≡ 1 = ground arith in rw z u2)
          | inr e1 ↦ rw (same2 fd (ground arith), same1 fd (ground arith), e, e1) (closed fd)
        ]
      ],
      λ q ne. o2.blocks q (rw runs1 ne) ∙ o1.blocks q (rw runs ne),
    )

standard_files :
    (pid : ℕ) (s : Kernel)
    → s.current_process ≡ pid
    → ((fd : ℕ) → in_use ((s.pcbs pid).f fd) ≡ false)
    → Opened ops_stdin 0 s (open_standard ops_stdin s)
      × Opened ops_stdout 1
          (open_standard ops_stdin s)
          (open_standard ops_stdout (open_standard ops_stdin s))
standard_files pid s runs closed =
    let o1 : Opened ops_stdin 0 s (open_standard ops_stdin s) =
      open_standard-Opened ops_stdin s 0 (omega arith) (rw runs (closed 0))
        (λ j lt. absurd (omega arith)) in
    (
      o1,
      open_standard-Opened ops_stdout (open_standard ops_stdin s) 1 (omega arith)
          (rw (o1.others 1 (omega arith)) (rw runs (closed 1)))
          (λ j lt. (let z : j ≡ 0 = omega arith in rw z o1.used)),
    )

-- With the process number `pid` the lowest free one, setup_new_process succeeds: that process runs, its
-- parent is the one that ran, its descriptors 0 and 1 are in use for the standard input and output, its
-- others are not in use, and no block of another process has changed.
pub setup_new_process_lem :
    (k : Kernel) (pid : ℕ)
    → 0 < pid
    → pid < 11
    → (k.pcbs pid).present ≡ 0
    → ((j : ℕ) → 0 < j → j < pid → (k.pcbs j).present ≢ 0)
    → let (status, k') = setup_new_process k in
      (status ≡ 0)
      × (k'.current_process ≡ pid)
      × ((k'.pcbs pid).present ≡ 1)
      × ((k'.pcbs pid).parent ≡ k.current_process)
      × (((k'.pcbs pid).f 0).optable ≡ ops_stdin)
      × (((k'.pcbs pid).f 1).optable ≡ ops_stdout)
      × ((fd : ℕ) → in_use ((k'.pcbs pid).f fd) ≡ (fd == 0 || fd == 1))
      × ((q : ℕ) → q ≢ pid → k'.pcbs q ≡ k.pcbs q)
unfolding setup_new_process
setup_new_process_lem k pid lo hi free before =
    let real : pid == minus_one ≡ false = ground arith in
    let s = start_process pid k in
    let (runs, present, parent, closed, others) = start_process_lem pid k in
    let (o1, o2) = standard_files pid s runs closed in
    let (runs2, present2, parent2, in0, out1, used, others2) =
      Opened-Opened pid s (open_standard ops_stdin s)
        (open_standard ops_stdout (open_standard ops_stdin s)) runs o1 o2 closed in
    rw (find_free_pcb-first k pid lo hi free before, real)
      (
        refl,
        runs2,
        present2 ∙ present,
        parent2 ∙ parent,
        in0,
        out1,
        used,
        λ q ne. others2 q ne ∙ others q ne,
      )
