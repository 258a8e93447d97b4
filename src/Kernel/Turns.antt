-- ===== src/Kernel/Turns.antt =====
-- The run queue over several ticks of the timer: each of three processes gets its turn.
use zbiggie.Prelude.{
  ℕ, ◌+◌, ◌%◌, ◌<◌, ◌≡◌, ◌≢◌, ◌∙◌, refl, ap, arith, true, false, ◌==◌, if◌then◌else◌,
}
use zbiggie.Kernel.{
  Kernel, save_queue, incr_current_active_process, get_next_task_pid, get_current_task_pid,
  switch_context,
}
use zbiggie.Kernel.Exec.{task, next_task}
use zbiggie.Kernel.Scheduling.{next_task_lem}

next_task-processes :
    (esp : ℕ) (k : Kernel) (j : ℕ)
    → k.current_active_process < 3
    → (next_task esp k).1.processes j
      ≡ (if j == k.current_active_process then k.current_process else k.processes j)
unfolding next_task save_queue incr_current_active_process get_next_task_pid get_current_task_pid
    switch_context
next_task-processes esp k j active = ground arith

next_task-esp :
    (esp : ℕ) (k : Kernel) (q : ℕ)
    → k.current_active_process < 3
    → ((next_task esp k).1.pcbs q).esp ≡ (if q == k.current_process then esp else (k.pcbs q).esp)
unfolding next_task save_queue incr_current_active_process get_next_task_pid get_current_task_pid
    switch_context
next_task-esp esp k q active = ground arith

-- A tick that gives the turn to process `p`, with the queue and the stack pointers behind it.
record Tick (k : Kernel) (esp p : ℕ) (k' : Kernel) : Type 0 where
  pub turn : k'.current_active_process ≡ (k.current_active_process + 1) % 3
  pub runs : k'.current_process ≡ p
  pub queue :
      (j : ℕ)
      → k'.processes j
        ≡ (if j == k.current_active_process then k.current_process else k.processes j)
  pub stacks : (q : ℕ) → (k'.pcbs q).esp ≡ (if q == k.current_process then esp else (k.pcbs q).esp)

next_task-Tick :
    (esp : ℕ) (k : Kernel) (p : ℕ)
    → k.current_active_process < 3
    → k.processes ((k.current_active_process + 1) % 3) ≡ p
    → p ≢ 0
    → ((next_task esp k).0 ≡ task) × Tick k esp p (next_task esp k).1
next_task-Tick esp k p active queued there =
    let (turn, saved, stack, resume, runs) = next_task_lem esp k active in
    let some' : (k.processes ((k.current_active_process + 1) % 3) == 0) ≡ false =
      rw queued (ground (arith, there)) in
    (
      resume ∙ rw some' refl,
      record {
        turn = turn;
        runs = runs ∙ rw some' queued;
        queue = λ j. next_task-processes esp k j active;
        stacks = λ q. next_task-esp esp k q active;
      },
    )

-- If three different processes are there, one of them running and the other two in the places behind
-- its own in the queue, then three ticks of the timer run the other two in that order and then the
-- first again, with the stack pointer that it had.
pub next_task-next_task :
    (e0 e1 e2 : ℕ) (k : Kernel) (p1 p2 : ℕ)
    → k.current_active_process < 3
    → k.processes ((k.current_active_process + 1) % 3) ≡ p1
    → k.processes ((k.current_active_process + 2) % 3) ≡ p2
    → k.current_process ≢ 0
    → p1 ≢ 0
    → p2 ≢ 0
    → k.current_process ≢ p1
    → k.current_process ≢ p2
    → let (r1, k1) = next_task e0 k in
      let (r2, k2) = next_task e1 k1 in
      let (r3, k3) = next_task e2 k2 in
      (k1.current_process ≡ p1)
      × (k2.current_process ≡ p2)
      × (k3.current_process ≡ k.current_process)
      × ((k3.pcbs k.current_process).esp ≡ e0)
      × (r3 ≡ task)
next_task-next_task e0 e1 e2 k p1 p2 active q1 q2 n0 n1 n2 d1 d2 =
    let c = k.current_active_process in
    let p = k.current_process in
    let k1 = (next_task e0 k).1 in
    let k2 = (next_task e1 k1).1 in
    let (r1, t1) = next_task-Tick e0 k p1 active q1 n1 in
    let a1 = t1.turn in
    let second : (k1.current_active_process + 1) % 3 ≡ (c + 2) % 3 = omega arith in
    let off : ((c + 2) % 3 == c) ≡ false = ground arith in
    let queued2 : k1.processes ((k1.current_active_process + 1) % 3) ≡ p2 =
      ap k1.processes second ∙ t1.queue ((c + 2) % 3) ∙ rw off q2 in
    let (r2, t2) = next_task-Tick e1 k1 p2 (omega arith) queued2 n2 in
    let a2 = t2.turn in
    let third : (k2.current_active_process + 1) % 3 ≡ c = omega arith in
    let moved : (c == k1.current_active_process) ≡ false = ground (arith, a1) in
    let own : (c == c) ≡ true = ground arith in
    let queued3 : k2.processes ((k2.current_active_process + 1) % 3) ≡ p =
      ap k2.processes third ∙ t2.queue c ∙ rw moved (t1.queue c ∙ rw own refl) in
    let (r3, t3) = next_task-Tick e2 k2 p (omega arith) queued3 n0 in
    let runs1 = t1.runs in
    let runs2 = t2.runs in
    let not2 : (p == k2.current_process) ≡ false = rw runs2 (ground (arith, d2)) in
    let not1 : (p == k1.current_process) ≡ false = rw runs1 (ground (arith, d1)) in
    let self : (p == p) ≡ true = ground arith in
    (
      runs1,
      runs2,
      t3.runs,
      t3.stacks p ∙ rw not2 (t2.stacks p ∙ rw not1 (t1.stacks p ∙ rw self refl)),
      r3,
    )
