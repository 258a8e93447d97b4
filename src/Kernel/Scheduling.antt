-- ===== src/Kernel/Scheduling.antt =====
-- The processes: which block find_free_pcb finds, what a switch of the context leaves, and the turns
-- of the run queue.
use Prim.Native.Nat.{bit_or}
use zbiggie.Prelude.{
  ℕ, zero, suc, ◌+◌, ◌*◌, ◌%◌, ◌≤◌, ◌<◌, ◌≡◌, ◌≢◌, refl, arith, true, false, Bool-cases, inl, inr,
  ◌==◌, ltb, if◌then◌else◌, all_below, all_below_sound, ==_iff,
}
use zbiggie.Console.{video_mem}
use zbiggie.Paging.{buffer_page, set_vmem_table, set_cr3}
use zbiggie.Kernel.{
  Kernel, Pcb, scan_pcbs, find_free_pcb, window_page, switch_context, save_queue,
  incr_current_active_process, get_next_task_pid, get_current_task_pid,
}
use zbiggie.Kernel.Exec.{next_task, task, shell}

scan_pcbs-first :
    (r : ℕ) (pcbs : ℕ → Pcb) (i k : ℕ)
    → i ≤ k
    → k < i + r
    → (pcbs k).present ≡ 0
    → ((j : ℕ) → i ≤ j → j < k → (pcbs j).present ≢ 0)
    → scan_pcbs r pcbs i ≡ k
unfolding scan_pcbs
scan_pcbs-first zero pcbs i k le lt free before = absurd (omega arith)
scan_pcbs-first (suc r) pcbs i k le lt free before = elim (Bool-cases (i == k)) [
  | inl e ↦ let e' : i ≡ k = ground arith in rw e' (rw free)
  | inr ne ↦
      let busy : ((pcbs i).present == 0) ≡ false =
        (let b : (pcbs i).present ≢ 0 = before i (omega arith) (ground arith) in ground arith) in
      rw busy (
        scan_pcbs-first r pcbs (i + 1) k (ground arith) (omega arith) free
          (λ j lo hi. before j (omega arith) hi))
]

-- find_free_pcb returns the lowest process number from 1 to 10 whose block is free, and changes
-- nothing.
pub find_free_pcb-first :
    (k : Kernel) (pid : ℕ)
    → 0 < pid
    → pid < 11
    → (k.pcbs pid).present ≡ 0
    → ((j : ℕ) → 0 < j → j < pid → (k.pcbs j).present ≢ 0)
    → find_free_pcb k ≡ (pid, k)
unfolding find_free_pcb
find_free_pcb-first k pid lo hi free before =
    let e : scan_pcbs 10 k.pcbs 1 ≡ pid =
      scan_pcbs-first 10 k.pcbs 1 pid (omega arith) (omega arith) free
        (λ j l h. before j (omega arith) h) in
    let in_range : ltb 10 pid ≡ false = ground arith in rw (e, in_range)

page_table : all_below 3 (λ t. window_page (bit_or (buffer_page t) 7) == buffer_page t) ≡ true
unfolding all_below
page_table = refl

window_page-buffer : (t : ℕ) → t < 3 → window_page (bit_or (buffer_page t) 7) ≡ buffer_page t
window_page-buffer t h = (==_iff _ _).0 (all_below_sound 3 _ t page_table h)

-- Behind switch_context to one of the process numbers up to 10, that process runs, in its own
-- directory and on its own 8 KB kernel stack, and what it prints goes to the screen if the terminal
-- whose turn it is, one of three, is the one shown, and to the terminal's own page if not.
pub switch_context_lem :
    (pid : ℕ) (k : Kernel)
    → pid < 11
    → k.current_active_process < 3
    → let k' = switch_context pid k in
      (k'.current_process ≡ pid)
      × (k'.tables.cr3 ≡ pid)
      × (k'.esp0 + pid * 8192 ≡ 8388608)
      × (k'.mapped ≡ (
          if k.current_terminal == k.current_active_process
          then video_mem
          else buffer_page k.current_active_process))
unfolding switch_context set_vmem_table set_cr3
switch_context_lem pid k small active = (refl, refl, omega arith, mapping)
  where
    mapping : (switch_context pid k).mapped ≡ (
        if k.current_terminal == k.current_active_process
        then video_mem
        else buffer_page k.current_active_process)
    mapping = elim (Bool-cases (k.current_terminal == k.current_active_process)) [
      | inl e ↦ rw e
      | inr e ↦ rw e (window_page-buffer k.current_active_process active)
    ]

-- A tick of the timer keeps the process that ran, with its stack pointer, in the queue, and gives the
-- turn to the next of the three: to a first shell where the queue has no process yet, else to the
-- process that is queued there.
pub next_task_lem :
    (esp : ℕ) (k : Kernel)
    → k.current_active_process < 3
    → let (resume, k') = next_task esp k in
      let turn = (k.current_active_process + 1) % 3 in
      (k'.current_active_process ≡ turn)
      × (k'.processes k.current_active_process ≡ k.current_process)
      × ((k'.pcbs k.current_process).esp ≡ esp)
      × (resume ≡ (if k.processes turn == 0 then shell else task))
      × (k'.current_process
          ≡ (if k.processes turn == 0 then k.current_process else k.processes turn))
unfolding next_task save_queue incr_current_active_process get_next_task_pid get_current_task_pid
    switch_context
next_task_lem esp k active =
    let turn = (k.current_active_process + 1) % 3 in
    let other : turn ≢ k.current_active_process = omega arith in
    (ground arith, ground arith, ground arith, ground arith, ground arith)
