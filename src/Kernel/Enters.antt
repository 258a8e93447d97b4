-- ===== src/Kernel/Enters.antt =====
-- A switch of the context, a process that starts and a program that is loaded leave a sound kernel.
use zbiggie.Prelude.{
  ℕ, ◌+◌, ◌*◌, ◌<◌, ◌≡◌, ◌∙◌, refl, arith, true, false, Bool-cases, inl, inr, ◌==◌, ◌&&◌, not, ltb,
  minus_one, update,
}
use zbiggie.Paging.{Tables, init_pd, set_vmem_table, set_cr3}
use zbiggie.Paging.Isolation.{init_pd-entries}
use zbiggie.Fs.{Optable}
use zbiggie.Kernel.{
  Kernel, Pcb, get_new_fd, find_free_pcb, scan_pcbs, switch_context, open_standard, start_process,
  setup_new_process, fresh_file,
}
use zbiggie.Kernel.Scheduling.{switch_context_lem}
use zbiggie.Kernel.Sound.{Ready, Sound, Kept, Kept-Kept, Kept-Sound, with_file-Kept}
use zbiggie.Kernel.Keeps.{get_new_fd-Kept, find_free_pcb-Kept}

-- The page directories are left as they are.
switch_context-directories :
    (pid : ℕ) (k : Kernel)
    → (switch_context pid k).tables.page_directories ≡ k.tables.page_directories
unfolding switch_context set_vmem_table set_cr3
switch_context-directories pid k = refl

pub switch_context-Sound :
    (pid : ℕ) (k : Kernel) → pid < 11 → Ready k → Sound (switch_context pid k)
unfolding switch_context set_cr3
switch_context-Sound pid k small r =
    let (process, directory, stack, screen) = switch_context_lem pid k small r.turn in
    let dirs = switch_context-directories pid k in
    record {
      ready = record {
        turn = r.turn;
        shown = r.shown;
        process = small;
        directory = refl;
        stack = stack;
        queue = r.queue;
        family = r.family;
        frames = λ p. rw dirs (r.frames p);
      };
      screen = screen;
    }

-- The kernel of start_process before the switch.
abbrev born_at : ℕ → Kernel → Kernel
born_at pid k =
    let pcb : Pcb = record {
      esp = 0;
      parent = k.current_process;
      cmdstring = λ i. 0;
      f = λ i. fresh_file;
      present = 1;
    } in
    record k { pcbs = update k.pcbs pid pcb; tables = init_pd pid k.tables }

init_pd-cr3 : (pid : ℕ) (s : Tables) → (init_pd pid s).cr3 ≡ s.cr3
unfolding init_pd
init_pd-cr3 pid s = refl

init_pd-others :
    (pid p : ℕ) (s : Tables)
    → (p == pid) ≡ false
    → (init_pd pid s).page_directories p ≡ s.page_directories p
unfolding init_pd
init_pd-others pid p s ne = rw ne refl

-- The frame of the program that starts, and those of the others.
born_at-frames :
    (pid p : ℕ) (k : Kernel)
    → pid < 11
    → Ready k
    → (ltb p 11
        && not (((born_at pid k).pcbs p).present == 0)
        && not ((born_at pid k).tables.page_directories p 32 == (p + 1) * 4194304 + 0x87))
      ≡ false
born_at-frames pid p k small r = elim (Bool-cases (p == pid)) [
  | inl e ↦
      let here : p ≡ pid = ground arith in
      let frame = init_pd-entries pid k.tables 32 small (omega arith) in
      rw here (ground (arith, frame))
  | inr e ↦
      let others = init_pd-others pid p k.tables e in
      let before = r.frames p in rw (others, e) before
]

born_at-Ready : (pid : ℕ) (k : Kernel) → pid < 11 → Ready k → Ready (born_at pid k)
born_at-Ready pid k small r =
    let parent = r.process in
    record {
      turn = r.turn;
      shown = r.shown;
      process = r.process;
      directory = init_pd-cr3 pid k.tables ∙ r.directory;
      stack = r.stack;
      queue = r.queue;
      family = λ p. (let f = r.family p in ground arith);
      frames = λ p. born_at-frames pid p k small r;
    }

start_process-Sound : (pid : ℕ) (k : Kernel) → pid < 11 → Ready k → Sound (start_process pid k)
unfolding start_process
start_process-Sound pid k small r =
    switch_context-Sound pid (born_at pid k) small (born_at-Ready pid k small r)

open_standard-Kept : (t : Optable) (k : Kernel) → Kept k (open_standard t k)
unfolding open_standard
open_standard-Kept t k =
    let k1 = (get_new_fd k).1 in
    Kept-Kept k k1 _ (get_new_fd-Kept k) (with_file-Kept (get_new_fd k).0 _ k1)

find_free_pcb-small :
    (k : Kernel) → ((find_free_pcb k).0 == minus_one) ≡ false → (find_free_pcb k).0 < 11
unfolding find_free_pcb
find_free_pcb-small k ok = elim (Bool-cases (ltb 10 (scan_pcbs 10 k.pcbs 1))) [
  | inl e ↦ absurd (ground arith)
  | inr e ↦ rw e (ground arith)
]

-- What holds behind setup_new_process, by its status.
abbrev pub SetUp : (Kernel → Type 0) → ℕ × Kernel → Type 0
SetUp P (status, k) = P k × ((status == 0) ≡ true → Sound k)

pub setup_new_process-SetUp :
    (P : Kernel → Type 0) (k : Kernel)
    → ((k k' : Kernel) → Kept k k' → P k → P k')
    → ((k : Kernel) → P k → Ready k)
    → ((k : Kernel) → Sound k → P k)
    → P k
    → SetUp P (setup_new_process k)
unfolding setup_new_process
setup_new_process-SetUp P k kept ready sound h =
    let k0 = (find_free_pcb k).1 in
    let h0 = kept k k0 (find_free_pcb-Kept k) h in
    elim (Bool-cases ((find_free_pcb k).0 == minus_one)) [
      | inl e ↦ rw e (h0, λ no. absurd (ground arith))
      | inr e ↦
          let started =
            start_process-Sound (find_free_pcb k).0 k0 (find_free_pcb-small k e) (ready k0 h0) in
          let s1 = start_process (find_free_pcb k).0 k0 in
          let s2 = open_standard Optable.ops_stdin s1 in
          let s3 = open_standard Optable.ops_stdout s2 in
          let done =
            Kept-Sound s2 s3 (open_standard-Kept Optable.ops_stdout s2)
              (Kept-Sound s1 s2 (open_standard-Kept Optable.ops_stdin s1) started) in
          rw e (sound s3 done, λ yes'. done)
    ]
