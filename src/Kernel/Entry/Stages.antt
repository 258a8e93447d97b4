-- ===== src/Kernel/Entry/Stages.antt =====
-- The kernel that entry sets up, stage by stage: the static data, the page tables, the blocks.
use zbiggie.Prelude.{
  ℕ, ◌≡◌, ◌<◌, ◌∙◌, refl, sym, arith, false, ◌&&◌, not, ◌==◌, ltb, update, for_range_inv,
}
use zbiggie.Console.{Console, video_mem}
use zbiggie.Console.Places.{Placed}
use zbiggie.Terminal.{term_clear}
use zbiggie.Terminal.Places.{term_clear-Stays}
use zbiggie.Paging.{init_tables, set_vmem_table}
use zbiggie.Devices.{Ports}
use zbiggie.Kernel.{Kernel, Pcb, with_console, with_terminal, init_pcbs, remap_video}
use zbiggie.Kernel.Boot.{init_paging, color_page, zbigfs_mount}
use zbiggie.Kernel.Sound.{Sound, Kept-Sound, with_terminal-Kept}
use zbiggie.Kernel.Entry.{Machine, set_up}

-- The static data of tasking.c and terminal.c as the program is loaded, and a parent's number in the
-- memory of each block.
pub record Loaded (k : Kernel) : Type 0 where
  pub turn : k.current_active_process ≡ 0
  pub shown : k.current_terminal ≡ 0
  pub process : k.current_process ≡ 0
  pub queue : (j : ℕ) → k.processes j ≡ 0
  pub family : (p : ℕ) → (k.pcbs p).parent < 11

-- The same with the registers that init_paging sets.
pub record Paged (k : Kernel) : Type 0 where
  loaded : Loaded k
  directory : k.tables.cr3 ≡ 0
  page : k.mapped ≡ video_mem

pub Loaded-Placed :
    (c : Console) (k : Kernel) → Placed k.console c → Loaded k → Loaded (with_console (λ _. c) k)
Loaded-Placed c k p h = record {
  turn = p.turn ∙ h.turn;
  shown = p.shown ∙ h.shown;
  process = h.process;
  queue = h.queue;
  family = h.family;
}

-- init_paging colors three pages and maps the video page at each.
color_page-Loaded :
    (i : ℕ) (k : Kernel)
    → Loaded k
    → Loaded (with_console (λ c. record c { video = color_page i c.video }) (remap_video i k))
unfolding remap_video
color_page-Loaded i k h = record {
  turn = h.turn;
  shown = h.shown;
  process = h.process;
  queue = h.queue;
  family = h.family;
}

-- What the coloring keeps.
record Colored (e : ℕ) (k : Kernel) : Type 0 where
  loaded : Loaded k
  directory : k.tables.cr3 ≡ 0
  stack : k.esp0 ≡ e

color_page-Colored :
    (e i : ℕ) (k : Kernel)
    → Colored e k
    → Colored e (with_console (λ c. record c { video = color_page i c.video }) (remap_video i k))
unfolding remap_video set_vmem_table
color_page-Colored e i k h = record {
  loaded = color_page-Loaded i k h.loaded;
  directory = h.directory;
  stack = h.stack;
}

remap_video-shown :
    (e : ℕ) (k : Kernel) → Colored e k → Paged (remap_video 0 k) × ((remap_video 0 k).esp0 ≡ e)
unfolding remap_video set_vmem_table
remap_video-shown e k h =
    let shown = h.loaded.shown in
    (
      record {
        loaded = record {
          turn = h.loaded.turn;
          shown = shown;
          process = h.loaded.process;
          queue = h.loaded.queue;
          family = h.loaded.family;
        };
        directory = h.directory;
        page = rw shown refl;
      },
      h.stack,
    )

pub init_paging-Paged :
    (k : Kernel) → Loaded k → Paged (init_paging k) × ((init_paging k).esp0 ≡ k.esp0)
unfolding init_paging init_tables
init_paging-Paged k h = remap_video-shown k.esp0 _ (
    for_range_inv (λ i (t : Kernel). Colored k.esp0 t)
      (λ i s. with_console (λ c. record c { video = color_page i c.video }) (remap_video i s)) 3 0 3
      (record k { tables = init_tables k.tables }) (omega arith)
      (λ i t lo hi c. color_page-Colored k.esp0 i t c)
      (record {
        loaded = record {
          turn = h.turn;
          shown = h.shown;
          process = h.process;
          queue = h.queue;
          family = h.family;
        };
        directory = refl;
        stack = refl;
      }))

-- A block behind the rounds below `l`.
record Freed (k : Kernel) (l : ℕ) (pcbs : ℕ → Pcb) : Type 0 where
  absent : (p : ℕ) → (ltb p l && not ((pcbs p).present == 0)) ≡ false
  family : (p : ℕ) → (pcbs p).parent ≡ (k.pcbs p).parent
  alive : (p : ℕ) → (not ((pcbs p).present == 0) && ((k.pcbs p).present == 0)) ≡ false

init_pcbs-Freed : (k : Kernel) → Freed k 11 (init_pcbs k).pcbs
unfolding init_pcbs
init_pcbs-Freed k =
    for_range_inv (λ l pcbs. Freed k l pcbs)
      (λ i pcbs. update pcbs i (record (pcbs i) { present = 0 })) 11 0 11 k.pcbs (omega arith)
      (λ l pcbs lo hi h. record {
        absent = λ p. (let a = h.absent p in ground (arith, a));
        family = λ p. (let f = h.family p in ground (arith, f));
        alive = λ p. (let a = h.alive p in ground (arith, a));
      })
      (record { absent = λ p. ground arith; family = λ p. refl; alive = λ p. ground arith })

init_pcbs-Sound : (k : Kernel) → Paged k → k.esp0 ≡ 8388608 → Sound (init_pcbs k)
unfolding init_pcbs
init_pcbs-Sound k h stack =
    let freed = init_pcbs-Freed k in
    let turn = h.loaded.turn in
    let shown = h.loaded.shown in
    let process = h.loaded.process in
    record {
      ready = record {
        turn = omega arith;
        shown = omega arith;
        process = omega arith;
        directory = h.directory ∙ sym process;
        stack = omega arith;
        queue = λ j. rw (h.loaded.queue j) (omega arith);
        family = λ p. rw (freed.family p) (h.loaded.family p);
        frames = λ p. (let a = freed.absent p in ground (arith, a));
      };
      screen = h.page ∙ rw (turn, shown) refl;
    }

-- What entry comes to: a sound kernel with process 0, an empty queue and no process in a block.
pub record Idle (k : Kernel) : Type 0 where
  pub sound : Sound k
  pub process : k.current_process ≡ 0
  pub queue : (j : ℕ) → k.processes j ≡ 0
  pub absent : (p : ℕ) → (ltb p 11 && not ((k.pcbs p).present == 0)) ≡ false

pub init_pcbs-Idle : (k : Kernel) → Paged k → k.esp0 ≡ 8388608 → Idle (init_pcbs k)
unfolding init_pcbs
init_pcbs-Idle k h stack = record {
  sound = init_pcbs-Sound k h stack;
  process = h.loaded.process;
  queue = h.loaded.queue;
  absent = (init_pcbs-Freed k).absent;
}

pub term_clear-Idle : (k : Kernel) → Idle k → Idle (with_terminal term_clear k)
term_clear-Idle k h = record {
  sound =
      Kept-Sound k (with_terminal term_clear k)
        (with_terminal-Kept term_clear k (term_clear-Stays k.terminal)) h.sound;
  process = h.process;
  queue = h.queue;
  absent = h.absent;
}

pub Paged-Placed :
    (c : Console) (k : Kernel) → Placed k.console c → Paged k → Paged (with_console (λ _. c) k)
Paged-Placed c k p h = record {
  loaded = Loaded-Placed c k p h.loaded;
  directory = h.directory;
  page = p.page ∙ h.page;
}

pub zbigfs_mount-Paged : (base : ℕ) (k : Kernel) → Paged k → Paged (zbigfs_mount base k)
unfolding zbigfs_mount
zbigfs_mount-Paged base k h = record {
  loaded = record {
    turn = h.loaded.turn;
    shown = h.loaded.shown;
    process = h.loaded.process;
    queue = h.loaded.queue;
    family = h.loaded.family;
  };
  directory = h.directory;
  page = h.page;
}

pub zbigfs_mount-esp0 : (base : ℕ) (k : Kernel) → (zbigfs_mount base k).esp0 ≡ k.esp0
unfolding zbigfs_mount
zbigfs_mount-esp0 base k = refl

pub set_up-Loaded :
    (inb : Ports → ℕ → ℕ) (ldt ldt_size tss tss_size : ℕ) (s : Machine)
    → Loaded s.kernel
    → Loaded (set_up inb ldt ldt_size tss tss_size s).kernel
      × ((set_up inb ldt ldt_size tss tss_size s).kernel.esp0 ≡ 8388608)
unfolding set_up
set_up-Loaded inb ldt ldt_size tss tss_size s h = (
  record {
    turn = h.turn;
    shown = h.shown;
    process = h.process;
    queue = h.queue;
    family = h.family;
  },
  refl,
)
