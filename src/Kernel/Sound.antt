-- ===== src/Kernel/Sound.antt =====
-- What holds of the kernel between any two of its steps: the numbers are in range, the processor is set
-- up for the process that runs, its output goes to the page of its terminal, and no two processes share
-- the frame of their program.
use zbiggie.Prelude.{
  ℕ, ◌+◌, ◌*◌, ◌<◌, ◌≡◌, ◌∙◌, refl, arith, false, ◌==◌, ◌&&◌, not, ltb, if◌then◌else◌, Bytes,
}
use zbiggie.Console.{Console, video_mem}
use zbiggie.Console.Places.{Placed, Placed-refl, Placed-Placed}
use zbiggie.Terminal.{Terminal}
use zbiggie.Paging.{buffer_page}
use zbiggie.Kernel.{Kernel, with_terminal, with_console, with_memory, with_file}
use zbiggie.Fs.{File}

-- All but the page that the process writes to: a process that starts maps that page itself.
pub record Ready (k : Kernel) : Type 0 where
  pub turn : k.current_active_process < 3
  pub shown : k.current_terminal < 3
  pub process : k.current_process < 11
  pub directory : k.tables.cr3 ≡ k.current_process
  pub stack : k.esp0 + k.current_process * 8192 ≡ 8388608
  pub queue : (j : ℕ) → k.processes j < 11
  pub family : (p : ℕ) → (k.pcbs p).parent < 11
  pub frames :
      (p : ℕ)
      → (ltb p 11
          && not ((k.pcbs p).present == 0)
          && not (k.tables.page_directories p 32 == (p + 1) * 4194304 + 0x87))
        ≡ false

-- Where the output of the process that has its turn goes.
abbrev pub own_page : Kernel → ℕ
own_page k =
    if k.current_terminal == k.current_active_process
    then video_mem
    else buffer_page k.current_active_process

pub record Sound (k : Kernel) : Type 0 where
  pub ready : Ready k
  pub screen : k.mapped ≡ own_page k

-- What most operations keep: they change files, memory, terminals and devices, and end processes.
pub record Kept (k k' : Kernel) : Type 0 where
  pub place : Placed k.console k'.console
  pub process : k'.current_process ≡ k.current_process
  pub tables : k'.tables ≡ k.tables
  pub stack : k'.esp0 ≡ k.esp0
  pub queue : k'.processes ≡ k.processes
  pub family : (p : ℕ) → (k'.pcbs p).parent ≡ (k.pcbs p).parent
  pub alive : (p : ℕ) → (not ((k'.pcbs p).present == 0) && ((k.pcbs p).present == 0)) ≡ false

pub Kept-refl : (k : Kernel) → Kept k k
Kept-refl k = record {
  place = Placed-refl k.console;
  process = refl;
  tables = refl;
  stack = refl;
  queue = refl;
  family = λ p. refl;
  alive = λ p. ground arith;
}

pub Kept-Kept : (i j k : Kernel) → Kept i j → Kept j k → Kept i k
Kept-Kept i j k a b = record {
  place = Placed-Placed i.console j.console k.console a.place b.place;
  process = b.process ∙ a.process;
  tables = b.tables ∙ a.tables;
  stack = b.stack ∙ a.stack;
  queue = b.queue ∙ a.queue;
  family = λ p. b.family p ∙ a.family p;
  alive = λ p. (let x = a.alive p in let y = b.alive p in ground (arith, x, y));
}

pub Kept-Ready : (k k' : Kernel) → Kept k k' → Ready k → Ready k'
Kept-Ready k k' a r = record {
  turn = rw a.place.turn r.turn;
  shown = rw a.place.shown r.shown;
  process = rw a.process r.process;
  directory = rw (a.tables, a.process) r.directory;
  stack = rw (a.stack, a.process) r.stack;
  queue = λ j. rw a.queue (r.queue j);
  family = λ p. rw (a.family p) (r.family p);
  frames = λ p. (let x = a.alive p in let y = r.frames p in rw a.tables (ground (arith, x, y)));
}

pub Kept-Sound : (k k' : Kernel) → Kept k k' → Sound k → Sound k'
Kept-Sound k k' a s = record {
  ready = Kept-Ready k k' a s.ready;
  screen = a.place.page ∙ rw (a.place.shown, a.place.turn) s.screen;
}

-- Changes of one part of the kernel.
pub with_terminal-Kept :
    (g : Terminal → Terminal) (k : Kernel)
    → Placed k.console (g k.terminal).console
    → Kept k (with_terminal g k)
with_terminal-Kept g k p = record {
  place = p;
  process = refl;
  tables = refl;
  stack = refl;
  queue = refl;
  family = λ p. refl;
  alive = λ p. ground arith;
}

pub with_console-Kept :
    (g : Console → Console) (k : Kernel)
    → Placed k.console (g k.console)
    → Kept k (with_console g k)
with_console-Kept g k p = record {
  place = p;
  process = refl;
  tables = refl;
  stack = refl;
  queue = refl;
  family = λ p. refl;
  alive = λ p. ground arith;
}

pub with_memory-Kept : (m : Bytes) (k : Kernel) → Kept k (with_memory m k)
with_memory-Kept m k = record {
  place = Placed-refl k.console;
  process = refl;
  tables = refl;
  stack = refl;
  queue = refl;
  family = λ p. refl;
  alive = λ p. ground arith;
}

pub with_file-Kept : (fd : ℕ) (f : File) (k : Kernel) → Kept k (with_file fd f k)
with_file-Kept fd f k = record {
  place = Placed-refl k.console;
  process = refl;
  tables = refl;
  stack = refl;
  queue = refl;
  family = λ p. ground arith;
  alive = λ p. ground arith;
}

pub with_rtc_f-Kept : (n : ℕ) (k : Kernel) → Kept k (record k { rtc_f = n })
with_rtc_f-Kept n k = record {
  place = Placed-refl k.console;
  process = refl;
  tables = refl;
  stack = refl;
  queue = refl;
  family = λ p. refl;
  alive = λ p. ground arith;
}
