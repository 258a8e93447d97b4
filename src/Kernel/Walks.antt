-- ===== src/Kernel/Walks.antt =====
-- Runs of the whole kernel: entry, and several steps of a machine with three processes.
use zbiggie.Prelude.{◌+◌, ◌*◌, refl, arith, ◌==◌, if◌then◌else◌, false, none}
use zbiggie.Samples.{one_process, zeros}
use zbiggie.Kernel.{Kernel}
use zbiggie.Kernel.Exec.{next_task}
use zbiggie.Kernel.Keyboard.{Keys, rtc_handler}
use zbiggie.Kernel.Sound.{Sound}
use zbiggie.Kernel.Steps.{turn}
use zbiggie.Kernel.Idt.{Gate}
use zbiggie.Kernel.Entry.{Machine, kernel_entry}
use zbiggie.Kernel.Entry.Stages.{Loaded}
use zbiggie.Kernel.Entry.Starts.{Started, kernel_entry-Started}
use zbiggie.Kernel.Trials.{born, quiet_inb, old_desc}

-- Process 1 runs, process 2 has the next turn, process 3 the one behind.
abbrev walking : Kernel
walking = record born {
  processes = λ i. if i == 2 then 2 else if i == 0 then 3 else 1;
  esp0 = 8380416;
  tables = record born.tables {
    page_directories = λ p i. if i == 32 then (p + 1) * 4194304 + 0x87 else 0;
    cr3 = 1;
  };
}

abbrev at_keys : Keys
at_keys = record {
  kernel = walking;
  shift_l_flag = λ t. false;
  shift_r_flag = λ t. false;
  ctrl_flag = λ t. false;
  caps_lock_flag = false;
  alt_flag = false;
}

-- A tick of the real-time clock stands for the interrupts during a wait.
abbrev ticking : Kernel → Kernel
ticking = rtc_handler quiet_inb

abbrev turned_keys : Keys
turned_keys = record at_keys { kernel = (next_task 70 walking).1 }

abbrev clocked_keys : Keys
clocked_keys = record turned_keys { kernel = rtc_handler quiet_inb turned_keys.kernel }

-- The program as it is loaded.
abbrev unset_gate : Gate
unset_gate = record {
  present = 0;
  dpl = 0;
  size = 0;
  reserved0 = 0;
  reserved1 = 0;
  reserved2 = 0;
  reserved3 = 0;
  reserved4 = 0;
  seg_selector = 0;
  handler = none;
}

abbrev loaded_machine : Machine
loaded_machine = record {
  kernel = record one_process {
    terminal = record one_process.terminal {
      console = record one_process.terminal.console { current_active_process = 0 };
    };
    processes = λ i. 0;
    current_process = 0;
  };
  idt = λ i. unset_gate;
  ldt_desc_ptr = old_desc;
  tss_desc_ptr = old_desc;
  ldt_segment_selector = 0;
  ss0 = 0;
}

loaded_machine-Loaded : Loaded loaded_machine.kernel
loaded_machine-Loaded = record {
  turn = refl;
  shown = refl;
  process = refl;
  queue = λ j. refl;
  family = λ p. ground arith;
}

kernel_entry-Started_example :
    Started (kernel_entry quiet_inb 4096 104 8192 104 0x2BADB002 65536 zeros loaded_machine)
kernel_entry-Started_example =
    kernel_entry-Started quiet_inb 4096 104 8192 104 65536 zeros 0x2BADB002 loaded_machine
      loaded_machine-Loaded
