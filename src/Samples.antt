-- ===== src/Samples.antt =====
-- The small states that the tests of several components run on.
use zbiggie.Prelude.{[], ◌==◌, leb, ltb, if◌then◌else◌, ◌%◌, Bytes}
use zbiggie.Console.{Console}
use zbiggie.Terminal.{Terminal}
use zbiggie.Fs.{Volume, Dentry}
use zbiggie.Paging.{Tables}
use zbiggie.Kernel.{Kernel, fresh_file}

-- Memory whose byte at each address is the low byte of the address.
abbrev pub ramp : Bytes
ramp a = a % 256

abbrev pub zeros : Bytes
zeros a = 0

-- "hi", and no other byte.
abbrev pub greeting : Bytes
greeting a = if a == 0 then b'h' else if a == 1 then b'i' else 0

-- The first terminal is shown, the second one's process prints.
abbrev pub shown_console : Console
shown_console = record {
  screen_x = λ t. 7;
  screen_y = λ t. 3;
  biggest_y = λ t. 3;
  write_x = λ t. 7;
  write_y = λ t. 3;
  current_terminal = 0;
  current_active_process = 1;
  video = ramp;
  mapped = 50335744;
  ports = [];
}

-- Each line is "hi", with the position in front of it.
abbrev pub typed_terminal : Terminal
typed_terminal = record {
  console = shown_console;
  buffer = λ t. greeting;
  history = λ t i. zeros;
  hist_indeces = λ t. 0;
  hist_bottom_indeces = λ t. 0;
  cur_pos = λ t. 0;
  cur_size = λ t. 2;
  prev_size = λ t. 0;
  wait_for_nl = λ t. 0;
}

-- An image with one entry, the file "a" of 5000 bytes, whose blocks are 1 and 0.
abbrev pub image : Bytes
image a =
    if a == 0
    then 1
    else if a == 4
    then 1
    else if a == 64
    then b'a'
    else if a == 96
    then 2
    else if a == 4096
    then 136
    else if a == 4097
    then 19
    else if a == 4100
    then 1
    else if leb 8192 a
    then a % 251
    else 0

abbrev pub volume_a : Volume
volume_a = record { memory = image; start = 0 }

abbrev pub blank_dentry : Dentry
blank_dentry = record { fname = zeros; ftype = 0; inode_num = 0 }

abbrev pub blank_tables : Tables
blank_tables = record {
  page_directories = λ d i. 0;
  low_memory_table = λ i. 0;
  video_table = λ i. 0;
  low_memory_address = 1048576;
  video_address = 1052672;
  cr3 = 0;
  cr4 = 0;
  cr0 = 0;
}

-- Process 1 runs, with its descriptors 0 and 1 in use; the others are not there.
abbrev pub one_process : Kernel
one_process = record {
  terminal = typed_terminal;
  tables = blank_tables;
  volume = volume_a;
  pages = λ p. zeros;
  pcbs = λ p. record {
    esp = 0;
    parent = 0;
    cmdstring = zeros;
    f = λ fd. record {
      optable = fresh_file.optable;
      inode = 0;
      pos = 0;
      flags = if ltb fd 2 then 1 else 0;
    };
    present = if p == 1 then 1 else 0;
  };
  processes = λ i. if i == 1 then 1 else 0;
  current_process = 1;
  esp0 = 0;
  rtc_f = 0;
}
