-- ===== src/Kernel/Executable.antt =====
-- The load of a small executable.
use zbiggie.Prelude.{
  ℕ, ◌+◌, ◌-◌, ◌≡◌, ◌≢◌, refl, arith, some, ◌==◌, ◌&&◌, leb, ltb, ◌||◌, if◌then◌else◌, Bytes,
  load32, update,
}
use zbiggie.Samples.{zeros}
use zbiggie.Text.{strncmp}
use zbiggie.Fs.{
  Volume, num_dentry, num_inode, inode_length, inode_at, dentry_at, data_at, datablock_num,
}
use zbiggie.Fs.Data.{file_byte}
use zbiggie.Kernel.{Kernel}
use zbiggie.Kernel.Exec.{
  load_addr, parse_input, skip_spaces, take_word, take_line, kload_exec_to_mem,
}
use zbiggie.Kernel.Pieces.{Lowest}
use zbiggie.Kernel.Image.{IsProgram, kload_exec_to_mem_lem}
use zbiggie.Kernel.Rejects.{IsOther, kload_exec_to_mem-refused}
use zbiggie.Prelude.{inr, minus_one}
use zbiggie.Kernel.Trials.{born, quiet_inb, no_interrupts, some_locals}

-- A file system with the executable "a" of 40 bytes, in block 0, with its entry point at 0x8048018.
abbrev disk : Bytes
disk a =
    if a == 0 || a == 4
    then 1
    else if a == 64
    then b'a'
    else if a == 96
    then 2
    else if a == 4096
    then 40
    else if a == 8192
    then 0x7f
    else if a == 8193
    then 0x45
    else if a == 8194
    then 0x4c
    else if a == 8195
    then 0x46
    else if a == 8216
    then 0x18
    else if a == 8217
    then 0x80
    else if a == 8218
    then 0x04
    else if a == 8219
    then 0x08
    else 0

abbrev command_a : Bytes
command_a a = if a == 0 then b'a' else 0

abbrev exec_a : Bytes
exec_a = update (update zeros 0 b'a') 1 0

abbrev args_a : Bytes
args_a = update (update zeros 0 0) 0 0

abbrev volume_exec : Volume
volume_exec = record { memory = disk; start = 0 }

parsed_a : parse_input command_a zeros zeros 128 ≡ some (exec_a, args_a)
unfolding parse_input skip_spaces take_word take_line
parsed_a = refl

disk-IsProgram : IsProgram volume_exec exec_a 0 0
unfolding strncmp dentry_at num_dentry num_inode inode_length inode_at load32 data_at datablock_num
disk-IsProgram = record {
  file = record {
    there = ground arith;
    named = refl;
    first = λ j lt. absurd (omega arith);
    regular = refl;
    number = refl;
  };
  there = ground arith;
  header = ground arith;
  fits = ground arith;
  magic = refl;
}

abbrev launching : Kernel
launching = record born { volume = volume_exec }

launching-Lowest : Lowest launching 2
launching-Lowest = record {
  lo = omega arith;
  hi = omega arith;
  free = refl;
  taken = λ j lo hi. ground arith;
}

kload_exec_to_mem_lem_example :
    (k' : Kernel) × (kload_exec_to_mem quiet_inb no_interrupts some_locals command_a launching
      ≡ some (load32 (file_byte volume_exec 0) 24, k'))
    × (k'.current_process ≡ 2)
    × ((a : ℕ)
        → k'.pages 2 a ≡ (
            if leb load_addr a && ltb a (load_addr + inode_length volume_exec 0)
            then file_byte volume_exec 0 (a - load_addr)
            else launching.pages 2 a))
    × ((q : ℕ) → q ≢ 2 → k'.pages q ≡ launching.pages q)
kload_exec_to_mem_lem_example =
    kload_exec_to_mem_lem quiet_inb no_interrupts some_locals command_a exec_a args_a 0 0 2
      launching parsed_a disk-IsProgram launching-Lowest

-- "a" of another volume is a file with other first bytes.
born-IsOther : IsOther born zeros exec_a 0 0
unfolding strncmp dentry_at num_dentry num_inode inode_length inode_at load32 data_at datablock_num
born-IsOther = record {
  file = record {
    there = ground arith;
    named = refl;
    first = λ j lt. absurd (omega arith);
    regular = refl;
    number = refl;
  };
  there = ground arith;
  short = ground arith;
  magic = refl;
}

kload_exec_to_mem-refused_example :
    kload_exec_to_mem quiet_inb no_interrupts some_locals command_a born ≡ some (minus_one, born)
kload_exec_to_mem-refused_example =
    kload_exec_to_mem-refused quiet_inb no_interrupts some_locals command_a exec_a args_a 0 0 born
      parsed_a (inr born-IsOther)
