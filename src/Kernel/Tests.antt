-- ===== src/Kernel/Tests.antt =====
-- The kernel with one process.
use zbiggie.Prelude.{
  ◌||◌, ◌≢◌, ℕ, leb, ltb, ◌==◌, if◌then◌else◌, Bytes, ◌+◌, ◌*◌, ◌≤◌, ◌≡◌, ◌↔◌, refl, arith, true,
  false, some, none,
}
use zbiggie.Samples.{one_process, ramp}
use zbiggie.Console.{video_mem}
use zbiggie.Paging.{buffer_page}
use zbiggie.Kernel.{switch_context}
use zbiggie.Kernel.Files.{usr_ptr_ok, syscall_getargs}
use zbiggie.Kernel.Exec.{next_task, shell, parse_input}
use zbiggie.Fs.{ops_stdin, ops_stdout}
use zbiggie.Kernel.Birth.{setup_new_process_lem}
use zbiggie.Kernel.{setup_new_process, in_use}
use zbiggie.Kernel.Words.{IsCommand, parse_input_lem}
use zbiggie.Kernel.Keyboard.{switch_video}
use zbiggie.Kernel.Idt.{Gate, populate_idt, asm_keyboard}
use zbiggie.Kernel.Access.{usr_ptr_ok_iff, usr_ptr_ok_wraps, syscall_getargs-zero}
use zbiggie.Kernel.Scheduling.{switch_context_lem, next_task_lem}
use zbiggie.Kernel.Video.{switch_video-switch_video}
use zbiggie.Kernel.Gates.{gate, populate_idt_lem}

usr_ptr_ok_iff_example :
    (usr_ptr_ok 134512640 1024 ≡ true) ↔ ((134217728 ≤ 134512640) × (134512640 + 1024 ≤ 138412032))
usr_ptr_ok_iff_example = usr_ptr_ok_iff 134512640 1024 (omega arith)

usr_ptr_ok_wraps_example : usr_ptr_ok 134512640 4294967295 ≡ true
usr_ptr_ok_wraps_example =
    usr_ptr_ok_wraps 134512640 4294967295 (omega arith) (omega arith) (omega arith) (omega arith)

syscall_getargs-zero_example : (syscall_getargs 134512640 1 one_process).0 ≡ 0
unfolding usr_ptr_ok
syscall_getargs-zero_example = syscall_getargs-zero 134512640 1 one_process (omega arith) refl

switch_context_lem_example :
    ((switch_context 4 one_process).current_process ≡ 4)
    × ((switch_context 4 one_process).tables.cr3 ≡ 4)
    × ((switch_context 4 one_process).esp0 + 4 * 8192 ≡ 8388608)
    × ((switch_context 4 one_process).mapped ≡ buffer_page 1)
switch_context_lem_example = switch_context_lem 4 one_process (omega arith) (omega arith)

-- The third place of the queue is empty.
next_task_lem_example :
    ((next_task 77 one_process).1.current_active_process ≡ 2)
    × ((next_task 77 one_process).1.processes 1 ≡ 1)
    × (((next_task 77 one_process).1.pcbs 1).esp ≡ 77)
    × ((next_task 77 one_process).0 ≡ shell)
    × ((next_task 77 one_process).1.current_process ≡ 1)
next_task_lem_example = next_task_lem 77 one_process (omega arith)

switch_video-switch_video_example :
    (switch_video 0 (switch_video 2 one_process)).video video_mem ≡ one_process.video video_mem
switch_video-switch_video_example = switch_video-switch_video 2 one_process video_mem refl refl

abbrev empty_gate : Gate
empty_gate = record {
  present = 0;
  dpl = 0;
  size = 0;
  reserved0 = 0;
  reserved1 = 0;
  reserved2 = 0;
  reserved3 = 0;
  reserved4 = 0;
  seg_selector = 0;
  handler = none;
}

populate_idt_lem_example : populate_idt (λ i. empty_gate) 0x21 ≡ gate false (some asm_keyboard)
populate_idt_lem_example = populate_idt_lem (λ i. empty_gate) 0x21 (omega arith)

-- " ls x\n"
abbrev command_line : ℕ → ℕ
command_line a =
    if a == 1
    then b'l'
    else if a == 2
    then b's'
    else if a == 4
    then b'x'
    else if a == 5
    then 10
    else if leb a 3
    then b' '
    else 0

command_line-IsCommand : IsCommand command_line 128 1 2 1 1
command_line-IsCommand = record {
  length = omega arith;
  leading = λ j lt. ground arith;
  word = λ j lt. ground arith;
  word_end = refl;
  gap = λ j lt. ground arith;
  rest = λ j lt. ground arith;
  line_end = refl;
  no_space = omega arith;
  no_gap = omega arith;
}

parse_input_lem_example :
    (word line : Bytes) × (parse_input command_line ramp ramp 128 ≡ some (word, line))
    × ((a : ℕ) → word a ≡ (if ltb a 2 then command_line (1 + a) else if a == 2 then 0 else ramp a))
    × ((a : ℕ)
        → line a ≡ (if ltb a 1 then command_line (1 + 2 + 1 + a) else if a == 1 then 0 else ramp a))
parse_input_lem_example = parse_input_lem command_line ramp ramp 128 1 2 1 1 command_line-IsCommand

setup_new_process_lem_example :
    ((setup_new_process one_process).0 ≡ 0)
    × ((setup_new_process one_process).1.current_process ≡ 2)
    × (((setup_new_process one_process).1.pcbs 2).present ≡ 1)
    × (((setup_new_process one_process).1.pcbs 2).parent ≡ 1)
    × ((((setup_new_process one_process).1.pcbs 2).f 0).optable ≡ ops_stdin)
    × ((((setup_new_process one_process).1.pcbs 2).f 1).optable ≡ ops_stdout)
    × ((fd : ℕ) → in_use (((setup_new_process one_process).1.pcbs 2).f fd) ≡ (fd == 0 || fd == 1))
    × ((q : ℕ) → q ≢ 2 → (setup_new_process one_process).1.pcbs q ≡ one_process.pcbs q)
setup_new_process_lem_example =
    setup_new_process_lem one_process 2 (omega arith) (omega arith) refl (λ j lo hi. ground arith)
