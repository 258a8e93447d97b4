-- ===== src/Kernel/Idt.antt =====
-- The interrupt descriptor table of student-distrib/kernel.c, and the exception handlers of
-- student-distrib/idt_funcs.c that it names.
use zbiggie.Prelude.{ℕ, Option, some, ◌==◌, ltb, leb, if◌then◌else◌, update, for_range, ◌>>=◌}
use Prim.Native.String.{String}
use zbiggie.Console.{Console}
use zbiggie.Console.Format.{print_hex}
use zbiggie.Console.Print.{putc}
use zbiggie.Kernel.{say}

-- The functions that a gate leads to.
pub data Handler : Type 0 where
  exception : ℕ → Handler
  common_interrupt asm_rtc asm_keyboard syscall next_task : Handler

-- idt_desc_t; `handler` stands for its two offsets, `none` for offsets that are not set.
pub record Gate : Type 0 where
  pub present : ℕ
  pub dpl : ℕ
  pub size : ℕ
  pub reserved0 : ℕ
  pub reserved1 : ℕ
  pub reserved2 : ℕ
  pub reserved3 : ℕ
  pub reserved4 : ℕ
  pub seg_selector : ℕ
  pub handler : Option Handler

abbrev set_idt_entry : ℕ → Handler → (ℕ → Gate) → ℕ → Gate
set_idt_entry i h idt = update idt i (record (idt i) { handler = some h })

-- One round of the loop of populate_idt.
unfoldable pub populate_entry : ℕ → (ℕ → Gate) → ℕ → Gate
populate_entry i idt =
    let gate : Gate = record {
      present = 1;
      dpl = 0;
      size = 1;
      reserved0 = 0;
      reserved1 = 1;
      reserved2 = 1;
      reserved3 = 0;
      reserved4 = 0;
      seg_selector = 0x10;
      handler = (idt i).handler;
    } in
    let cleared = update idt i gate in
    if leb 0x20 i
    then set_idt_entry i common_interrupt cleared
    else if ltb i 20
    then if i == 15 then cleared else set_idt_entry i (exception i) cleared
    else cleared

-- The loop, and the vectors that have a handler of their own.
unfoldable pub populate_idt : (ℕ → Gate) → ℕ → Gate
unfolding populate_entry
populate_idt idt =
    let g0 = for_range 256 0 populate_entry idt in
    let g1 = set_idt_entry 0x28 asm_rtc g0 in
    let g2 = set_idt_entry 0x21 asm_keyboard g1 in
    let g3 = set_idt_entry 0x80 syscall g2 in
    let g4 = update g3 0x80 (record (g3 0x80) { dpl = 3; reserved3 = 1 }) in
    set_idt_entry 0x20 next_task g4

-- What a handler does behind its message: end the program, or spin for ever.
pub data Ending : Type 0 where
  halt_program spin : Ending

-- The text of the handler of vector `i`, up to the error code of the two that print one.
unfoldable pub exception_message : ℕ → String
exception_message i =
    if i == 0
    then "divide_by_zero\n"
    else if i == 1
    then "Intel use only\n"
    else if i == 2
    then "non_maskable_interrupt\n"
    else if i == 3
    then "breakpoint\n"
    else if i == 4
    then "overflow\n"
    else if i == 5
    then "BOUND_range_exceeded\n"
    else if i == 6
    then "invalid_opcode\n"
    else if i == 7
    then "device_not_available\n"
    else if i == 8
    then "double_fault\n"
    else if i == 9
    then "coprocessor_segment_overrun\n"
    else if i == 10
    then "invalid_TSS\n"
    else if i == 11
    then "segment_not_present\n"
    else if i == 12
    then "stack_segment_fault\n"
    else if i == 13
    then "general_protection: "
    else if i == 14
    then "page_fault: "
    else if i == 16
    then "floating_point_error\n"
    else if i == 17
    then "alignment_check\n"
    else if i == 18
    then "machine_check\n"
    else "SIMD_floating_point_exception\n"

-- Two of the handlers have no call of ece391_halt.
unfoldable pub exception_ending : ℕ → Ending
exception_ending i = if i == 1 then spin else if i == 10 then spin else halt_program

-- The handler of vector `i` with the error code `x`; only two take one off the stack and print it.
unfoldable pub run_exception : ℕ → ℕ → Console → Option (Console × Ending)
unfolding exception_message exception_ending
run_exception i x c =
    let shown = say (exception_message i) c in
    let code = (do c' ← print_hex x shown; some (putc 10 c', exception_ending i)) in
    if i == 13 then code else if i == 14 then code else some (shown, exception_ending i)

-- The text of the handler for an unknown interrupt, which then spins.
unfoldable pub run_common_interrupt : Console → Console × Ending
run_common_interrupt c = (say "common_interrupt\n" c, spin)
