-- ===== src/Kernel/Gates.antt =====
-- The interrupt descriptor table that the processor is given.
use zbiggie.Prelude.{
  ℕ, ◌+◌, ◌<◌, ◌≡◌, ◌∙◌, refl, arith, Bool, false, Option, some, ◌==◌, leb, ltb, if◌then◌else◌,
  Bool-cases, inl, inr, for_range, for_range_inv,
}
use zbiggie.Kernel.Idt.{
  Handler, Gate, exception, common_interrupt, asm_rtc, asm_keyboard, syscall, next_task,
  populate_entry, populate_idt,
}

-- The handler of vector `i`, where `old` is what the entry held: the vectors of the devices and of the
-- system call, an exception each for 0 to 19 without 15. The code sets none for 15 and 20 to 31, which keep
-- `old`.
abbrev pub handler_of : ℕ → Option Handler → Option Handler
handler_of i old =
    if i == 0x20
    then some next_task
    else if i == 0x21
    then some asm_keyboard
    else if i == 0x28
    then some asm_rtc
    else if i == 0x80
    then some syscall
    else if leb 0x20 i
    then some common_interrupt
    else if ltb i 20
    then (if i == 15 then old else some (exception i))
    else old

-- A present gate of the kernel; programs may only use `user` ones.
abbrev pub gate : Bool → Option Handler → Gate
gate user h = record {
  present = 1;
  dpl = if user then 3 else 0;
  size = 1;
  reserved0 = 0;
  reserved1 = 1;
  reserved2 = 1;
  reserved3 = if user then 1 else 0;
  reserved4 = 0;
  seg_selector = 0x10;
  handler = h;
}

populate_entry-at :
    (i b : ℕ) (idt : ℕ → Gate)
    → populate_entry i idt b ≡ (if b == i then populate_entry b idt b else idt b)
unfolding populate_entry
populate_entry-at i b idt = ground arith

-- An entry depends on the handler only that was there.
populate_entry-same :
    (b : ℕ) (s t : ℕ → Gate) → t b ≡ s b → populate_entry b t b ≡ populate_entry b s b
unfolding populate_entry
populate_entry-same b s t e = ground (arith, e)

entries_step :
    (idt : ℕ → Gate) (k : ℕ) (t : ℕ → Gate) (b : ℕ)
    → ((c : ℕ) → t c ≡ (if ltb c k then populate_entry c idt c else idt c))
    → populate_entry k t b ≡ (if ltb b (k + 1) then populate_entry b idt b else idt b)
entries_step idt k t b p =
    let old : ltb b k ≡ false → t b ≡ idt b = λ h. p b ∙ rw h refl in
    populate_entry-at k b t ∙ elim (Bool-cases (b == k)) [
      | inl e ↦ rw e (populate_entry-same b idt t (old (ground (arith, e))) ∙ ground (arith, e))
      | inr e ↦ rw e (p b ∙ ground (arith, e))
    ]

entries_below :
    (idt : ℕ → Gate) (b : ℕ)
    → for_range 256 0 populate_entry idt b ≡ (if ltb b 256 then populate_entry b idt b else idt b)
entries_below idt =
    for_range_inv
      (λ k (t : ℕ → Gate). (b : ℕ) → t b ≡ (if ltb b k then populate_entry b idt b else idt b))
      populate_entry 256 0 256 idt refl (λ k t lo hi p b. entries_step idt k t b p)
      (λ b. ground arith)

-- Each of the 256 vectors gets a present gate of the kernel, and only the system call's is one that
-- programs may use. The vectors 15 and 20 to 31 keep the handler that their entry held;
-- every other one gets that of its number: an exception below 20, the timer at 32, the keyboard at
-- 33, the clock at 40, the system call at 128 and the common one elsewhere.
pub populate_idt_lem :
    (idt : ℕ → Gate) (i : ℕ)
    → i < 256
    → populate_idt idt i ≡ gate (i == 0x80) (handler_of i (idt i).handler)
unfolding populate_idt populate_entry
populate_idt_lem idt i h = ground (arith, entries_below idt i)
