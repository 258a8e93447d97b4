-- ===== src/Devices.antt =====
-- The device drivers: the interrupt controllers of student-distrib/i8259.c, the clock of
-- student-distrib/rtc.c and their port accesses. What a device answers to a port read is the argument
-- `inb`, of the bytes that were sent so far, newest first, and the port.
pub mod Rates
pub mod Masks
mod Tests
use Prim.Native.Nat.{bit_and, bit_or, bit_xor}
use zbiggie.Prelude.{
  ℕ, ◌+◌, ◌-◌, ◌*◌, ◌%◌, ◌^◌, ◌||◌, Option, none, some, List, [], ◌∷◌, ◌==◌, ltb, if◌then◌else◌,
  minus_one, sub32, slt, sle,
}

-- The bytes that outb has sent, each behind its port.
abbrev pub Ports : Type 0
Ports = List (ℕ × ℕ)

-- `%b1`: the low byte goes out.
abbrev pub outb : ℕ → ℕ → Ports → Ports
outb data' port p = (port, data' % 256) ∷ p

module _ (inb : Ports → ℕ → ℕ) where
  -- The data port of the controller that has the line, and the line's bit there.
  abbrev pub data_port : ℕ → ℕ
  data_port irq_num = if ltb irq_num 8 then 0x21 else 0xA1

  abbrev pub line_bit : ℕ → ℕ
  line_bit irq_num = if ltb irq_num 8 then 2 ^ irq_num else 2 ^ (irq_num - 8)

  -- The line's bit is set in the mask, whatever the name says.
  unfoldable pub enable_irq : ℕ → Ports → Ports
  enable_irq irq_num p =
      outb (bit_or (inb p (data_port irq_num)) (line_bit irq_num)) (data_port irq_num) p

  -- value & ~(1 << irq_num), on the byte that inb returns.
  unfoldable pub disable_irq : ℕ → Ports → Ports
  disable_irq irq_num p =
      outb (bit_and (inb p (data_port irq_num)) (bit_xor 0xFFFF_FFFF (line_bit irq_num)))
        (data_port irq_num) p

  -- outb( inb(RTC_INDEX_PORT) & NMI_ON, RTC_INDEX_PORT)
  abbrev pub nmi_on : Ports → Ports
  nmi_on p = outb (bit_and (inb p 0x70) 0x7F) 0x70 p

  -- The status and the bytes sent.
  unfoldable pub change_rtc_freq : ℕ → Ports → ℕ × Ports
  change_rtc_freq rate p =
      let asked = outb 0x8A 0x70 p in
      let previous_rate = inb asked 0x71 in
      let selected = outb 0x8A 0x70 asked in
      let sent = nmi_on (outb (bit_or (bit_and previous_rate 0xF0) rate) 0x71 selected) in
      if sle rate 2 || slt 15 rate then (minus_one, p) else (0, sent)

  unfoldable pub rtc_init : Ports → Ports
  unfolding enable_irq
  rtc_init p =
      let asked = outb 0x8B 0x70 p in
      let current_b = inb asked 0x71 in
      let sent = outb (bit_or current_b 0x40) 0x71 (outb 0x8B 0x70 asked) in
      enable_irq 8 (nmi_on sent)

  unfoldable pub rtc_open : Ports → ℕ × Ports
  rtc_open p = change_rtc_freq 15 p

  -- The handler's port traffic: select C with the NMI off, read it, NMI on.
  unfoldable pub rtc_ack : Ports → Ports
  rtc_ack p = nmi_on (outb 0x8C 0x70 p)

-- The switch of rtc_write: the rate for a frequency, if there is one.
unfoldable pub rate_of : ℕ → Option ℕ
rate_of frequency =
    if frequency == 2
    then some 15
    else if frequency == 4
    then some 14
    else if frequency == 8
    then some 13
    else if frequency == 16
    then some 12
    else if frequency == 32
    then some 11
    else if frequency == 64
    then some 10
    else if frequency == 128
    then some 9
    else if frequency == 256
    then some 8
    else if frequency == 512
    then some 7
    else if frequency == 1024
    then some 6
    else none

unfoldable pub rtc_write : (Ports → ℕ → ℕ) → ℕ → ℕ → Ports → ℕ × Ports
rtc_write inb frequency numbytes p =
    let refused : ℕ × Ports = (minus_one, p) in
    if numbytes == 4
    then elim (rate_of frequency) [ none ↦ refused | some rate ↦ change_rtc_freq inb rate p ]
    else refused

-- The eight control words, the later first. Both the third and the fourth go to the master twice.
unfoldable pub i8259_init : Ports → Ports
i8259_init p = outb 0x01 0x21 (
    outb 0x01 0x21 (
      outb 0x02 0x21
        (outb 0x04 0x21 (outb 0x28 0xA1 (outb 0x20 0x21 (outb 0x11 0xA0 (outb 0x11 0x20 p)))))))

unfoldable pub send_eoi : ℕ → Ports → Ports
send_eoi irq_num p =
    let slave = if ltb irq_num 8 then p else outb (bit_or 0x60 (irq_num - 8)) 0xA0 p in
    outb (bit_or 0x60 irq_num) 0x20 slave
