-- ===== src/Kernel/Entry.antt =====
-- entry of student-distrib/kernel.c: what the boot loader left is printed, then the descriptors, the
-- devices, paging, the file system and the processes are set up. The boot loader's structs are read in
-- memory at the offsets of multiboot.h. A format stands behind the address space, at `modulus`.
pub mod Prints
pub mod Stages
pub mod Starts
use Prim.Native.String.{String}
use zbiggie.Prelude.{
  ℕ, zero, suc, ◌+◌, ◌*◌, ◌^◌, ◌/◌, ◌%◌, Bool, ◌&&◌, Option, none, some, List, [], ◌∷◌, ◌==◌, ltb,
  not, if◌then◌else◌, modulus, add32, widen, Bytes, load32, ◌>>=◌,
}
use zbiggie.Text.{literal}
use zbiggie.Console.{Console, clear}
use zbiggie.Console.Format.{printf}
use zbiggie.Terminal.{term_clear}
use zbiggie.Devices.{Ports, outb, i8259_init, rtc_init, disable_irq}
use zbiggie.Kernel.{Kernel, with_console, with_terminal, init_pcbs}
use zbiggie.Kernel.Boot.{init_paging, zbigfs_mount}
use zbiggie.Kernel.Idt.{Gate, populate_idt}
use zbiggie.Kernel.Segments.{SegDesc, the_ldt_desc, the_tss_desc}

-- The kernel with the tables that entry sets up.
pub record Machine : Type 0 where
  pub kernel : Kernel
  pub idt : ℕ → Gate
  pub ldt_desc_ptr : SegDesc
  pub tss_desc_ptr : SegDesc
  pub ldt_segment_selector : ℕ
  pub ss0 : ℕ

-- The arguments behind a format.
abbrev args : List ℕ → ℕ → ℕ
args [] i = 0
args (a ∷ as') zero = a
args (a ∷ as') (suc i) = args as' i

-- printf of a literal, for what it prints.
abbrev pub print : String → List ℕ → Bytes → Console → Option Console
print format values m c = do
  (n, c') ← printf (literal format modulus m) modulus (args values) c
  some c'

-- CHECK_FLAG (flags, bit)
abbrev pub check_flag : ℕ → ℕ → Bool
check_flag flags bit = flags / 2 ^ bit % 2 == 1

-- The fields of multiboot_info_t, by their number.
abbrev pub mbi : Bytes → ℕ → ℕ → ℕ
mbi m addr field = load32 m (addr + 4 * field)

-- The first bytes of a module, `left` of 16.
print_bytes : ℕ → Bytes → ℕ → Console → Option Console
print_bytes zero m p c = some c
print_bytes (suc left) m p c = do
  c' ← print "0x%x " (widen (m p) ∷ []) m c
  print_bytes left m (p + 1) c'

-- while(mod_count < mbi->mods_count), with the modules that are left.
print_modules : ℕ → ℕ → Bytes → ℕ → Console → Option Console
unfolding print_bytes
print_modules zero mod_count m p c = some c
print_modules (suc left) mod_count m p c = do
  c1 ← print "Module %d loaded at address: 0x%#x\n" (mod_count ∷ load32 m p ∷ []) m c
  c2 ← print "Module %d ends at address: 0x%#x\n" (mod_count ∷ load32 m (p + 4) ∷ []) m c1
  c3 ← print "First few bytes of module:\n" [] m c2
  c4 ← print_bytes 16 m (load32 m p) c3
  c5 ← print "\n" [] m c4
  print_modules left (mod_count + 1) m (p + 16) c5

-- The loop over the memory map, up to the address `end`.
print_map : ℕ → Bytes → ℕ → ℕ → Console → Option Console
print_map zero m p end c = none
print_map (suc fuel) m p end c =
    let more = (do
      c' ←
          print " size = 0x%x,     base_addr = 0x%#x%#x\n     type = 0x%x,  length    = 0x%#x%#x\n"
            (load32 m p
              ∷ load32 m (p + 8)
              ∷ load32 m (p + 4)
              ∷ load32 m (p + 20)
              ∷ load32 m (p + 16)
              ∷ load32 m (p + 12)
              ∷ [])
            m c
      print_map fuel m (add32 p (load32 m p + 4)) end c') in
    if ltb p end then more else some c

-- A block that the bit `bit` of the flags guards.
abbrev when : ℕ → ℕ → (Console → Option Console) → Console → Option Console
when flags bit block c = if check_flag flags bit then block c else some c

-- Up to the flags 4 and 5: the prints.
unfoldable pub print_info : Bytes → ℕ → Console → Option Console
unfolding print_modules
print_info m addr c = do
  let flags = mbi m addr 0
  c1 ← print "flags = 0x%#x\n" (flags ∷ []) m c
  c2 ←
      when flags 0
        (print "mem_lower = %uKB, mem_upper = %uKB\n" (mbi m addr 1 ∷ mbi m addr 2 ∷ []) m) c1
  c3 ← when flags 1 (print "boot_device = 0x%#x\n" (mbi m addr 3 ∷ []) m) c2
  c4 ← when flags 2 (print "cmdline = %s\n" (mbi m addr 4 ∷ []) m) c3
  c5 ← when flags 3 (print_modules (mbi m addr 5) 0 m (mbi m addr 6)) c4
  when flags 3
      (λ d. if mbi m addr 5 == 0 then print "No module 0, zbigfs will FAIL!" [] m d else some d) c5

-- zbigfs_location: the first module, if there is one.
unfoldable pub zbigfs_location : Bytes → ℕ → ℕ
zbigfs_location m addr =
    if check_flag (mbi m addr 0) 3 && not (mbi m addr 5 == 0) then load32 m (mbi m addr 6) else 0

-- Behind the flags 4 and 5: the section headers and the memory map.
unfoldable pub print_tables : Bytes → ℕ → Console → Option Console
unfolding print_map
print_tables m addr c = do
  let flags = mbi m addr 0
  c1 ←
      when flags 5
        (print "elf_sec: num = %u, size = 0x%#x, addr = 0x%#x, shndx = 0x%#x\n"
          (mbi m addr 7 ∷ mbi m addr 8 ∷ mbi m addr 9 ∷ mbi m addr 10 ∷ []) m)
        c
  when flags 6
      (λ d. (do
        d1 ←
            print "mmap_addr = 0x%#x, mmap_length = 0x%x\n" (mbi m addr 12 ∷ mbi m addr 11 ∷ []) m d
        print_map modulus m (mbi m addr 12) (add32 (mbi m addr 12) (mbi m addr 11)) d1))
      c1

-- What is set up behind the prints. `ldt`, `ldt_size`, `tss` and `tss_size` are the assembly's.
unfoldable pub set_up : (Ports → ℕ → ℕ) → (ldt ldt_size tss tss_size : ℕ) → Machine → Machine
set_up inb ldt ldt_size tss tss_size s =
    let devices = λ (p : Ports).
      disable_irq inb 0
        (outb 0 0x40 (outb 0 0x40 (outb 0x34 0x43 (rtc_init inb (i8259_init p))))) in
    record {
      kernel =
          with_console (λ c. record c { ports = devices c.ports })
            (record s.kernel { esp0 = 0x80_0000 });
      idt = populate_idt s.idt;
      ldt_desc_ptr = the_ldt_desc s.ldt_desc_ptr ldt ldt_size;
      tss_desc_ptr = the_tss_desc s.tss_desc_ptr tss tss_size;
      ldt_segment_selector = 0x38;
      ss0 = 0x18;
    }

-- Whether entry came to its end, or returned at a check.
pub data Start : Type 0 where
  refused running : Start

-- `m` is memory as the boot loader left it.
unfoldable pub kernel_entry :
    (Ports → ℕ → ℕ)
    → (ldt ldt_size tss tss_size : ℕ) → (magic addr : ℕ) → Bytes
    → Machine
    → Option (Start × Machine)
unfolding print_info print_tables set_up
kernel_entry inb ldt ldt_size tss tss_size magic addr m s =
    let showing = λ (c : Console). record s { kernel = with_console (λ _. c) s.kernel } in
    let cleared = clear s.kernel.console in
    let bad_magic = (do
      c ← print "Invalid magic number: 0x%#x\n" (magic ∷ []) m cleared
      some (refused, showing c)) in
    let checked = (do
      c1 ← print_info m addr cleared
      let both = (do c2 ← print "Both bits 4 and 5 are set.\n" [] m c1; some (refused, showing c2))
      let started = (do
        c2 ← print_tables m addr c1
        let ready = set_up inb ldt ldt_size tss tss_size (showing c2)
        c3 ← print "Enabling Interrupts\n" [] m ready.kernel.console
        let paged = init_paging (with_console (λ _. c3) ready.kernel)
        c4 ← print "Mounting module 0 as read-only zbigfs filesystem\n" [] m paged.console
        let mounted = zbigfs_mount (zbigfs_location m addr) (with_console (λ _. c4) paged)
        some (running, record ready { kernel = with_terminal term_clear (init_pcbs mounted) }))
      if check_flag (mbi m addr 0) 4 && check_flag (mbi m addr 0) 5 then both else started) in
    if magic == 0x2BADB002 then checked else bad_magic
