-- ===== src/Kernel/Entry/Starts.antt =====
-- entry leaves a sound kernel, which the first tick of the timer takes over.
use Prim.{tt}
use zbiggie.Prelude.{
  ℕ, ◌≡◌, ◌∙◌, Bool, true, false, ◌&&◌, Option, none, some, [], ◌∷◌, ◌==◌, if◌then◌else◌, Bytes,
  ◌>>=◌,
}
use zbiggie.Console.{Console, clear}
use zbiggie.Console.Places.{Placed, Placed-Placed, clear-Placed}
use zbiggie.Console.Format.Places.{PlacedIf}
use zbiggie.Terminal.{term_clear}
use zbiggie.Devices.{Ports}
use zbiggie.Kernel.{Kernel, with_console, with_terminal, init_pcbs}
use zbiggie.Kernel.Boot.{init_paging, zbigfs_mount}
use zbiggie.Kernel.Entry.{
  Machine, Start, running, refused, print, check_flag, mbi, print_info, print_tables, set_up,
  zbigfs_location, kernel_entry,
}
use zbiggie.Kernel.Entry.Prints.{print-Placed, print_info-Placed, print_tables-Placed}
use zbiggie.Kernel.Entry.Stages.{
  Loaded, Paged, Idle, Loaded-Placed, init_paging-Paged, init_pcbs-Idle, term_clear-Idle,
  Paged-Placed, zbigfs_mount-Paged, zbigfs_mount-esp0, set_up-Loaded,
}

-- A machine that runs has such a kernel.
abbrev pub Started : Option (Start × Machine) → Type 0
Started none = Unit
Started (some (refused, s)) = Unit
Started (some (running, s)) = Idle s.kernel

Started-either :
    (b : Bool) (r r' : Option (Start × Machine))
    → Started r
    → Started r'
    → Started (if b then r else r')
Started-either true r r' h h' = h
Started-either false r r' h h' = h'

module _ (inb : Ports → ℕ → ℕ) (ldt ldt_size tss tss_size addr : ℕ) (m : Bytes) where
  -- Behind the last print.
  mounted :
      (ready : Machine) (k : Kernel) (r : Option Console)
      → Paged k
      → k.esp0 ≡ 8388608
      → PlacedIf k.console r
      → Started (do
        c4 ← r
        let mounted = zbigfs_mount (zbigfs_location m addr) (with_console (λ _. c4) k)
        some (running, record ready { kernel = with_terminal term_clear (init_pcbs mounted) }))
  mounted ready k none h e p = tt
  mounted ready k (some c) h e p =
      let k1 = with_console (λ _. c) k in
      let k2 = zbigfs_mount (zbigfs_location m addr) k1 in
      let k3 = init_pcbs k2 in
      term_clear-Idle k3 (
        init_pcbs-Idle k2 (zbigfs_mount-Paged (zbigfs_location m addr) k1 (Paged-Placed c k p h))
          (zbigfs_mount-esp0 (zbigfs_location m addr) k1 ∙ e))

  -- Behind the one that comes before init_paging.
  enabled :
      (ready : Machine) (r : Option Console)
      → Loaded ready.kernel
      → ready.kernel.esp0 ≡ 8388608
      → PlacedIf ready.kernel.console r
      → Started (do
        c3 ← r
        let paged = init_paging (with_console (λ _. c3) ready.kernel)
        c4 ← print "Mounting module 0 as read-only zbigfs filesystem\n" [] m paged.console
        let mounted = zbigfs_mount (zbigfs_location m addr) (with_console (λ _. c4) paged)
        some (running, record ready { kernel = with_terminal term_clear (init_pcbs mounted) }))
  enabled ready none h e p = tt
  enabled ready (some c) h e p =
      let k = with_console (λ _. c) ready.kernel in
      let paged = init_paging k in
      let (hp, ep) = init_paging-Paged k (Loaded-Placed c ready.kernel p h) in
      mounted ready paged
        (print "Mounting module 0 as read-only zbigfs filesystem\n" [] m paged.console) hp (ep ∙ e)
        (print-Placed "Mounting module 0 as read-only zbigfs filesystem\n" [] m paged.console)

  -- Behind the tables of the boot loader.
  listed :
      (s : Machine) (c1 : Console) (r : Option Console)
      → Loaded s.kernel
      → Placed s.kernel.console c1
      → PlacedIf c1 r
      → Started (do
        c2 ← r
        let ready =
            set_up inb ldt ldt_size tss tss_size
              (record s { kernel = with_console (λ _. c2) s.kernel })
        c3 ← print "Enabling Interrupts\n" [] m ready.kernel.console
        let paged = init_paging (with_console (λ _. c3) ready.kernel)
        c4 ← print "Mounting module 0 as read-only zbigfs filesystem\n" [] m paged.console
        let mounted = zbigfs_mount (zbigfs_location m addr) (with_console (λ _. c4) paged)
        some (running, record ready { kernel = with_terminal term_clear (init_pcbs mounted) }))
  listed s c1 none h p1 p = tt
  listed s c1 (some c) h p1 p =
      let shown : Machine = record s { kernel = with_console (λ _. c) s.kernel } in
      let ready = set_up inb ldt ldt_size tss tss_size shown in
      let (hr, er) =
        set_up-Loaded inb ldt ldt_size tss tss_size shown
          (Loaded-Placed c s.kernel (Placed-Placed s.kernel.console c1 c p1 p) h) in
      enabled ready (print "Enabling Interrupts\n" [] m ready.kernel.console) hr er
        (print-Placed "Enabling Interrupts\n" [] m ready.kernel.console)

  refused_Started :
      (f : Console → Machine) (r : Option Console) → Started (do c ← r; some (refused, f c))
  refused_Started f none = tt
  refused_Started f (some c) = tt

  checked :
      (s : Machine) (r : Option Console)
      → Loaded s.kernel
      → PlacedIf s.kernel.console r
      → Started (do
        c1 ← r
        let both = (do
          c2 ← print "Both bits 4 and 5 are set.\n" [] m c1
          some (refused, record s { kernel = with_console (λ _. c2) s.kernel }))
        let started = (do
          c2 ← print_tables m addr c1
          let ready =
              set_up inb ldt ldt_size tss tss_size
                (record s { kernel = with_console (λ _. c2) s.kernel })
          c3 ← print "Enabling Interrupts\n" [] m ready.kernel.console
          let paged = init_paging (with_console (λ _. c3) ready.kernel)
          c4 ← print "Mounting module 0 as read-only zbigfs filesystem\n" [] m paged.console
          let mounted = zbigfs_mount (zbigfs_location m addr) (with_console (λ _. c4) paged)
          some (running, record ready { kernel = with_terminal term_clear (init_pcbs mounted) }))
        if check_flag (mbi m addr 0) 4 && check_flag (mbi m addr 0) 5 then both else started)
  checked s none h p = tt
  checked s (some c) h p =
      Started-either (check_flag (mbi m addr 0) 4 && check_flag (mbi m addr 0) 5) _ _
        (refused_Started (λ d. record s { kernel = with_console (λ _. d) s.kernel })
          (print "Both bits 4 and 5 are set.\n" [] m c))
        (listed s c (print_tables m addr c) h p (print_tables-Placed m addr c))

  cleared_PlacedIf : (c : Console) (r : Option Console) → PlacedIf (clear c) r → PlacedIf c r
  cleared_PlacedIf c none p = tt
  cleared_PlacedIf c (some d) p = Placed-Placed c (clear c) d (clear-Placed c) p

  -- From the static data as the program is loaded, with a process number in the parent's field of each
  -- block, entry leaves a running machine only with a sound kernel: process 0 runs in its own page
  -- directory and on its own kernel stack, its output goes to the screen, the run queue is empty and
  -- each of the eleven blocks is free. It may also return at one of its two checks, or not come to the
  -- end of its prints.
  pub kernel_entry-Started :
      (magic : ℕ) (s : Machine)
      → Loaded s.kernel
      → Started (kernel_entry inb ldt ldt_size tss tss_size magic addr m s)
  unfolding kernel_entry
  kernel_entry-Started magic s h =
      let c = clear s.kernel.console in
      Started-either (magic == 0x2BADB002) _ _
        (checked s (print_info m addr c) h
          (cleared_PlacedIf s.kernel.console (print_info m addr c) (print_info-Placed m addr c)))
        (refused_Started (λ d. record s { kernel = with_console (λ _. d) s.kernel })
          (print "Invalid magic number: 0x%#x\n" (magic ∷ []) m c))
