-- ===== src/Kernel/Boot.antt =====
-- What the kernel sets up when it starts: init_paging of student-distrib/page.c with the coloring of
-- the terminals, the mount of student-distrib/zbigfs.c, and the opening and closing of a terminal.
use zbiggie.Prelude.{ℕ, ◌+◌, ◌%◌, ◌==◌, if◌then◌else◌, Bytes, update, for_range}
use zbiggie.Console.{attribs}
use zbiggie.Terminal.{term_init, term_clear}
use zbiggie.Paging.{init_tables, buffer_page}
use zbiggie.Devices.{Ports, enable_irq, disable_irq}
use zbiggie.Kernel.{Kernel, with_terminal, with_console, remap_video}

-- The page of terminal `term`: a NUL at each even address, the terminal's color at each odd one.
unfoldable pub color_page : ℕ → Bytes → Bytes
color_page term =
    for_range 4096 0
      (λ i m. let j = buffer_page term + i in update m j (if j % 2 == 0 then 0 else attribs term))

-- init_paging: the tables, then each terminal's page, and the video page of terminal 0.
unfoldable pub init_paging : Kernel → Kernel
unfolding color_page
init_paging k =
    let paged = record k { tables = init_tables k.tables } in
    let colored =
      for_range 3 0
        (λ i s. with_console (λ c. record c { video = color_page i c.video }) (remap_video i s))
        paged in
    remap_video 0 colored

unfoldable pub zbigfs_mount : ℕ → Kernel → Kernel
zbigfs_mount base_addr k = record k { volume = record k.volume { start = base_addr } }

-- term_open clears the line and the mask bit of the keyboard; term_close sets it and clears the screen.
unfoldable pub term_open : (Ports → ℕ → ℕ) → Kernel → Kernel
term_open inb k =
    let cleared =
      with_terminal
        (λ s.
          let t = s.current_terminal in
          record s { buffer = update s.buffer t (update (s.buffer t) 0 0) })
        k in
    with_terminal term_init
      (with_console (λ c. record c { ports = disable_irq inb 1 c.ports }) cleared)

unfoldable pub term_close : (Ports → ℕ → ℕ) → Kernel → Kernel
term_close inb k =
    with_terminal term_clear (with_console (λ c. record c { ports = enable_irq inb 1 c.ports }) k)
