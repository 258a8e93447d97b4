-- ===== src/Kernel/Files.antt =====
-- The files of a process: kopen, kread and kwrite of student-distrib/zbigfs.c, which go through the
-- table of operations of a FILE, and the system calls on descriptors of syscall_funcs.c and syscall.S.
-- `none` is a jump through a table that was never set, or a loop that does not end. `inb` is what the
-- devices answer, `interrupts` what the handlers do while a read waits.
use zbiggie.Prelude.{
  ℕ, ◌+◌, ◌/◌, ◌%◌, Bool, ◌&&◌, not, Option, none, some, ◌==◌, ltb, if◌then◌else◌, minus_one, add32,
  slt, sle, Bytes, update, load32, for_range, ◌>>=◌,
}
use zbiggie.Text.{strlen, strncpy}
use zbiggie.Terminal.{term_read_start, term_read_finish, term_write}
use zbiggie.Fs.{
  Dentry, File, unset, ops_regular, ops_directory, ops_rtc, ops_stdin, ops_stdout, ftype_regular,
  ftype_special, ftype_directory, read_dentry_by_name, regular_read, directory_read,
}
use zbiggie.Devices.{Ports, rtc_open, rtc_write}
use zbiggie.Kernel.{
  Kernel, with_terminal, with_console, with_memory, user_memory, get_current_pcb, with_file,
  get_file, get_new_fd, free_fd,
}

-- usr_ptr_ok: the pointer is compared as an `int`, the end as a 32-bit sum. `true` is the 1 that it
-- returns for a range it accepts, as its callers take it.
unfoldable pub usr_ptr_ok : ℕ → ℕ → Bool
usr_ptr_ok p s = sle 134217728 p && not (ltb 138412032 (add32 p s))

-- The new status and bytes sent of a device call, on the kernel's ports.
abbrev on_ports : (Ports → ℕ × Ports) → Kernel → ℕ × Kernel
on_ports call k =
    let (status, ports) = call k.ports in (status, with_console (λ c. record c { ports = ports }) k)

-- regular_open, directory_open, rtc_open, stdin_open and stdout_open, by the table.
unfoldable pub open_operation : (Ports → ℕ → ℕ) → File → Kernel → Option (ℕ × File × Kernel)
open_operation inb f k =
    let (status, opened) = on_ports (rtc_open inb) k in
    elim f.optable [ unset ↦ none | ops_rtc ↦ some (status, f, opened) | _ ↦ some (0, f, k) ]

-- The switch over the type of the entry. A type of no case leaves the table as it is.
unfoldable pub set_optable : Dentry → File → File
set_optable d f =
    if d.ftype == ftype_regular
    then record f { inode = d.inode_num; optable = ops_regular }
    else if d.ftype == ftype_special
    then record f { optable = ops_rtc }
    else if d.ftype == ftype_directory
    then record f { optable = ops_directory }
    else f

-- `dentry` is the local variable, with what its stack slot held.
unfoldable pub kopen :
    (Ports → ℕ → ℕ) → Dentry → File → Bytes → ℕ → Kernel → Option (ℕ × File × Kernel)
unfolding open_operation set_optable
kopen inb dentry f m name k =
    let (status, d) = read_dentry_by_name k.volume m name dentry in
    if ltb 0 status
    then some (minus_one, f, k)
    else open_operation inb (set_optable d (record f { pos = 0 })) k

-- rtc_f is up until the clock's handler puts it down.
unfoldable pub rtc_read : (Kernel → Kernel) → Kernel → ℕ × Kernel
rtc_read interrupts k = (0, interrupts (record k { rtc_f = 1 }))

-- The count, the FILE, the memory that `buf` points into, and the kernel.
unfoldable pub kread :
    (Kernel → Kernel) → Dentry → File → Bytes → ℕ → ℕ → Kernel → Option (ℕ × File × Bytes × Kernel)
unfolding rtc_read
kread interrupts dentry f m buf numbytes k =
    let waited = rtc_read interrupts k in
    let reading = interrupts (with_terminal term_read_start k) in
    let line = term_read_finish m buf numbytes reading.terminal in
    let entry = directory_read k.volume dentry f m buf numbytes in
    elim f.optable [
      | unset ↦ none
      | ops_regular ↦ elim (regular_read k.volume f m buf numbytes) [
        | none ↦ none
        | some (n, f', m') ↦ some (n, f', m', k)
      ]
      | ops_directory ↦ some (entry.0, entry.1, entry.2, k)
      | ops_rtc ↦ some (waited.0, f, m, waited.1)
      | ops_stdin ↦ some (line.0, f, line.1, record reading { terminal = line.2 })
      | ops_stdout ↦ some (minus_one, f, m, k)
    ]

unfoldable pub kwrite : (Ports → ℕ → ℕ) → File → Bytes → ℕ → ℕ → Kernel → Option (ℕ × Kernel)
kwrite inb f m buf numbytes k =
    let clock = on_ports (rtc_write inb (load32 m buf) numbytes) k in
    let screen = term_write m buf numbytes k.terminal in
    elim f.optable [
      | unset ↦ none
      | ops_regular ↦ some (minus_one, k)
      | ops_directory ↦ some (minus_one, k)
      | ops_rtc ↦ some clock
      | ops_stdin ↦ some (minus_one, k)
      | ops_stdout ↦ some (screen.0, record k { terminal = screen.1 })
    ]

-- kclose does nothing and cannot fail.
unfoldable pub kclose : File → ℕ
kclose f = 0

unfoldable pub syscall_open : (Ports → ℕ → ℕ) → Dentry → ℕ → Kernel → Option (ℕ × Kernel)
syscall_open inb dentry name k = do
  len ← strlen (user_memory k) name
  if usr_ptr_ok name len
      then (let (fd, k1) = get_new_fd k in
          if fd == minus_one
          then some (minus_one, k1)
          else elim (kopen inb dentry ((get_current_pcb k1).f fd) (user_memory k1) name k1) [
            | none ↦ none
            | some (ret, f, k2) ↦
                if ret == 0
                then some (fd, with_file fd f k2)
                else some (ret, (free_fd fd (with_file fd f k2)).1)
          ])
      else some (minus_one, k)

unfoldable pub syscall_close : ℕ → Kernel → ℕ × Kernel
unfolding get_file free_fd
syscall_close fd k = elim (get_file fd k) [ none ↦ (minus_one, k) | some f ↦ free_fd fd k ]

-- free_current_pcb: every descriptor is closed, then the block is free.
unfoldable pub free_current_pcb : Kernel → Kernel
unfolding syscall_close
free_current_pcb k =
    let closed = for_range 8 0 (λ i s. (syscall_close i s).1) k in
    record closed {
      pcbs =
          update closed.pcbs closed.current_process
            (record (get_current_pcb closed) { present = 0 });
    }

-- min on `int`s.
unfoldable pub min_int : ℕ → ℕ → ℕ
min_int a b = if slt a b then a else b

-- As the source has it, the count is the address that strncpy returns.
unfoldable pub syscall_getargs : ℕ → ℕ → Kernel → ℕ × Kernel
unfolding min_int
syscall_getargs buf nbytes k =
    let copied = strncpy (user_memory k) buf (get_current_pcb k).cmdstring 0 (min_int nbytes 128) in
    if usr_ptr_ok buf nbytes
    then ((if slt buf nbytes then minus_one else 0), with_memory copied k)
    else (minus_one, k)

-- OFFSET_132M+OFFSET_VIDEO, little-endian, at the user's pointer.
unfoldable pub syscall_vidmap : ℕ → Kernel → ℕ × Kernel
syscall_vidmap vid_ptr k =
    let address : ℕ = 139165696 in
    let m0 = update (user_memory k) vid_ptr (address % 256) in
    let m1 = update m0 (vid_ptr + 1) (address / 256 % 256) in
    let m2 = update m1 (vid_ptr + 2) (address / 65536 % 256) in
    let m3 = update m2 (vid_ptr + 3) (address / 16777216 % 256) in
    if usr_ptr_ok vid_ptr 4 then (0, with_memory m3 k) else (minus_one, k)

-- `read` of syscall.S: pointer, descriptor, operation. The FILE changes in place.
unfoldable pub syscall_read : (Kernel → Kernel) → Dentry → ℕ → ℕ → ℕ → Kernel → Option (ℕ × Kernel)
syscall_read interrupts dentry fd buf nbytes k =
    if usr_ptr_ok buf nbytes
    then elim (get_file fd k) [
      | none ↦ some (minus_one, k)
      | some f ↦ elim (kread interrupts dentry f (user_memory k) buf nbytes k) [
        | none ↦ none
        | some (n, f', m, k') ↦ some (n, with_memory m (with_file fd f' k'))
      ]
    ]
    else some (minus_one, k)

-- `write` of syscall.S.
unfoldable pub syscall_write : (Ports → ℕ → ℕ) → ℕ → ℕ → ℕ → Kernel → Option (ℕ × Kernel)
syscall_write inb fd buf nbytes k =
    if usr_ptr_ok buf nbytes
    then elim (get_file fd k) [
      | none ↦ some (minus_one, k)
      | some f ↦ kwrite inb f (user_memory k) buf nbytes k
    ]
    else some (minus_one, k)
