-- ===== src/Lib.antt =====
-- A verification library for the kernel in student-distrib/: a small x86 operating system with three
-- terminals on one screen, a read-only file system, paging, a round-robin scheduler and system calls.
--
-- The parts and how they interact. The keyboard's handler edits the line of the terminal that is shown;
-- a read of the standard input waits until that line is entered. Output goes through putc to the screen,
-- or, for a process whose terminal is not shown, through the page at 0xB8000, which the page table maps
-- to the terminal's own page. The system calls check the user's pointer, find the FILE of the descriptor
-- and jump through its table of operations to the file system, the clock or the terminal. The timer's
-- handler gives the turn to the next of three queued processes and switches the memory map.
--
-- The files, and the code they model:
--   Prelude: words, byte arrays, Boolean tests and counted loops that every part uses.
--   Text: strlen, strncmp, strcpy, strncpy, strrev and itoa of student-distrib/lib.c.
--   Block: memset, memcpy, memmove and their kin there, in inline assembly.
--   Console: the screen of lib.c; Console/Print has putc, mt_putc, putc_kb and scoot_text, Console/Format
--     puts and printf. The file-level arrays are fields of the record Console.
--   Terminal: student-distrib/terminal.c; its branches for a newline, a backspace and a character are
--     enter, erase and insert. Terminal/History has save_hist, up_hist and down_hist.
--   Fs: student-distrib/zbigfs.c up to read_data, over an image in memory.
--   Paging: the tables of student-distrib/page.c.
--   Devices: student-distrib/i8259.c and student-distrib/rtc.c, as the bytes sent to ports.
--   Kernel: the whole state and student-distrib/tasking.c. Kernel/Files has kopen, kread, kwrite and the
--     system calls of student-distrib/syscall_funcs.c and syscall.S, Kernel/Exec the loader and next_task
--     of tasking_funcs.S, Kernel/Keyboard the handlers of student-distrib/idt_funcs.c and switch_video,
--     Kernel/Idt populate_idt of student-distrib/kernel.c and the exceptions, Kernel/Boot the set-up.
--   Kernel/Syscall: student-distrib/syscall.S, the dispatch by number, execute and halt. Where the
--     processor goes on is a value of Control: back in a process, or at a program's entry point.
--   Kernel/Segments, Kernel/Entry: the descriptors of student-distrib/x86_desc.h and entry of kernel.c.
--   User: the support library syscalls/ece391support.c. User/System is the interface of the system calls,
--     a record of operations over an unknown state; the programs of syscalls/ take it as a parameter:
--     User/Programs has ece391testprint.c, ece391hello.c, ece391cat.c, ece391ls.c, ece391shell.c and
--     ece391counter.c, User/Grep, User/Syserr and User/Pingpong the programs of these names.
--   User/Emulate: syscalls/ece391emulate.c, the system calls over those of Linux, an interface too.
--   Fish: fish/fish.c, over the same interface and that of the functions of fish/blink.S.
--   Kernel/Calls: the kernel as such a system. A program's memory is apart from the kernel; a call puts
--     it into the page of the process, and takes it out again.
--   Kernel/Sound: what holds between two steps of the kernel, as the records Ready and Sound. Kernel/Steps
--     has the steps themselves, as a relation on the state that the keyboard's handler works on: a key, a
--     tick of either clock, a first shell that starts, a system call, a write to memory; and the states
--     that they lead to. Console/Places, Terminal/Places, Kernel/Keeps, Kernel/Between, Kernel/Enters,
--     Kernel/Loads, Kernel/Invariant and Kernel/Presses lead up to it, one layer of the calls each, and
--     Kernel/Entry/Stages and Kernel/Entry/Starts the state that entry leaves.
--   The other modules below a part hold its theorems and are named for what they are about.
--   Samples: states that the tests run on. The Tests modules, Kernel/Trials, Kernel/Runs, Kernel/Walks and
--     Kernel/Executable have one run of each result on such a state.
-- Names are those of the code. A function that changes file-level variables takes the record and returns
-- the new one behind its result; a pointer is a memory and an address in it.
--
-- Integers are native numbers with the 32-bit wrap-around written out; a negative int is its bit pattern,
-- and slt and sle compare signed. A memory holds a number at each address. A theorem whose bytes must be
-- below 256 says so.
--
-- Bounds and fuel. A loop that ends at a NUL byte runs on 2 ^ 32 rounds, which no string in the address
-- space exceeds; `none` means that the rounds ran out. itoa has 33 rounds, one more than a word has binary
-- digits; there `none` is also a division by a radix of 0 and a read behind the 36 digits and the NUL of
-- the table. read_data has 2 ^ 20 + 1, one more than the blocks of a 32-bit file size. Loops with a counter
-- are structural. A program's loop that a system call ends runs on fuel that its caller gives; cat needs
-- one more than the bytes of the file.
--
-- What is a parameter: the answers of the devices to port reads (`inb`), what the interrupt handlers do
-- while a read waits (`interrupts`; a result that relies on it says what it keeps), the linker's
-- addresses of the page tables, and what an uninitialised local variable holds. Interrupts otherwise
-- come between operations, never inside one. For the programs, also where their literals and buffers
-- stand (`rodata`, `buf`, `area`), and for the kernel as a system what the other programs do between an
-- execute and the halt that comes back (`children`). A literal is put into memory at its call; the
-- formats of the boot stand at 2 ^ 32, behind the address space.
--
-- Not modelled: the return of parse_input for a null pointer, which no caller passes; boot.S and the
-- descriptor tables of x86_desc.S; lldt, ltr, lidt and the register saves and iret frames of the
-- assembly, which have no state here; syscalls/ece391sigtest.c, as the kernel has no signals;
-- fish/blink.S, which fish.c calls through an interface; the tools and data of the build.
pub mod Prelude
pub mod Text
pub mod Block
pub mod Console
pub mod Terminal
pub mod Fs
pub mod Paging
pub mod Devices
pub mod Kernel
pub mod User
pub mod Fish
pub mod Samples
