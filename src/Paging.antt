-- ===== src/Paging.antt =====
-- The page tables of student-distrib/page.c: init_pd, set_vmem_table and the tables that init_paging
-- builds. An entry is a 32-bit word, put together with the native bit operations; the linker's
-- addresses of the two page tables are fields.
pub mod Isolation
mod Tests
use Prim.Native.Nat.{bit_and, bit_or}
use zbiggie.Prelude.{ℕ, ◌+◌, ◌-◌, ◌*◌, ◌%◌, ◌==◌, if◌then◌else◌, update, for_range}

-- The arrays of page.c and the control registers that it sets. `cr3` is the number of the directory.
pub record Tables : Type 0 where
  pub page_directories : ℕ → ℕ → ℕ
  pub low_memory_table : ℕ → ℕ
  pub video_table : ℕ → ℕ
  pub low_memory_address : ℕ
  pub video_address : ℕ
  pub cr3 : ℕ
  pub cr4 : ℕ
  pub cr0 : ℕ

abbrev pub offset_4m : ℕ
offset_4m = 4194304

abbrev pub offset_4k : ℕ
offset_4k = 4096

-- OFFSET_VIDEO, and the entry of the page at that address.
abbrev pub offset_video : ℕ
offset_video = 753664

abbrev pub video_entry : ℕ
video_entry = 184

-- NUM_PDS+1: the directory entry behind those of the programs.
abbrev pub window : ℕ
window = 12

-- USER_PAGE_DIR
abbrev pub user_page_dir : ℕ
user_page_dir = 32

-- PRESENT, WRITE, USER and SIZE, which tables and directories share.
abbrev pub user_flags : ℕ
user_flags = 7

-- (addr & PDE_ADDRESS_MASK) | flags
abbrev pub table_entry : ℕ → ℕ → ℕ
table_entry addr flags = bit_or (bit_and addr 0xFFFF_F000) flags

-- The page of terminal `term` in the window, (NUM_PDS+1)*OFFSET_4M + term*OFFSET_4K.
abbrev pub buffer_page : ℕ → ℕ
buffer_page term = window * offset_4m + term * offset_4k

unfoldable pub set_vmem_table : ℕ → ℕ → Tables → Tables
set_vmem_table current_terminal term s = record s {
  low_memory_table =
      update s.low_memory_table video_entry
        (bit_or (if current_terminal == term then offset_video else buffer_page term) user_flags);
}

-- The stores of init_pd into a directory, in their order.
unfoldable pub init_pd : ℕ → Tables → Tables
init_pd pd_num s =
    let empty = for_range 1024 0 (λ i d. update d i 0) (s.page_directories pd_num) in
    let d0 = update empty 0 (table_entry s.low_memory_address 1) in
    let d1 = update d0 1 (bit_or offset_4m 0x81) in
    let d2 = update d1 user_page_dir (bit_or ((pd_num + 1) * offset_4m) 0x87) in
    let d3 = update d2 (user_page_dir + 1) (table_entry s.low_memory_address 7) in
    let d4 = update d3 window (table_entry s.video_address 1) in
    record s { page_directories = update s.page_directories pd_num d4 }

unfoldable pub set_cr3 : ℕ → Tables → Tables
set_cr3 pd_num s = record s { cr3 = pd_num }

-- init_paging up to the registers: the kernel's directory and the two tables. The coloring of the
-- terminals' pages is `Kernel.Boot.color_terminals`.
unfoldable pub init_tables : Tables → Tables
init_tables s =
    let empty = for_range 1024 0 (λ i d. update d i 0) (s.page_directories 0) in
    let d0 = update empty 0 (table_entry s.low_memory_address 1) in
    let d1 = update d0 1 (bit_or offset_4m 0x81) in
    let d2 = update d1 window (table_entry s.video_address 7) in
    let low = for_range 1024 0 (λ i t. update t i (i * offset_4k)) s.low_memory_table in
    let pages =
      for_range 3 0 (λ i t. update t i (bit_or (buffer_page i) user_flags)) s.video_table in
    record s {
      page_directories = update s.page_directories 0 d2;
      low_memory_table = update low video_entry (bit_or offset_video user_flags);
      video_table = update pages 3 (bit_or offset_video user_flags);
      cr3 = 0;
      cr4 = bit_or s.cr4 0x10;
      cr0 = bit_or s.cr0 0x8000_0000;
    }
