-- ===== src/Fs.antt =====
-- The read-only file system of student-distrib/zbigfs.c. The mounted image is memory from
-- `zbigfs_start` on: a boot block with the directory, the inodes, the data blocks, 4096 bytes each.
-- Fields are read at the offsets of the packed structs; offsets and block numbers are 32-bit words.
pub mod Directory
pub mod Data
mod Tests
use zbiggie.Prelude.{
  ℕ, zero, suc, ◌+◌, ◌-◌, ◌*◌, ◌/◌, ◌%◌, Bool, Option, none, some, ◌==◌, ltb, leb, if◌then◌else◌,
  minus_one, add32, sub32, mul32, slt, Bytes, update, load32,
}
use zbiggie.Text.{strncmp, strncpy}
use zbiggie.Block.{memcpy}

-- Memory with the image in it, and `zbigfs_start`.
pub record Volume : Type 0 where
  pub memory : Bytes
  pub start : ℕ

-- dentry_t; a field that the code leaves alone keeps its value.
pub record Dentry : Type 0 where
  pub fname : Bytes
  pub ftype : ℕ
  pub inode_num : ℕ

-- The table of operations that a FILE points to; `unset` is the pointer of a fresh or closed FILE.
pub data Optable : Type 0 where
  unset ops_regular ops_directory ops_rtc ops_stdin ops_stdout : Optable

-- struct FILE
pub record File : Type 0 where
  pub optable : Optable
  pub inode : ℕ
  pub pos : ℕ
  pub flags : ℕ

abbrev pub ftype_special : ℕ
ftype_special = 0

abbrev pub ftype_directory : ℕ
ftype_directory = 1

abbrev pub ftype_regular : ℕ
ftype_regular = 2

unfoldable pub num_dentry : Volume → ℕ
num_dentry v = load32 v.memory v.start

unfoldable pub num_inode : Volume → ℕ
num_inode v = load32 v.memory (v.start + 4)

-- The address of dentries[i]: three counters and the reserved bytes fill 64 bytes, and so does an entry.
unfoldable pub dentry_at : Volume → ℕ → ℕ
dentry_at v i = v.start + 64 + 64 * i

-- zbigfs_start + 1 + inode
unfoldable pub inode_at : Volume → ℕ → ℕ
inode_at v inode = v.start + 4096 * (1 + inode)

unfoldable pub inode_length : Volume → ℕ → ℕ
unfolding inode_at
inode_length v inode = load32 v.memory (inode_at v inode)

-- inode_entry->datablock_num[k]
unfoldable pub datablock_num : Volume → ℕ → ℕ → ℕ
unfolding inode_at
datablock_num v inode k = load32 v.memory (inode_at v inode + 4 + 4 * k)

-- datablock0 + ZBIGFS_BLOCK_SIZE * datablock_num[offset/ZBIGFS_BLOCK_SIZE] + offset%ZBIGFS_BLOCK_SIZE
unfoldable pub data_at : Volume → ℕ → ℕ → ℕ
unfolding inode_at num_inode datablock_num
data_at v inode offset =
    inode_at v (num_inode v) + mul32 4096 (datablock_num v inode (offset / 4096)) + offset % 4096

-- The status and the entry that the caller's struct then holds.
unfoldable pub read_dentry_by_index : Volume → ℕ → Dentry → ℕ × Dentry
unfolding num_dentry dentry_at
read_dentry_by_index v i dentry =
    let ftype = load32 v.memory (dentry_at v i + 32) in
    if leb (num_dentry v) i then (minus_one, dentry) else (
      0,
      record {
        fname = strncpy dentry.fname 0 v.memory (dentry_at v i) 32;
        ftype = ftype;
        inode_num =
            if ftype == ftype_regular
            then load32 v.memory (dentry_at v i + 36)
            else dentry.inode_num;
      },
    )

-- The entries from `i` on, of which `rounds` are left.
read_dentry_loop : ℕ → Volume → Bytes → ℕ → ℕ → Dentry → ℕ × Dentry
unfolding read_dentry_by_index
read_dentry_loop zero v m fname i dentry = (minus_one, dentry)
read_dentry_loop (suc rounds) v m fname i dentry =
    let rest = read_dentry_loop rounds v m fname (i + 1) dentry in
    if strncmp m fname v.memory (dentry_at v i) 31 == 0
    then read_dentry_by_index v i dentry
    else rest

unfoldable pub read_dentry_by_name : Volume → Bytes → ℕ → Dentry → ℕ × Dentry
unfolding read_dentry_loop
read_dentry_by_name v m fname dentry = read_dentry_loop (num_dentry v) v m fname 0 dentry

-- The whole blocks, then the last one. `last` is the end of the read in the file.
read_blocks : ℕ → Volume → ℕ → ℕ → ℕ → Bytes → ℕ → Option Bytes
unfolding data_at
read_blocks zero v inode offset last m buf = none
read_blocks (suc fuel) v inode offset last m buf =
    let chunk = 4096 - offset % 4096 in
    let rest =
      read_blocks fuel v inode (add32 offset chunk) last
        (memcpy m buf v.memory (data_at v inode offset) chunk) (buf + chunk) in
    let tail =
      memcpy m buf v.memory (data_at v inode offset) (sub32 (last % 4096) (offset % 4096)) in
    if ltb (offset / 4096) (last / 4096) then rest else some tail

-- The count, and the memory that `buf` points into. A file has at most 2 ^ 20 blocks.
pub read_data : Volume → ℕ → ℕ → Bytes → ℕ → ℕ → Option (ℕ × Bytes)
read_data v inode offset m buf length =
    let end = add32 offset length in
    let last = if ltb (inode_length v inode) end then inode_length v inode else end in
    let copied = read_blocks 1048577 v inode offset last m buf in
    if leb (num_inode v) inode
    then some (minus_one, m)
    else if ltb last offset
    then some (0, m)
    else elim copied [ none ↦ none | some m' ↦ some (sub32 last offset, m') ]

-- The count, the FILE and the memory.
pub regular_read : Volume → File → Bytes → ℕ → ℕ → Option (ℕ × File × Bytes)
regular_read v f m buf nbytes = elim (read_data v f.inode f.pos m buf nbytes) [
  | none ↦ none
  | some (n, m') ↦
      some (if slt n 0 then (minus_one, f, m') else (n, record f { pos = add32 f.pos n }, m'))
]

-- `dentry` is the local variable of directory_read, with what its stack slot held.
unfoldable pub directory_read : Volume → Dentry → File → Bytes → ℕ → ℕ → ℕ × File × Bytes
unfolding read_dentry_by_index
directory_read v dentry f m buf nbytes =
    let (status, d) = read_dentry_by_index v f.pos dentry in
    if ltb 0 status
    then (0, f, m)
    else (nbytes, record f { pos = add32 f.pos 1 }, strncpy m buf d.fname 0 nbytes)
