-- ===== src/Kernel/Pieces.antt =====
-- The pieces of the load of an executable: its reads, its bytes and the start of its process.
use Prim.Native.Nat.{min}
use zbiggie.Prelude.{
  ℕ, ◌+◌, ◌-◌, ◌≤◌, ◌<◌, ◌≡◌, ◌≢◌, ◌∙◌, refl, arith, Bool, true, false, Bool-cases, inl, inr, some,
  ◌==◌, ◌&&◌, leb, ltb, if◌then◌else◌, minus_one, Bytes, load32, update,
}
use zbiggie.Block.{memcpy}
use zbiggie.Block.Move.{memcpy_lem}
use zbiggie.Fs.{
  Volume, Dentry, File, Optable, ops_regular, num_inode, num_dentry, inode_length, regular_read,
  read_dentry_by_name, read_dentry_by_index, ftype_regular,
}
use zbiggie.Fs.Data.{file_byte}
use zbiggie.Fs.Directory.{read_dentry_by_name-found}
use zbiggie.Kernel.{
  Kernel, get_current_pcb, get_new_fd, open_standard, start_process, switch_context,
  setup_new_process, scan_files,
}
use zbiggie.Kernel.Files.{kread}
use zbiggie.Kernel.Exec.{load_addr}
use zbiggie.Kernel.Scheduling.{find_free_pcb-first}
use zbiggie.Kernel.Opens.{IsFile}
use zbiggie.Kernel.Serves.{regular_read-at}

-- What an operation leaves that works on the files of a process.
pub record SameStore (k k' : Kernel) : Type 0 where
  pub pages : k'.pages ≡ k.pages
  pub volume : k'.volume ≡ k.volume

get_new_fd-SameStore : (k : Kernel) → SameStore k (get_new_fd k).1
unfolding get_new_fd
get_new_fd-SameStore k = elim (Bool-cases (scan_files 8 (get_current_pcb k).f 0 == minus_one)) [
  | inl e ↦ rw e (record { pages = refl; volume = refl })
  | inr e ↦ rw e (record { pages = refl; volume = refl })
]

open_standard-SameStore : (t : Optable) (k : Kernel) → SameStore k (open_standard t k)
unfolding open_standard
open_standard-SameStore t k =
    let s = get_new_fd-SameStore k in record { pages = s.pages; volume = s.volume }

start_process-SameStore : (pid : ℕ) (k : Kernel) → SameStore k (start_process pid k)
unfolding start_process switch_context
start_process-SameStore pid k = record { pages = refl; volume = refl }

-- The number `pid` is the lowest of a free block.
pub record Lowest (k : Kernel) (pid : ℕ) : Type 0 where
  pub lo : 0 < pid
  pub hi : pid < 11
  pub free : (k.pcbs pid).present ≡ 0
  pub taken : (j : ℕ) → 0 < j → j < pid → (k.pcbs j).present ≢ 0

pub setup_new_process-SameStore :
    (k : Kernel) (pid : ℕ) → Lowest k pid → SameStore k (setup_new_process k).1
unfolding setup_new_process
setup_new_process-SameStore k pid h =
    let l = h.lo in
    let g = h.hi in
    let real : pid == minus_one ≡ false = ground arith in
    let s0 = start_process pid k in
    let s1 = open_standard Optable.ops_stdin s0 in
    let a = start_process-SameStore pid k in
    let b = open_standard-SameStore Optable.ops_stdin s0 in
    let c = open_standard-SameStore Optable.ops_stdout s1 in
    rw (find_free_pcb-first k pid h.lo h.hi h.free h.taken, real)
      (record { pages = c.pages ∙ b.pages ∙ a.pages; volume = c.volume ∙ b.volume ∙ a.volume })

pub kread-regular :
    (interrupts : Kernel → Kernel) (d : Dentry) (f f' : File) (m out : Bytes) (buf size n : ℕ)
    (k : Kernel)
    → f.optable ≡ ops_regular
    → regular_read k.volume f m buf size ≡ some (n, f', out)
    → kread interrupts d f m buf size k ≡ some (n, f', out, k)
unfolding kread
kread-regular interrupts d f f' m out buf size n k table run = rw (kread, table, run) refl

pub found_regular :
    (v : Volume) (m : Bytes) (name i inode : ℕ) (d : Dentry)
    → IsFile v m name i inode
    → ((read_dentry_by_name v m name d).1.ftype == ftype_regular) ≡ true
unfolding read_dentry_by_index
found_regular v m name i inode d e =
    let found = read_dentry_by_name-found v m name d i e.there e.named e.first in
    let inside = e.there in
    let here : leb (num_dentry v) i ≡ false = ground (arith, inside) in
    rw (found, here, e.regular) refl

-- The header as it is read into the buffer.
header_bytes :
    (v : Volume) (inode : ℕ) (buf before : Bytes) (a : ℕ)
    → a < 28
    → buf a ≡ (if leb 0 a && ltb a (0 + 28) then file_byte v inode (0 + (a - 0)) else before a)
    → buf a ≡ file_byte v inode a
header_bytes v inode buf before a lt e =
    let inside : (leb 0 a && ltb a (0 + 28)) ≡ true = ground arith in
    let same : 0 + (a - 0) ≡ a = omega arith in rw (inside, same) at e

-- The image in two pieces, the copied header and the read behind it.
image_bytes :
    (len : ℕ) (source buf page out : Bytes) (a : ℕ)
    → 28 ≤ len
    → ((j : ℕ) → j < 28 → buf j ≡ source j)
    → out a ≡ (
        if leb (load_addr + 28) a && ltb a (load_addr + 28 + (len - 28))
        then source (28 + (a - (load_addr + 28)))
        else memcpy page load_addr buf 0 28 a)
    → out a
      ≡ (if leb load_addr a && ltb a (load_addr + len) then source (a - load_addr) else page a)
image_bytes len source buf page out a ge head e =
    let copy = memcpy_lem page load_addr buf 0 28 a in
    elim (Bool-cases (leb (load_addr + 28) a && ltb a (load_addr + 28 + (len - 28)))) [
      | inl behind ↦
          let inside : (leb load_addr a && ltb a (load_addr + len)) ≡ true = ground arith in
          let same : 28 + (a - (load_addr + 28)) ≡ a - load_addr = ground arith in
          let e' : out a ≡ source (28 + (a - (load_addr + 28))) = rw behind at e in
          rw inside (rw same at e')
      | inr off ↦
          let e' : out a ≡ memcpy page load_addr buf 0 28 a = rw off at e in
          elim (Bool-cases (leb load_addr a && ltb a (load_addr + 28))) [
            | inl front ↦
                let inside : (leb load_addr a && ltb a (load_addr + len)) ≡ true = ground arith in
                let c : memcpy page load_addr buf 0 28 a ≡ buf (0 + (a - load_addr)) =
                  rw front at copy in
                let same : 0 + (a - load_addr) ≡ a - load_addr = omega arith in
                let c' : memcpy page load_addr buf 0 28 a ≡ buf (a - load_addr) = rw same at c in
                rw inside (e' ∙ c' ∙ head (a - load_addr) (ground arith))
            | inr outside ↦
                let out_of : (leb load_addr a && ltb a (load_addr + len)) ≡ false = ground arith in
                let c : memcpy page load_addr buf 0 28 a ≡ page a = rw outside at copy in
                rw out_of (e' ∙ c)
          ]
    ]

-- A word of four bytes that are the same.
pub load32-same :
    (m m' : Bytes) (a b : ℕ) → ((j : ℕ) → j < 4 → m (a + j) ≡ m' (b + j)) → load32 m a ≡ load32 m' b
unfolding load32
load32-same m m' a b h =
    let ea : a + 0 ≡ a = omega arith in
    let eb : b + 0 ≡ b = omega arith in
    let e0 : m a ≡ m' b = rw (ea, eb) at (h 0 (omega arith)) in
    rw (e0, h 1 (omega arith), h 2 (omega arith), h 3 (omega arith)) refl

pub status_zero : (r : ℕ × Kernel) → r.0 ≡ 0 → r ≡ (0, r.1)
status_zero (n, k) e = rw e refl

-- The page that was there, seen from before the start of the process.
pub old_page :
    (x : ℕ) (b : Bool) (source : ℕ) (pages pages' : ℕ → Bytes) (current pid a : ℕ)
    → pages ≡ pages'
    → current ≡ pid
    → x ≡ (if b then source else pages current a)
    → x ≡ (if b then source else pages' pid a)
old_page x b source pages pages' current pid a e e' h = rw (← e, ← e') h

-- The page of the process that runs, behind a write to its memory.
pub page_of :
    (out : Bytes) (pages : ℕ → Bytes) (current pid a : ℕ)
    → current ≡ pid
    → update pages current out pid a ≡ out a
page_of out pages current pid a e =
    let self : (pid == pid) ≡ true = ground arith in rw (e, self) refl

pub other_page :
    (out : Bytes) (pages : ℕ → Bytes) (current q : ℕ)
    → (q == current) ≡ false
    → update pages current out q ≡ pages q
other_page out pages current q e = rw e refl

module _ (interrupts : Kernel → Kernel) (d : Dentry) (vol : Volume) (inode : ℕ)
    (there : inode < num_inode vol) (header : 28 ≤ inode_length vol inode)
    (fits : inode_length vol inode ≤ 3899420) where
  -- The first read of an executable gives its header and moves the position behind it.
  pub header_read :
      (f : File) (before : Bytes) (k : Kernel)
      → k.volume ≡ vol
      → f.optable ≡ ops_regular
      → f.inode ≡ inode
      → f.pos ≡ 0
      → (n : ℕ) × (f1 : File) × (buf : Bytes) × (kread interrupts d f before 0 28 k
          ≡ some (n, f1, buf, k))
        × (f1.optable ≡ ops_regular)
        × (f1.inode ≡ inode)
        × (f1.pos ≡ 28)
        × ((j : ℕ) → j < 28 → buf j ≡ file_byte vol inode j)
  header_read f before k mounted table number start =
      let (buf, run, bytes) =
        regular_read-at vol f before 0 28 inode 0 number start there (omega arith) (omega arith)
          (omega arith) in
      let n = min 28 (inode_length vol inode - 0) in
      let full : n ≡ 28 = omega arith in
      let f1 : File = record f { pos = 0 + n } in
      (
        n,
        f1,
        buf,
        kread-regular interrupts d f f1 before buf 0 28 n k table (rw mounted run),
        table,
        number,
        omega arith,
        λ j lt. header_bytes vol inode buf before j lt (rw full at (bytes j)),
      )

  -- The second read completes the image behind the copied header.
  pub image_read :
      (f1 : File) (buf page : Bytes) (k : Kernel)
      → k.volume ≡ vol
      → f1.optable ≡ ops_regular
      → f1.inode ≡ inode
      → f1.pos ≡ 28
      → ((j : ℕ) → j < 28 → buf j ≡ file_byte vol inode j)
      → (n : ℕ) × (f2 : File) × (out : Bytes) × (kread interrupts d f1
            (memcpy page load_addr buf 0 28)
            (load_addr + 28)
            3899392
            k
          ≡ some (n, f2, out, k))
        × ((a : ℕ)
            → out a ≡ (
                if leb load_addr a && ltb a (load_addr + inode_length vol inode)
                then file_byte vol inode (a - load_addr)
                else page a))
  image_read f1 buf page k mounted table number start head =
      let len = inode_length vol inode in
      let m = memcpy page load_addr buf 0 28 in
      let (out, run, bytes) =
        regular_read-at vol f1 m (load_addr + 28) 3899392 inode 28 number start there (omega arith)
          (omega arith) header in
      let n = min 3899392 (len - 28) in
      let all : n ≡ len - 28 = omega arith in
      let f2 : File = record f1 { pos = 28 + n } in
      (
        n,
        f2,
        out,
        kread-regular interrupts d f1 f2 m out (load_addr + 28) 3899392 n k table (rw mounted run),
        λ a. image_bytes len (file_byte vol inode) buf page out a header head (rw all at (bytes a)),
      )

-- The entry point in the image is that of the file.
pub image_entry :
    (len : ℕ) (source page out : Bytes)
    → 28 ≤ len
    → ((a : ℕ)
        → out a
          ≡ (if leb load_addr a && ltb a (load_addr + len) then source (a - load_addr) else page a))
    → load32 out (load_addr + 24) ≡ load32 source 24
image_entry len source page out ge image = load32-same out source (load_addr + 24) 24 (λ j lt.
    let inside : (leb load_addr (load_addr + 24 + j) && ltb (load_addr + 24 + j) (load_addr + len))
        ≡ true =
      ground arith in
    let same : load_addr + 24 + j - load_addr ≡ 24 + j = omega arith in
    image (load_addr + 24 + j) ∙ rw (inside, same) refl)
