-- ===== src/Kernel/Rejects.antt =====
-- The load of what is not a program.
use Prim.Native.Nat.{min}
use zbiggie.Prelude.{
  ℕ, ◌+◌, ◌-◌, ◌∙◌, ◌&&◌, leb, ltb, if◌then◌else◌, ap, ◌<◌, ◌≡◌, ◌⊎◌, refl, arith, true, false,
  Bool-cases, inl, inr, some, ◌==◌, minus_one, Bytes, load32,
}
use zbiggie.Fs.{
  File, ops_regular, num_dentry, num_inode, inode_length, ftype_regular, read_dentry_by_name,
}
use zbiggie.Fs.Data.{file_byte}
use zbiggie.Fs.Directory.{Named}
use zbiggie.Devices.{Ports}
use zbiggie.Kernel.{Kernel}
use zbiggie.Kernel.Files.{kopen, kread}
use zbiggie.Kernel.Exec.{Locals, parse_input, kload_exec_to_mem}
use zbiggie.Kernel.Opens.{IsFile, kopen-regular, kopen-missing}
use zbiggie.Kernel.Pieces.{found_regular, load32-same, kread-regular}
use zbiggie.Kernel.Serves.{regular_read-at}

-- The loader's buffer behind its first read: the bytes of the file, and where the file is shorter what
-- the buffer held before.
abbrev pub first_bytes : Kernel → ℕ → Bytes → Bytes
first_bytes k inode before j =
    if ltb j (inode_length k.volume inode) then file_byte k.volume inode j else before j

-- A regular file below 2 GB that does not give an executable's first word.
pub record IsOther (k : Kernel) (before exec : Bytes) (i inode : ℕ) : Type 0 where
  pub file : IsFile k.volume exec 0 i inode
  pub there : inode < num_inode k.volume
  pub short : inode_length k.volume inode < 2147483648
  pub magic : (load32 (first_bytes k inode before) 0 == 0x464c457f) ≡ false

first_bytes-read :
    (k : Kernel) (inode n j : ℕ) (before buf : Bytes)
    → n ≡ min 28 (inode_length k.volume inode - 0)
    → j < 28
    → buf j
      ≡ (if leb 0 j && ltb j (0 + n) then file_byte k.volume inode (0 + (j - 0)) else before j)
    → buf j ≡ first_bytes k inode before j
first_bytes-read k inode n j before buf count lt e =
    let same : 0 + (j - 0) ≡ j = omega arith in
    let until : (leb 0 j && ltb j (0 + n)) ≡ ltb j (inode_length k.volume inode) =
      ground (arith, count) in
    rw (until, same) at e

-- No entry of the directory has the name.
abbrev pub IsMissing : Kernel → Bytes → Type 0
IsMissing k exec = (j : ℕ) → j < num_dentry k.volume → ¬ (Named k.volume exec 0 j)

module _ (inb : Ports → ℕ → ℕ) (interrupts : Kernel → Kernel) (v : Locals) where
  kload_exec_to_mem-unopened :
      (input exec args : Bytes) (f : File) (k : Kernel)
      → parse_input input v.exec v.args 128 ≡ some (exec, args)
      → kopen inb v.d v.f exec 0 k ≡ some (minus_one, f, k)
      → kload_exec_to_mem inb interrupts v input k ≡ some (minus_one, k)
  unfolding kload_exec_to_mem
  kload_exec_to_mem-unopened input exec args f k parsed opened =
      elim (Bool-cases ((read_dentry_by_name k.volume exec 0 v.d).1.ftype == ftype_regular)) [
        | inl e ↦ rw (parsed, e, opened) refl
        | inr e ↦ rw (parsed, e) refl
      ]

  kload_exec_to_mem-unmarked :
      (input exec args buf : Bytes) (f f1 : File) (n : ℕ) (k : Kernel)
      → parse_input input v.exec v.args 128 ≡ some (exec, args)
      → ((read_dentry_by_name k.volume exec 0 v.d).1.ftype == ftype_regular) ≡ true
      → kopen inb v.d v.f exec 0 k ≡ some (0, f, k)
      → kread interrupts v.d f v.buf 0 28 k ≡ some (n, f1, buf, k)
      → (load32 buf 0 == 0x464c457f) ≡ false
      → kload_exec_to_mem inb interrupts v input k ≡ some (minus_one, k)
  unfolding kload_exec_to_mem
  kload_exec_to_mem-unmarked input exec args buf f f1 n k parsed type opened head magic =
      rw (parsed, type, opened, head, magic) refl

  -- If the directory does not have the first word of the command line, the load gives -1 and leaves the
  -- kernel as it was, whatever the loader's variables held before. It does so too if the directory has
  -- the word as a regular file below 2 GB whose inode is there, and the first four bytes of the loader's
  -- buffer behind the read are not those of an executable; a file of fewer than four bytes leaves there
  -- what the buffer held before.
  pub kload_exec_to_mem-refused :
      (input exec args : Bytes) (i inode : ℕ) (k : Kernel)
      → parse_input input v.exec v.args 128 ≡ some (exec, args)
      → IsMissing k exec ⊎ IsOther k v.buf exec i inode
      → kload_exec_to_mem inb interrupts v input k ≡ some (minus_one, k)
  kload_exec_to_mem-refused input exec args i inode k parsed (inl missing) =
      kload_exec_to_mem-unopened input exec args v.f k parsed
        (kopen-missing inb v.d v.f exec 0 k missing)
  kload_exec_to_mem-refused input exec args i inode k parsed (inr o) =
      let f : File = record v.f { pos = 0; inode = inode; optable = ops_regular } in
      let (buf, run, bytes) =
        regular_read-at k.volume f v.buf 0 28 inode 0 refl refl o.there o.short (omega arith)
          (omega arith) in
      let n = min 28 (inode_length k.volume inode - 0) in
      let f1 : File = record f { pos = 0 + n } in
      let word : load32 buf 0 ≡ load32 (first_bytes k inode v.buf) 0 =
        load32-same buf (first_bytes k inode v.buf) 0 0 (λ j lt.
          first_bytes-read k inode n (0 + j) v.buf buf refl (omega arith) (bytes (0 + j))) in
      let magic = o.magic in
      kload_exec_to_mem-unmarked input exec args buf f f1 n k parsed
        (found_regular k.volume exec 0 i inode v.d o.file)
        (kopen-regular inb v.d v.f exec 0 i inode k o.file)
        (kread-regular interrupts v.d f f1 v.buf buf 0 28 n k refl run)
        (ap (λ (w : ℕ). w == 0x464c457f) word ∙ magic)
