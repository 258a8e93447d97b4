-- ===== src/Fs/Data.antt =====
-- The content of a file, and what read_data and regular_read copy of it.
use Prim.Native.Nat.{min}
use zbiggie.Prelude.{
  ℕ, zero, suc, ◌+◌, ◌-◌, ◌/◌, ◌%◌, ◌≤◌, ◌<◌, ◌≡◌, ◌∙◌, ◌⊎◌, ◌&&◌, Bool-cases, inl, inr, true,
  false, arith, some, ltb, leb, if◌then◌else◌, minus_one, modulus, add32, sub32, slt, Bytes,
}
use native.Mathlib.Decide.{dec_lt}
use zbiggie.Block.{memcpy}
use zbiggie.Block.Move.{memcpy_lem}
use zbiggie.Fs.{
  Volume, File, data_at, num_inode, inode_length, read_blocks, read_data, regular_read,
}

-- Byte `k` of the file: the byte of its data block.
abbrev pub file_byte : Volume → ℕ → ℕ → ℕ
file_byte v inode k = v.memory (data_at v inode k)

-- The `n` bytes from `buf` on are those of the file from `offset` on; the others are those of `m`.
abbrev pub loaded : Volume → ℕ → ℕ → Bytes → ℕ → ℕ → ℕ → ℕ
loaded v inode offset m buf n a =
    if leb buf a && ltb a (buf + n) then file_byte v inode (offset + (a - buf)) else m a

-- A block is contiguous in the image.
data_at-add :
    (v : Volume) (inode offset i : ℕ)
    → offset % 4096 + i < 4096
    → data_at v inode (offset + i) ≡ data_at v inode offset + i
unfolding data_at
data_at-add v inode offset i h =
    let block : (offset + i) / 4096 ≡ offset / 4096 = omega arith in
    let rest : (offset + i) % 4096 ≡ offset % 4096 + i = omega arith in
    rw (block, rest) (omega arith)

-- One memcpy within a block.
memcpy-loaded :
    (v : Volume) (inode offset : ℕ) (m : Bytes) (buf n a : ℕ)
    → offset % 4096 + n ≤ 4096
    → memcpy m buf v.memory (data_at v inode offset) n a ≡ loaded v inode offset m buf n a
memcpy-loaded v inode offset m buf n a h = ground (
  arith,
  memcpy_lem m buf v.memory (data_at v inode offset) n a,
  data_at-add v inode offset (a - buf),
)

-- A copy of `c` bytes and one of the next `n` make up a copy of `c + n`.
loaded-loaded :
    (v : Volume) (inode offset : ℕ) (m m' : Bytes) (buf c n a : ℕ)
    → m' a ≡ loaded v inode offset m buf c a
    → loaded v inode (offset + c) m' (buf + c) n a ≡ loaded v inode offset m buf (c + n) a
loaded-loaded v inode offset m m' buf c n a h = ground arith

read_blocks_step :
    (fuel : ℕ) (v : Volume) (inode offset last : ℕ) (m : Bytes) (buf : ℕ)
    → offset / 4096 < last / 4096
    → last < modulus
    → let chunk = 4096 - offset % 4096 in
      read_blocks (suc fuel) v inode offset last m buf
      ≡ read_blocks fuel v inode
          (offset + chunk)
          last
          (memcpy m buf v.memory (data_at v inode offset) chunk)
          (buf + chunk)
unfolding read_blocks
read_blocks_step fuel v inode offset last m buf lt small =
    let more : ltb (offset / 4096) (last / 4096) ≡ true = ground arith in
    let step : add32 offset (4096 - offset % 4096) ≡ offset + (4096 - offset % 4096) =
      omega arith in
    rw (more, step)

read_blocks_last :
    (fuel : ℕ) (v : Volume) (inode offset last : ℕ) (m : Bytes) (buf : ℕ)
    → offset ≤ last
    → offset / 4096 ≡ last / 4096
    → read_blocks (suc fuel) v inode offset last m buf
      ≡ some (memcpy m buf v.memory (data_at v inode offset) (last - offset))
unfolding read_blocks
read_blocks_last fuel v inode offset last m buf h same =
    let done : ltb (offset / 4096) (last / 4096) ≡ false = ground arith in
    let e : sub32 (last % 4096) (offset % 4096) ≡ last - offset = omega arith in rw (done, e)

-- From `offset` up to `last`, with a round for each block that is left, the loop ends.
read_blocks-loaded :
    (fuel : ℕ) (v : Volume) (inode offset last : ℕ) (m : Bytes) (buf : ℕ)
    → offset ≤ last
    → last < modulus
    → last / 4096 - offset / 4096 < fuel
    → (out : Bytes) × (read_blocks fuel v inode offset last m buf ≡ some out)
      × ((a : ℕ) → out a ≡ loaded v inode offset m buf (last - offset) a)
read_blocks-loaded zero v inode offset last m buf h small f = absurd (omega arith)
read_blocks-loaded (suc fuel) v inode offset last m buf h small f =
    elim (dec_lt (offset / 4096) (last / 4096)) [
      | yes lt ↦ extend lt (
          read_blocks-loaded fuel v inode (offset + chunk) last m' (buf + chunk) (omega arith) small
            (omega arith))
      | no ge ↦ (
        memcpy m buf v.memory (data_at v inode offset) (last - offset),
        read_blocks_last fuel v inode offset last m buf h (omega arith),
        λ a. memcpy-loaded v inode offset m buf (last - offset) a (omega arith),
      )
    ]
  where
    chunk : ℕ
    chunk = 4096 - offset % 4096

    m' : Bytes
    m' = memcpy m buf v.memory (data_at v inode offset) chunk

    extend :
        offset / 4096 < last / 4096
        → (out : Bytes) × (read_blocks fuel v inode (offset + chunk) last m' (buf + chunk)
            ≡ some out)
          × ((a : ℕ)
              → out a
                ≡ loaded v inode (offset + chunk) m' (buf + chunk) (last - (offset + chunk)) a)
        → (out : Bytes) × (read_blocks (suc fuel) v inode offset last m buf ≡ some out)
          × ((a : ℕ) → out a ≡ loaded v inode offset m buf (last - offset) a)
    extend lt (out, run, bytes) = (
      out,
      read_blocks_step fuel v inode offset last m buf lt small ∙ run,
      λ a.
          (let n = last - (offset + chunk) in
            let e : chunk + n ≡ last - offset = omega arith in
            bytes a
            ∙ loaded-loaded v inode offset m m' buf chunk n a
                (memcpy-loaded v inode offset m buf chunk a (omega arith))
            ∙ (rw e)),
    )

-- read_data of an inode that is there, from an offset that is not behind the end of the file, ends
-- if the file's length and the end of the request are below 2 ^ 32. It returns the number of bytes
-- from `offset` to the end of the request or of the file, whichever comes first, puts exactly those
-- bytes of the file at `buf`, and leaves every other byte of memory.
pub read_data_lem :
    (v : Volume) (inode offset : ℕ) (m : Bytes) (buf length : ℕ)
    → inode < num_inode v
    → inode_length v inode < modulus
    → offset + length < modulus
    → offset ≤ inode_length v inode
    → let n = min length (inode_length v inode - offset) in
      (out : Bytes) × (read_data v inode offset m buf length ≡ some (n, out))
      × ((a : ℕ) → out a ≡ loaded v inode offset m buf n a)
unfolding read_data
read_data_lem v inode offset m buf length there size wrap start =
    finish (
      read_blocks-loaded 1048577 v inode offset last m buf (omega arith) (omega arith)
        (omega arith))
  where
    last : ℕ
    last = min (offset + length) (inode_length v inode)

    n : ℕ
    n = min length (inode_length v inode - offset)

    finish :
        (out : Bytes) × (read_blocks 1048577 v inode offset last m buf ≡ some out)
          × ((a : ℕ) → out a ≡ loaded v inode offset m buf (last - offset) a)
        → (out : Bytes) × (read_data v inode offset m buf length ≡ some (n, out))
          × ((a : ℕ) → out a ≡ loaded v inode offset m buf n a)
    finish (out, run, bytes) =
        let e0 : leb (num_inode v) inode ≡ false = ground arith in
        let e1 : (if ltb (inode_length v inode) (add32 offset length)
              then inode_length v inode
              else add32 offset length)
            ≡ last =
          ground arith in
        let e2 : ltb last offset ≡ false = ground arith in
        let e3 : sub32 last offset ≡ n = omega arith in
        let e4 : last - offset ≡ n = omega arith in
        (out, rw (e0, e1, e2, run, e1, e3), λ a. bytes a ∙ (rw e4))

-- read_data returns -1 for an inode that is not there, 0 from behind the end of the file, and leaves
-- memory as it was in both cases.
pub read_data_refused :
    (v : Volume) (inode offset : ℕ) (m : Bytes) (buf length : ℕ)
    → (num_inode v ≤ inode) ⊎ (inode_length v inode < offset)
    → read_data v inode offset m buf length
      ≡ (if leb (num_inode v) inode then some (minus_one, m) else some (0, m))
unfolding read_data
read_data_refused v inode offset m buf length h = elim (Bool-cases (leb (num_inode v) inode)) [
  | inl e ↦ rw e
  | inr e ↦
      let behind : ltb
            (if ltb (inode_length v inode) (add32 offset length)
              then inode_length v inode
              else add32 offset length)
            offset
          ≡ true =
        ground arith in
      rw (e, behind)
]

-- A regular_read of an inode that is there, from a position that is not behind the end of the file,
-- with the file's length below 2 ^ 31 and the end of the request below 2 ^ 32, ends. It returns the
-- number of bytes up to the end of the request or of the file, whichever comes first, puts exactly
-- those bytes at `buf`, and moves the position of the FILE by as much.
pub regular_read_lem :
    (v : Volume) (f : File) (m : Bytes) (buf nbytes : ℕ)
    → f.inode < num_inode v
    → inode_length v f.inode < 2147483648
    → f.pos + nbytes < modulus
    → f.pos ≤ inode_length v f.inode
    → let n = min nbytes (inode_length v f.inode - f.pos) in
      (out : Bytes) × (regular_read v f m buf nbytes ≡ some (n, record f { pos = f.pos + n }, out))
      × ((a : ℕ) → out a ≡ loaded v f.inode f.pos m buf n a)
unfolding regular_read
regular_read_lem v f m buf nbytes there size wrap start =
    finish (read_data_lem v f.inode f.pos m buf nbytes there (omega arith) wrap start)
  where
    n : ℕ
    n = min nbytes (inode_length v f.inode - f.pos)

    finish :
        (out : Bytes) × (read_data v f.inode f.pos m buf nbytes ≡ some (n, out))
          × ((a : ℕ) → out a ≡ loaded v f.inode f.pos m buf n a)
        → (out : Bytes) × (regular_read v f m buf nbytes
            ≡ some (n, record f { pos = f.pos + n }, out))
          × ((a : ℕ) → out a ≡ loaded v f.inode f.pos m buf n a)
    finish (out, run, bytes) =
        let e : slt n 0 ≡ false = ground arith in
        let p : add32 f.pos n ≡ f.pos + n = omega arith in
        (out, rw (run, regular_read, e, p), bytes)
