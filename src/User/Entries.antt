-- ===== src/User/Entries.antt =====
-- The directory of the emulation: what a read of it puts into the buffer.
use Prim.Native.Nat.{min}
use zbiggie.Prelude.{
  ℕ, zero, suc, ◌+◌, ◌-◌, ◌≤◌, ◌<◌, ◌≡◌, ◌≢◌, ◌∙◌, ◌⊎◌, ap, sym, arith, false, Bool-cases, inl, inr,
  ◌==◌, ◌&&◌, not, ◌||◌, leb, ltb, slt, if◌then◌else◌, Bytes, update,
}
use native.Mathlib.Decide.{dec_lt}
use zbiggie.User.Emulate.{Linux, Emulator, fill_name, copy_name, ece391_read}

-- The name of `len` bytes at `from`, and the buffer at `to` behind or before it.
pub record Name (m : Bytes) (to from len : ℕ) : Type 0 where
  pub text : (i : ℕ) → i < len → m (from + i) ≢ 0
  pub nul : m (from + len) ≡ 0
  pub apart : (from + len < to) ⊎ (to + 32 ≤ from)

-- The buffer behind the copy: the name, and NULs up to the count.
abbrev pub entry_bytes : Bytes → ℕ → ℕ → ℕ → ℕ → ℕ → ℕ → ℕ
entry_bytes m to from len copied count a =
    if leb (to + copied) a && ltb a (to + count)
    then if ltb (a - to) len then m (from + (a - to)) else 0
    else m a

fill_name-bytes :
    (left : ℕ) (m : Bytes) (to from nbytes len copied : ℕ)
    → copied + left ≡ 33
    → copied ≤ min nbytes 32
    → nbytes < 2147483648
    → len ≤ copied
    → ((fill_name left m to nbytes copied).0 ≡ min nbytes 32)
      × ((a : ℕ)
          → (fill_name left m to nbytes copied).1 a
            ≡ entry_bytes m to from len copied (min nbytes 32) a)
unfolding fill_name
fill_name-bytes zero m to from nbytes len copied e le small end = absurd (omega arith)
fill_name-bytes (suc left) m to from nbytes len copied e le small end =
    elim (Bool-cases (slt copied nbytes && ltb copied 32)) [
      | inl more ↦
          let lt : copied < min nbytes 32 = ground arith in
          let (count, bytes) =
            fill_name-bytes left (update m (to + copied) 0) to from nbytes len (copied + 1)
              (omega arith) (omega arith) small (omega arith) in
          (rw more count, rw more (λ a. bytes a ∙ ground arith))
      | inr stop ↦
          let at_end : copied ≡ min nbytes 32 = ground arith in
          (rw stop at_end, rw stop (λ a. ground arith))
    ]

-- One more byte of the name.
entry_bytes-next :
    (m : Bytes) (to from len copied count a : ℕ)
    → Name m to from len
    → copied < len
    → copied < count
    → count ≤ 32
    → entry_bytes (update m (to + copied) (m (from + copied))) to from len (copied + 1) count a
      ≡ entry_bytes m to from len copied count a
entry_bytes-next m to from len copied count a name lt below most =
    let apart = name.apart in ground arith

-- The last byte that there is room for.
entry_bytes-end :
    (m : Bytes) (to from len copied count a : ℕ)
    → Name m to from len
    → copied < len
    → copied + 1 ≡ count
    → entry_bytes m to from len copied count a ≡ update m (to + copied) (m (from + copied)) a
entry_bytes-end m to from len copied count a name lt end = ground arith

Name-update :
    (m : Bytes) (to from len copied : ℕ)
    → Name m to from len
    → copied < 32
    → Name (update m (to + copied) (m (from + copied))) to from len
Name-update m to from len copied name most =
    let apart = name.apart in
    record {
      text = λ i lt. (let t = name.text i lt in λ e. ground (arith, t));
      nul = (let n = name.nul in ground arith);
      apart = apart;
    }

module _ (to from nbytes len : ℕ) (small : nbytes < 2147483648) where
  copy_name-bytes :
      (left : ℕ) (m : Bytes) (copied : ℕ)
      → Name m to from len
      → copied + left ≡ 33
      → copied < nbytes
      → copied < 32
      → copied ≤ len
      → ((copy_name left m to from nbytes copied).0 ≡ min nbytes 32)
        × ((a : ℕ)
            → (copy_name left m to from nbytes copied).1 a
              ≡ entry_bytes m to from len copied (min nbytes 32) a)
  unfolding copy_name
  copy_name-bytes zero m copied name e room most le = absurd (omega arith)
  copy_name-bytes (suc left) m copied name e room most le =
      elim (Bool-cases (m (from + copied) == 0)) [
        | inl nul ↦
            let zero' : m (from + copied) ≡ 0 = ground arith in
            let end : len ≤ copied = elim (dec_lt copied len) [
              | yes lt ↦ absurd (name.text copied lt zero')
              | no ge ↦ omega arith
            ] in
            let (count, bytes) =
              fill_name-bytes (suc left) m to from nbytes len copied e (omega arith) small end in
            (rw nul count, rw nul bytes)
        | inr text ↦
            let lt : copied < len = elim (Bool-cases (copied == len)) [
              | inl here ↦
                  let same : copied ≡ len = ground arith in
                  let z : m (from + copied) ≡ 0 = rw same name.nul in absurd (ground arith)
              | inr ne ↦ ground arith
            ] in
            let m1 = update m (to + copied) (m (from + copied)) in
            let name1 : Name m1 to from len = Name-update m to from len copied name (omega arith) in
            elim (Bool-cases (copied + 1 == nbytes)) [
              | inl full ↦
                  let full' : copied + 1 ≡ nbytes = ground arith in
                  let count : min nbytes 32 ≡ nbytes = omega arith in
                  (
                    rw (text, full) (sym count),
                    rw (text, full)
                        (λ a.
                          sym (entry_bytes-end m to from len copied nbytes a name lt full')
                          ∙ ap (λ (n : ℕ). entry_bytes m to from len copied n a) (sym count)),
                  )
              | inr more ↦ elim (Bool-cases (copied + 1 == 32)) [
                | inl whole ↦
                    let whole' : copied + 1 ≡ 32 = ground arith in
                    let count : min nbytes 32 ≡ 32 = omega arith in
                    (
                      rw (text, more, whole) (sym count),
                      rw (text, more, whole)
                          (λ a.
                            sym (entry_bytes-end m to from len copied 32 a name lt whole')
                            ∙ ap (λ (n : ℕ). entry_bytes m to from len copied n a) (sym count)),
                    )
                | inr on ↦
                    let (count, bytes) =
                      copy_name-bytes left m1 (copied + 1) name1 (omega arith) (ground arith)
                        (ground arith) (omega arith) in
                    (
                      rw (text, more, on) count,
                      rw (text, more, on)
                          (λ a.
                            bytes a
                            ∙ entry_bytes-next m to from len copied (min nbytes 32) a name lt
                                (omega arith) (omega arith)),
                    )
              ]
            ]
      ]

  -- If the name of the next entry does not overlap the buffer and the count is from 1 to 2 ^ 31 - 1, a
  -- read of the open directory returns the count, 32 at most, and puts that many bytes into the buffer,
  -- the name and then NULs, and changes no other byte.
  pub ece391_read_lem :
      (l : Linux) (here fd : ℕ) (m m1 : Bytes) (e : Emulator l) (st : l.State)
      → e.dir ≢ 0
      → e.dir_fd ≡ fd
      → l.readdir e.dir m e.linux ≡ (from, m1, st)
      → from ≢ 0
      → Name m1 to from len
      → 0 < nbytes
      → (m' : Bytes) × (ece391_read l here fd to nbytes m e
          ≡ (min nbytes 32, m', record e { linux = st }))
        × ((a : ℕ)
            → m' a ≡ (
                if leb to a && ltb a (to + min nbytes 32)
                then if ltb (a - to) len then m1 (from + (a - to)) else 0
                else m1 a))
  unfolding ece391_read
  ece391_read_lem l here fd m m1 e st opened same entry there name positive =
      let (count, bytes) =
        copy_name-bytes 33 m1 0 name (omega arith) positive (omega arith) (omega arith) in
      let closed : (e.dir == 0 || not (e.dir_fd == fd)) ≡ false = ground (arith, opened, same) in
      let more : (from == 0) ≡ false = ground (arith, there) in
      let from' : (l.readdir e.dir m e.linux).0 ≡ from =
        ap (λ (r : ℕ × Bytes × l.State). r.0) entry in
      let m1' : (l.readdir e.dir m e.linux).1 ≡ m1 = ap (λ (r : ℕ × Bytes × l.State). r.1) entry in
      (
        (copy_name 33 m1 to from nbytes 0).1,
        rw (closed, from', m1', more, count)
            (ap
              (λ (s : l.State).
                (min nbytes 32, (copy_name 33 m1 to from nbytes 0).1, record e { linux = s }))
              (ap (λ (r : ℕ × Bytes × l.State). r.2) entry)),
        λ a. bytes a ∙ ground arith,
      )
