-- ===== src/Kernel/Opens.antt =====
-- What `open` does: a name that the directory has, and one that it does not have.
use zbiggie.Prelude.{
  ℕ, ◌+◌, ◌≤◌, ◌<◌, ◌≡◌, ◌∙◌, refl, ap, sym, arith, true, false, some, ◌==◌, if◌then◌else◌, leb,
  sle, slt, ◌||◌, ◌≢◌, minus_one, load32, Bytes,
}
use zbiggie.Prelude.{Bool-cases, inl, inr}
use zbiggie.Text.{strlen}
use zbiggie.Fs.{Volume, Dentry, File, ops_regular, num_dentry, dentry_at, read_dentry_by_index}
use zbiggie.Fs.Directory.{Named, read_dentry_by_name-found, read_dentry_by_name-missing}
use zbiggie.Devices.{Ports}
use zbiggie.Kernel.{
  Kernel, user_memory, get_current_pcb, with_file, get_new_fd, free_fd, in_use, mark, unmark,
}
use zbiggie.Kernel.Files.{usr_ptr_ok, syscall_open, kopen, open_operation, set_optable}
use zbiggie.Kernel.Descriptors.{get_new_fd-first}

-- The name that the process passes ends after `len` bytes, usr_ptr_ok accepts them, and descriptor `fd` is the lowest that is free.
pub record Asks (name len fd : ℕ) (k : Kernel) : Type 0 where
  pub ends : strlen (user_memory k) name ≡ some len
  pub allowed : usr_ptr_ok name len ≡ true
  pub behind : 2 ≤ fd
  pub low : fd < 8
  pub free : in_use ((get_current_pcb k).f fd) ≡ false
  pub taken : (j : ℕ) → j < fd → in_use ((get_current_pcb k).f j) ≡ true

-- Entry `i` is the first of the name, and a regular file with inode `inode`.
pub record IsFile (v : Volume) (m : Bytes) (name i inode : ℕ) : Type 0 where
  pub there : i < num_dentry v
  pub named : Named v m name i
  pub first : (j : ℕ) → j < i → ¬ (Named v m name j)
  pub regular : load32 v.memory (dentry_at v i + 32) ≡ 2
  pub number : load32 v.memory (dentry_at v i + 36) ≡ inode

-- Between `k` and `k'` only descriptor `fd` of the process that runs has changed.
pub record OnlyFile (fd : ℕ) (k k' : Kernel) : Type 0 where
  pub process : k'.current_process ≡ k.current_process
  pub memory : user_memory k' ≡ user_memory k
  pub mounted : k'.volume ≡ k.volume
  pub screen : k'.terminal ≡ k.terminal
  pub others :
      (j : ℕ)
      → (get_current_pcb k').f j
        ≡ (if j == fd then (get_current_pcb k').f fd else (get_current_pcb k).f j)

with_file-OnlyFile :
    (fd : ℕ) (f g : File) (k : Kernel) → OnlyFile fd k (with_file fd f (with_file fd g k))
with_file-OnlyFile fd f g k = record {
  process = refl;
  memory = refl;
  mounted = refl;
  screen = refl;
  others = λ j. ground arith;
}

mark-used : (f : File) → in_use (mark f) ≡ true
mark-used f = ground arith

unmark-free : (f : File) → in_use (unmark (mark f)) ≡ false
unmark-free f = ground arith

free_fd-used :
    (fd : ℕ) (k : Kernel)
    → 2 ≤ fd
    → fd < 8
    → in_use ((get_current_pcb k).f fd) ≡ true
    → free_fd fd k ≡ (0, with_file fd (unmark ((get_current_pcb k).f fd)) k)
unfolding free_fd
free_fd-used fd k behind low used =
    let out : (sle 8 fd || slt fd 2) ≡ false = ground arith in rw (out, used) refl

module _ (inb : Ports → ℕ → ℕ) (d : Dentry) where
  pub kopen-regular :
      (f : File) (m : Bytes) (name i inode : ℕ) (k : Kernel)
      → IsFile k.volume m name i inode
      → kopen inb d f m name k
        ≡ some (0, record f { pos = 0; inode = inode; optable = ops_regular }, k)
  unfolding kopen open_operation set_optable read_dentry_by_index
  kopen-regular f m name i inode k e =
      let found = read_dentry_by_name-found k.volume m name d i e.there e.named e.first in
      let inside = e.there in
      let here : leb (num_dentry k.volume) i ≡ false = ground (arith, inside) in
      rw (found, here, e.regular, e.number) refl

  pub kopen-missing :
      (f : File) (m : Bytes) (name : ℕ) (k : Kernel)
      → ((j : ℕ) → j < num_dentry k.volume → ¬ (Named k.volume m name j))
      → kopen inb d f m name k ≡ some (minus_one, f, k)
  unfolding kopen
  kopen-missing f m name k h = rw (read_dentry_by_name-missing k.volume m name d h) refl

  -- The tail of open, behind the descriptor and kopen.
  syscall_open-run :
      (name len fd ret : ℕ) (f : File) (k k1 k2 : Kernel)
      → strlen (user_memory k) name ≡ some len
      → usr_ptr_ok name len ≡ true
      → get_new_fd k ≡ (fd, k1)
      → fd < 8
      → kopen inb d ((get_current_pcb k1).f fd) (user_memory k1) name k1 ≡ some (ret, f, k2)
      → syscall_open inb d name k ≡ (
          if ret == 0
          then some (fd, with_file fd f k2)
          else some (ret, (free_fd fd (with_file fd f k2)).1))
  unfolding syscall_open
  syscall_open-run name len fd ret f k k1 k2 ends allowed given low opened =
      let good : (fd == minus_one) ≡ false = ground arith in
      let e0 : (get_new_fd k).0 ≡ fd = ap (λ (x : ℕ × Kernel). x.0) given in
      let e1 : (get_new_fd k).1 ≡ k1 = ap (λ (x : ℕ × Kernel). x.1) given in
      rw (ends, allowed, e0, e1, good, opened, e0) refl

  -- If the name that the process passes ends with a NUL byte and usr_ptr_ok accepts its bytes, the first
  -- entry of the directory with this name is a regular file, and one of the descriptors from 2 on is
  -- free, with those below in use, open returns the lowest such one, open on the inode of the entry at position 0,
  -- and changes no other descriptor, no memory of the process, and nothing on the terminals.
  pub syscall_open-found :
      (name len fd i inode : ℕ) (k : Kernel)
      → Asks name len fd k
      → IsFile k.volume (user_memory k) name i inode
      → (k' : Kernel) × (syscall_open inb d name k ≡ some (fd, k'))
        × ((get_current_pcb k').f fd ≡ record (mark ((get_current_pcb k).f fd)) {
          pos = 0;
          inode = inode;
          optable = ops_regular;
        })
        × OnlyFile fd k k'
  syscall_open-found name len fd i inode k a e =
      let f = mark ((get_current_pcb k).f fd) in
      let k1 = with_file fd f k in
      let given = get_new_fd-first k fd a.low a.free a.taken in
      let marked : (get_current_pcb k1).f fd ≡ f = ground arith in
      let opened = kopen-regular f (user_memory k) name i inode k1 e in
      let f' : File = record f { pos = 0; inode = inode; optable = ops_regular } in
      let k2 = with_file fd f' k1 in
      (
        k2,
        syscall_open-run name len fd 0 f' k k1 k1 a.ends a.allowed given a.low (rw marked opened),
        ground arith,
        with_file-OnlyFile fd f' f k,
      )

  -- If the name that the process passes ends with a NUL byte and usr_ptr_ok accepts its bytes, the
  -- directory does not have it, and one of the descriptors from 2 on is free, with those below in use,
  -- open returns -1, every descriptor is in use or not as it was, and no memory of the
  -- process and nothing on the terminals changes.
  pub syscall_open-missing :
      (name len fd : ℕ) (k : Kernel)
      → Asks name len fd k
      → ((j : ℕ) → j < num_dentry k.volume → ¬ (Named k.volume (user_memory k) name j))
      → (k' : Kernel) × (syscall_open inb d name k ≡ some (minus_one, k'))
        × ((j : ℕ) → in_use ((get_current_pcb k').f j) ≡ in_use ((get_current_pcb k).f j))
        × OnlyFile fd k k'
  syscall_open-missing name len fd k a h =
      let f = mark ((get_current_pcb k).f fd) in
      let k1 = with_file fd f k in
      let given = get_new_fd-first k fd a.low a.free a.taken in
      let marked : (get_current_pcb k1).f fd ≡ f = ground arith in
      let opened = kopen-missing f (user_memory k) name k1 h in
      let k2 = with_file fd f k1 in
      let run =
        syscall_open-run name len fd minus_one f k k1 k1 a.ends a.allowed given a.low
          (rw marked opened) in
      let low = a.low in
      let high = a.behind in
      let free = a.free in
      let again : (get_current_pcb k2).f fd ≡ f = ground arith in
      let closed = free_fd-used fd k2 high low (rw again (mark-used ((get_current_pcb k).f fd))) in
      let k3 = with_file fd (unmark f) k2 in
      let still : (j : ℕ) → in_use ((get_current_pcb k3).f j) ≡ in_use ((get_current_pcb k).f j) =
        (λ j. elim (Bool-cases (j == fd)) [
          | inl e ↦
              let here : j ≡ fd = ground arith in
              let last : (get_current_pcb k3).f fd ≡ unmark f = ground arith in
              rw here (ap in_use last ∙ unmark-free ((get_current_pcb k).f fd) ∙ sym free)
          | inr off ↦
              let ne : j ≢ fd = (λ (q : j ≡ fd). ground arith) in
              let same : (get_current_pcb k3).f j ≡ (get_current_pcb k).f j = ground (arith, ne) in
              ap in_use same
        ]) in
      (
        k3,
        run ∙ rw (closed, again) refl,
        λ j. still j,
        record {
          process = refl;
          memory = refl;
          mounted = refl;
          screen = refl;
          others = λ j. ground arith;
        },
      )
