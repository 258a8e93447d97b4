-- ===== src/Kernel/Descriptors.antt =====
-- The descriptors of a process: which one get_new_fd gives, and what free_fd takes back.
use zbiggie.Prelude.{
  ℕ, zero, suc, ◌+◌, ◌≤◌, ◌<◌, ◌≡◌, refl, arith, true, false, Bool-cases, inl, inr, none, some, ltb,
  ◌==◌, if◌then◌else◌, minus_one,
}
use zbiggie.Fs.{File}
use zbiggie.Kernel.{
  Kernel, in_use, mark, get_current_pcb, with_file, get_file, get_new_fd, free_fd, scan_files,
}

scan_files-first :
    (r : ℕ) (f : ℕ → File) (i k : ℕ)
    → i ≤ k
    → k < i + r
    → in_use (f k) ≡ false
    → ((j : ℕ) → i ≤ j → j < k → in_use (f j) ≡ true)
    → scan_files r f i ≡ k
unfolding scan_files
scan_files-first zero f i k le lt free before = absurd (omega arith)
scan_files-first (suc r) f i k le lt free before = elim (Bool-cases (i == k)) [
  | inl e ↦ let e' : i ≡ k = ground arith in rw e' (rw free)
  | inr ne ↦ rw (before i (omega arith) (ground arith)) (
      scan_files-first r f (i + 1) k (ground arith) (omega arith) free
        (λ j lo hi. before j (omega arith) hi))
]

scan_files-full :
    (r : ℕ) (f : ℕ → File) (i : ℕ)
    → ((j : ℕ) → i ≤ j → j < i + r → in_use (f j) ≡ true)
    → scan_files r f i ≡ minus_one
unfolding scan_files
scan_files-full zero f i full = refl
scan_files-full (suc r) f i full =
    rw (full i (omega arith) (omega arith))
      (scan_files-full r f (i + 1) (λ j lo hi. full j (omega arith) (omega arith)))

get_new_fd-found :
    (k : Kernel) (fd : ℕ)
    → fd < 8
    → scan_files 8 (get_current_pcb k).f 0 ≡ fd
    → get_new_fd k ≡ (fd, with_file fd (mark ((get_current_pcb k).f fd)) k)
unfolding get_new_fd
get_new_fd-found k fd lt e = let ne : (fd == minus_one) ≡ false = ground arith in rw (e, ne)

module _ (k : Kernel) (fd : ℕ) (lt : fd < 8) (free : in_use ((get_current_pcb k).f fd) ≡ false)
    (before : (j : ℕ) → j < fd → in_use ((get_current_pcb k).f j) ≡ true) where
  -- If one of the eight descriptors is not in use, get_new_fd returns the lowest such one, marks it,
  -- and changes nothing else of the kernel.
  pub get_new_fd-first : get_new_fd k ≡ (fd, with_file fd (mark ((get_current_pcb k).f fd)) k)
  get_new_fd-first = get_new_fd-found k fd lt (
      scan_files-first 8 (get_current_pcb k).f 0 fd (omega arith) (omega arith) free
        (λ j lo hi. before j hi))

-- If the lowest descriptor that is not in use is 2 or above, free_fd of it behind get_new_fd
-- succeeds, and its FILE is again what it was.
pub free_fd-get_new_fd :
    (k : Kernel) (fd : ℕ)
    → 2 ≤ fd
    → fd < 8
    → in_use ((get_current_pcb k).f fd) ≡ false
    → ((j : ℕ) → j < fd → in_use ((get_current_pcb k).f j) ≡ true)
    → let (status, k') = free_fd fd (get_new_fd k).1 in
      (status ≡ 0) × ((get_current_pcb k').f fd ≡ (get_current_pcb k).f fd)
unfolding free_fd
free_fd-get_new_fd k fd lo lt free before = rw (get_new_fd-first k fd lt free before) (ground arith)

-- With all eight descriptors in use get_new_fd returns -1 and changes nothing.
pub get_new_fd-full :
    (k : Kernel)
    → ((j : ℕ) → j < 8 → in_use ((get_current_pcb k).f j) ≡ true)
    → get_new_fd k ≡ (minus_one, k)
unfolding get_new_fd
get_new_fd-full k full = rw (scan_files-full 8 (get_current_pcb k).f 0 (λ j lo hi. full j hi))

-- get_file finds a descriptor exactly if it is one of the eight and in use, and then gives its FILE.
pub get_file_lem :
    (fd : ℕ) (k : Kernel)
    → fd < 4294967296
    → get_file fd k ≡ (
        if ltb fd 8
        then if in_use ((get_current_pcb k).f fd) then some ((get_current_pcb k).f fd) else none
        else none)
unfolding get_file
get_file_lem fd k small = ground arith
