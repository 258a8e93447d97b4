-- ===== src/Fs/Directory.antt =====
-- What the two directory look-ups find.
use zbiggie.Prelude.{
  ℕ, zero, suc, ◌+◌, ◌≤◌, ◌<◌, ◌≡◌, ◌≢◌, refl, Bool-cases, inl, inr, arith, ◌==◌, minus_one, Bytes,
}
use zbiggie.Text.{strncmp}
use zbiggie.Fs.{
  Volume, Dentry, dentry_at, num_dentry, read_dentry_by_index, read_dentry_loop,
  read_dentry_by_name,
}

-- Entry `i` has the name, by the comparison of 31 bytes.
abbrev pub Named : Volume → Bytes → ℕ → ℕ → Type 0
Named v m fname i = strncmp m fname v.memory (dentry_at v i) 31 ≡ 0

module _ (v : Volume) (m : Bytes) (fname : ℕ) (d : Dentry) where
  read_dentry_loop-found :
      (r i k : ℕ)
      → i ≤ k
      → k < i + r
      → Named v m fname k
      → ((j : ℕ) → i ≤ j → j < k → ¬ (Named v m fname j))
      → read_dentry_loop r v m fname i d ≡ read_dentry_by_index v k d
  unfolding read_dentry_loop
  read_dentry_loop-found zero i k le lt here before = absurd (omega arith)
  read_dentry_loop-found (suc r) i k le lt here before =
      elim (Bool-cases (strncmp m fname v.memory (dentry_at v i) 31 == 0)) [
        | inl hit ↦ let e : i ≡ k = grind (arith, before) in rw hit (rw e refl)
        | inr miss ↦
            let ne : i ≢ k = (λ e. (let n : Named v m fname i = rw e here in ground arith)) in
            rw miss (
              read_dentry_loop-found r (i + 1) k (omega arith) (omega arith) here
                (λ j lo hi. before j (omega arith) hi))
      ]

  read_dentry_loop-missing :
      (r i : ℕ)
      → ((j : ℕ) → i ≤ j → j < i + r → ¬ (Named v m fname j))
      → read_dentry_loop r v m fname i d ≡ (minus_one, d)
  unfolding read_dentry_loop
  read_dentry_loop-missing zero i none' = refl
  read_dentry_loop-missing (suc r) i none' =
      elim (Bool-cases (strncmp m fname v.memory (dentry_at v i) 31 == 0)) [
        | inl hit ↦ absurd (none' i (omega arith) (omega arith) (ground arith))
        | inr miss ↦
            rw miss
              (read_dentry_loop-missing r (i + 1) (λ j lo hi. none' j (omega arith) (omega arith)))
      ]

-- read_dentry_by_name returns what the look-up by index returns for the first entry of the directory
-- whose name matches.
pub read_dentry_by_name-found :
    (v : Volume) (m : Bytes) (fname : ℕ) (d : Dentry) (k : ℕ)
    → k < num_dentry v
    → Named v m fname k
    → ((j : ℕ) → j < k → ¬ (Named v m fname j))
    → read_dentry_by_name v m fname d ≡ read_dentry_by_index v k d
unfolding read_dentry_by_name
read_dentry_by_name-found v m fname d k lt here before =
    read_dentry_loop-found v m fname d (num_dentry v) 0 k (omega arith) (omega arith) here
      (λ j lo hi. before j hi)

-- read_dentry_by_name fails, with the caller's entry as it was, if no entry of the directory matches.
pub read_dentry_by_name-missing :
    (v : Volume) (m : Bytes) (fname : ℕ) (d : Dentry)
    → ((j : ℕ) → j < num_dentry v → ¬ (Named v m fname j))
    → read_dentry_by_name v m fname d ≡ (minus_one, d)
unfolding read_dentry_by_name
read_dentry_by_name-missing v m fname d none' =
    read_dentry_loop-missing v m fname d (num_dentry v) 0 (λ j lo hi. none' j (omega arith))
