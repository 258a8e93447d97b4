-- ===== src/Fish/Slots.antt =====
-- The allocator of fish.c: an entry of blink_array is free if its location is 0.
use zbiggie.Prelude.{
  ℕ, zero, suc, ◌+◌, ◌*◌, ◌≤◌, ◌<◌, ◌≡◌, ◌≢◌, refl, arith, true, false, Bool-cases, ==_iff, slt,
  inl, inr, ◌==◌, ◌&&◌, leb, ltb, if◌then◌else◌, for_range_inv, Bytes, update,
}
use native.Mathlib.Decide.{dec_lt}
use zbiggie.Fish.{struct_size, ece391_memset, location_at, find_slot, mp1_malloc, mp1_free}

find_slot-first :
    (left i k : ℕ) (m : Bytes) (blink_array : ℕ)
    → i ≤ k
    → k < i + left
    → location_at m blink_array k ≡ 0
    → ((j : ℕ) → i ≤ j → j < k → location_at m blink_array j ≢ 0)
    → find_slot left m blink_array i ≡ blink_array + 16 * k
unfolding find_slot
find_slot-first zero i k m blink_array le lt free before = absurd (omega arith)
find_slot-first (suc left) i k m blink_array le lt free before =
    elim (Bool-cases (location_at m blink_array i == 0)) [
      | inl hit ↦
          let here : location_at m blink_array i ≡ 0 = (==_iff _ _).0 hit in
          elim (dec_lt i k) [
            | yes less ↦ absurd (before i (omega arith) less here)
            | no more ↦ let e : i ≡ k = omega arith in rw hit (rw e refl)
          ]
      | inr miss ↦ elim (Bool-cases (i == k)) [
        | inl e ↦
            let e' : i ≡ k = ground arith in
            let hit : (location_at m blink_array i == 0) ≡ true = rw e' (rw free refl) in
            absurd (ground arith)
        | inr ne ↦ rw miss (
            find_slot-first left (i + 1) k m blink_array (ground arith) (omega arith) free
              (λ j lo hi. before j (omega arith) hi))
      ]
    ]

mp1_free-bytes :
    (memory : ℕ) (m : Bytes) (a : ℕ)
    → mp1_free memory m a ≡ (if leb memory a && ltb a (memory + 16) then 0 else m a)
unfolding mp1_free ece391_memset
mp1_free-bytes memory m a =
    let small : slt struct_size 0 ≡ false = refl in
    for_range_inv (λ i (t : Bytes). t a ≡ (if leb memory a && ltb a (memory + i) then 0 else m a))
      (λ i (t : Bytes). update t (memory + i) 0) 16 0 16 m (omega arith)
      (λ i t lo hi h. ground arith) (ground arith)

-- Among the 2000 entries, if entry `k` is freed and no entry in front of it is free, the next mp1_malloc
-- hands out that entry, and mp1_free has changed no byte of another entry.
pub mp1_malloc-mp1_free :
    (m : Bytes) (blink_array k : ℕ)
    → k < 2000
    → ((j : ℕ) → j < k → location_at m blink_array j ≢ 0)
    → (mp1_malloc (mp1_free (blink_array + 16 * k) m) blink_array ≡ blink_array + 16 * k)
      × ((a : ℕ)
          → mp1_free (blink_array + 16 * k) m a ≡ (
              if leb (blink_array + 16 * k) a && ltb a (blink_array + 16 * k + 16) then 0 else m a))
unfolding mp1_malloc
mp1_malloc-mp1_free m blink_array k lt taken =
    let freed = mp1_free (blink_array + 16 * k) m in
    let bytes = mp1_free-bytes (blink_array + 16 * k) m in
    (
      find_slot-first 2000 0 k freed blink_array (omega arith) (omega arith)
          (let low = bytes (blink_array + 16 * k) in
            let high = bytes (blink_array + 16 * k + 1) in ground arith)
          (λ j lo hi.
            (let t = taken j hi in
              let low = bytes (blink_array + 16 * j) in
              let high = bytes (blink_array + 16 * j + 1) in λ e. ground (arith, t))),
      bytes,
    )
