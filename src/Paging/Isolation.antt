-- ===== src/Paging/Isolation.antt =====
-- What the page directory of a process maps.
use Prim.Native.Nat.{bit_or}
use zbiggie.Prelude.{
  ℕ, ◌+◌, ◌*◌, ◌/◌, ◌<◌, ◌≡◌, ◌≢◌, refl, arith, true, ◌==◌, if◌then◌else◌, update, for_range,
  for_range_inv, all_below, all_below_sound, ==_iff,
}
use zbiggie.Paging.{Tables, init_pd, table_entry}

user_entry_table :
    all_below 11 (λ p. bit_or ((p + 1) * 4194304) 0x87 == (p + 1) * 4194304 + 0x87) ≡ true
unfolding all_below
user_entry_table = refl

-- The flags do not meet the frame number.
user_entry : (p : ℕ) → p < 11 → bit_or ((p + 1) * 4194304) 0x87 ≡ (p + 1) * 4194304 + 0x87
user_entry p h = (==_iff _ _).0 (all_below_sound 11 _ p user_entry_table h)

cleared : (d : ℕ → ℕ) (i : ℕ) → i < 1024 → for_range 1024 0 (λ i d. update d i 0) d i ≡ 0
cleared d =
    for_range_inv (λ k (d : ℕ → ℕ). (j : ℕ) → j < k → d j ≡ 0) (λ i d. update d i 0) 1024 0 1024 d
      refl (λ k t lo hi h j lt. ground (arith, h j)) (λ j lt. absurd (omega arith))

-- The directory that init_pd makes for a process with a number up to 10 has its program page, with
-- user access, at entry 32, the kernel's page, without it, at entry 1, the low memory's table at
-- entries 0 and 33, the video table at entry 12, and nothing else.
pub init_pd-entries :
    (p : ℕ) (s : Tables) (i : ℕ)
    → p < 11
    → i < 1024
    → (init_pd p s).page_directories p i ≡ (
        if i == 32
        then (p + 1) * 4194304 + 0x87
        else if i == 1
        then 4194304 + 0x81
        else if i == 0
        then table_entry s.low_memory_address 1
        else if i == 33
        then table_entry s.low_memory_address 7
        else if i == 12
        then table_entry s.video_address 1
        else 0)
unfolding init_pd
init_pd-entries p s i small lt =
    ground (arith, user_entry p small, cleared (s.page_directories p) i lt)

-- The program pages of two processes, with numbers up to 10 and the first not 0, are different 4 MB
-- frames, the first above the kernel's, which is frame 1, and making the first one's directory
-- leaves the other's as it was.
pub init_pd_disjoint :
    (p q : ℕ) (s : Tables)
    → 0 < p
    → p < 11
    → q < 11
    → p ≢ q
    → let frame = λ (r : ℕ). (init_pd r s).page_directories r 32 / 4194304 in
      (frame p ≢ frame q)
      × (1 < frame p)
      × ((init_pd p s).page_directories q ≡ s.page_directories q)
unfolding init_pd
init_pd_disjoint p q s pos sp sq ne =
    let ep : (init_pd p s).page_directories p 32 ≡ (p + 1) * 4194304 + 0x87 =
      init_pd-entries p s 32 sp (omega arith) in
    let eq : (init_pd q s).page_directories q 32 ≡ (q + 1) * 4194304 + 0x87 =
      init_pd-entries q s 32 sq (omega arith) in
    let fp : ((p + 1) * 4194304 + 0x87) / 4194304 ≡ p + 1 = omega arith in
    let fq : ((q + 1) * 4194304 + 0x87) / 4194304 ≡ q + 1 = omega arith in
    (rw (ep, eq, fp, fq) (omega arith), rw (ep, fp) (omega arith), ground arith)
