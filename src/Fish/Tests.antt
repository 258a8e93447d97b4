-- ===== src/Fish/Tests.antt =====
-- The allocator on an array whose entries all have the location 257.
use zbiggie.Prelude.{ℕ, ◌+◌, ◌*◌, ◌≡◌, ◌&&◌, arith, leb, ltb, if◌then◌else◌, Bytes}
use zbiggie.Fish.{mp1_malloc, mp1_free}
use zbiggie.Fish.Slots.{mp1_malloc-mp1_free}

abbrev ones : Bytes
ones a = 1

mp1_malloc-mp1_free_example :
    (mp1_malloc (mp1_free (4096 + 16 * 3) ones) 4096 ≡ 4096 + 16 * 3)
    × ((a : ℕ)
        → mp1_free (4096 + 16 * 3) ones a
          ≡ (if leb (4096 + 16 * 3) a && ltb a (4096 + 16 * 3 + 16) then 0 else ones a))
mp1_malloc-mp1_free_example =
    mp1_malloc-mp1_free ones 4096 3 (omega arith) (λ j lt. λ e. omega arith)
