-- ===== src/Block/Tests.antt =====
-- The block operations at small inputs.
use zbiggie.Prelude.{◌≡◌}
use zbiggie.Samples.{ramp, zeros}
use zbiggie.Block.{memset, memcpy, memmove}
use zbiggie.Block.Fill.{memset_lem}
use zbiggie.Block.Move.{memcpy_lem, memmove_lem}

-- Unaligned and longer than a word: all three phases run.
memcpy_lem_example : memcpy zeros 5 ramp 40 11 15 ≡ 50
memcpy_lem_example = memcpy_lem zeros 5 ramp 40 11 15

-- The destination overlaps the source from above.
memmove_lem_example : memmove ramp 12 10 6 15 ≡ 13
memmove_lem_example = memmove_lem ramp 12 10 6 15

memset_lem_example : memset ramp 3 300 9 11 ≡ 44
memset_lem_example = memset_lem ramp 3 300 9 11
