-- ===== src/Devices/Tests.antt =====
-- The drivers before devices that answer every read with 0x26.
use zbiggie.Prelude.{ℕ, ◌/◌, ◌%◌, ◌^◌, ◌<◌, ◌≡◌, arith, [], ◌∷◌, ◌==◌, if◌then◌else◌}
use zbiggie.Devices.{Ports, enable_irq, disable_irq}
use zbiggie.Devices.Masks.{irq_masks}

abbrev answer : Ports → ℕ → ℕ
answer q port = 0x26

irq_masks_example :
    (v w : ℕ) × (enable_irq answer 8 [] ≡ (0xA1, v) ∷ [])
    × (disable_irq answer 8 [] ≡ (0xA1, w) ∷ [])
    × ((j : ℕ) → j < 8 → v / 2 ^ j % 2 ≡ (if j == 0 then 1 else 0x26 / 2 ^ j % 2))
    × ((j : ℕ) → j < 8 → w / 2 ^ j % 2 ≡ (if j == 0 then 0 else 0x26 / 2 ^ j % 2))
irq_masks_example = irq_masks answer 8 [] (omega arith) (omega arith)
