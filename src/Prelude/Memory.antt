-- ===== src/Prelude/Memory.antt =====
-- Byte arrays and memory as functions from an address or index to a byte, and counted loops. The
-- names serve the array fields of every component.
use Prim.Native.Nat.{ℕ, zero, suc, ◌+◌, ◌*◌, ◌≤◌, ◌<◌}
use mathlib.Core.Path.{◌≡◌, subst}
use native.Mathlib.Omega.{arith}
use zbiggie.Prelude.Tests.{◌==◌, if◌then◌else◌}

-- A char array, or a stretch of memory.
abbrev pub Bytes : Type 0
Bytes = ℕ → ℕ

-- `a[i] = v`
abbrev pub update {ℓ} : {A : Type ℓ} → (ℕ → A) → ℕ → A → ℕ → A
update f i v j = if j == i then v else f j

-- A little-endian 32-bit load.
unfoldable pub load32 : Bytes → ℕ → ℕ
load32 m a = m a + 256 * m (a + 1) + 65536 * m (a + 2) + 16777216 * m (a + 3)

-- The loop with the counter `k` that has `rounds` rounds left; each takes the state `now` on.
unfoldable pub for_range {ℓ} : {A : Type ℓ} → ℕ → ℕ → (ℕ → A → A) → A → A
for_range zero k round now = now
for_range (suc rounds) k round now = let after = round k now in for_range rounds (k + 1) round after

-- An invariant that each round below the bound keeps holds when the loop ends.
pub for_range_inv {ℓ κ} :
    {A : Type ℓ} (Kept : ℕ → A → Type κ) (round : ℕ → A → A) (rounds k end : ℕ) (now : A)
    → k + rounds ≡ end
    → ((l : ℕ) (t : A) → k ≤ l → l < end → Kept l t → Kept (l + 1) (round l t))
    → Kept k now
    → Kept end (for_range rounds k round now)
unfolding for_range
for_range_inv Kept round zero k end now e keep h = subst (λ l. Kept l now) (omega arith) h
for_range_inv Kept round (suc rounds) k end now e keep h =
    for_range_inv Kept round rounds (k + 1) end (round k now) (omega arith)
      (λ l t lo hi. keep l t (omega arith) hi) (keep k now (omega arith) (omega arith) h)
