-- ===== src/Prelude/Chain.antt =====
-- Chains of results that may be missing: `none` is a loop that does not end within its rounds.
use mathlib.Core.Option.{Option, none, some}

infixl 5 ◌>>=◌
abbrev pub ◌>>=◌ {ℓ κ} : {A : Type ℓ} {B : Type κ} → Option A → (A → Option B) → Option B
none >>= f = none
some a >>= f = f a
