-- ===== src/Prelude.antt =====
-- The names that the components share: the libraries', passed on, and those of the children, which
-- model C's words, byte arrays and counted loops.
mod Tests
mod Word
mod Memory
mod Chain
unfoldable pub use Tests.*
pub use Word.*
pub use Chain.*
unfoldable pub use Memory.{load32, for_range}
pub use Memory.{Bytes, update, for_range_inv}
pub use Prim.Native.Nat.{ℕ, zero, suc, ◌+◌, ◌-◌, ◌*◌, ◌/◌, ◌%◌, ◌^◌, ◌≤◌, ◌<◌}
pub use mathlib.Core.Path.{◌≡◌, refl, sym, ap, subst, ◌∙◌, fun_ext}
pub use mathlib.Core.Logic.{◌≢◌, ◌↔◌, ◌⊎◌, inl, inr}
pub use mathlib.Core.Bool.{Bool, true, false, not, ◌&&◌, ◌||◌}
pub use mathlib.Core.Option.{Option, none, some}
pub use mathlib.Core.List.{List, [], ◌∷◌, ◌++◌}
pub use native.Mathlib.Omega.{arith}
