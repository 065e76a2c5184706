-- ===== src/Base.antt =====
-- Names that every module of the development shares: the libraries', passed on, and those of the
-- modules below: Boolean tests, lists over native numbers, results, association lists.
mod Tests
mod Lists
mod Outcome
mod Text
pub mod Bytes
pub mod Int
pub mod Map
pub use Tests.*
pub use Lists.*
pub use Outcome.*
unfoldable pub use Text.*
pub use Prim.Native.Nat.{ℕ, zero, suc, ◌+◌, ◌-◌, ◌*◌, ◌/◌, ◌%◌, ◌^◌, ◌≤◌, ◌<◌, min, bit_and, bit_or}
pub use mathlib.Core.Path.{◌≡◌, refl, sym, ap, ◌∙◌}
pub use mathlib.Core.Logic.{◌≢◌, ◌↔◌, ◌⊎◌, inl, inr}
pub use mathlib.Core.Bool.{Bool, true, false, not, ◌&&◌, ◌||◌}
pub use mathlib.Core.Option.{Option, none, some}
pub use mathlib.Core.List.{List, [], ◌∷◌, ◌++◌}
pub use native.Mathlib.Omega.{arith}
