-- ===== src/Base.antt =====
-- The names that the other modules share: the libraries' names, Boolean tests, lists over the
-- native numbers, decidable keys and Go's built-in maps.
pub mod Tests
pub mod Lists
pub mod Distinct
pub mod GoMap
pub mod Exec
pub mod Int
pub use Tests.*
pub use Lists.*
unfoldable pub use Lists.{contains, count}
pub use Prim.Native.Nat.{ℕ, zero, suc, ◌+◌, ◌-◌, ◌*◌, ◌/◌, ◌%◌, ◌^◌, ◌≤◌, ◌<◌, max}
pub use Prim.Native.String.{String}
pub use mathlib.Core.Path.{◌≡◌, refl, sym, ap, ◌∙◌, subst}
pub use mathlib.Core.Logic.{◌≢◌, ◌↔◌, ◌⊎◌, inl, inr}
pub use mathlib.Core.Bool.{Bool, true, false, ◌&&◌, ◌||◌, not}
pub use mathlib.Core.Option.{Option, none, some}
pub use mathlib.Core.List.{List, [], ◌∷◌, ◌++◌, map}
pub use native.Mathlib.Omega.{arith}
