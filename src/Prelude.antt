-- ===== src/Prelude.antt =====
-- The names that the other modules share: the libraries', passed on, and those of the children
-- (Boolean tests, lists over the native numbers, equality tests by instances).
mod Tests
mod Lists
mod Equality
mod Results
pub mod Int
pub mod Sort
pub mod Sorted
pub mod TextOrder
pub mod Maps
pub mod Subsequence
pub use Tests.*
pub use Lists.*
unfoldable pub use Equality.*
pub use Results.{
  Result, ok, err, ◌>>=◌, >>=-eq-ok, ok_or, ok_inj, err_inj, Result-cases, Text, text, u64_mod,
}
pub use Prim.Native.Nat.{ℕ, zero, suc, ◌+◌, ◌-◌, ◌*◌, ◌/◌, ◌%◌, ◌^◌, ◌≤◌, ◌<◌}
pub use Prim.Native.String.{String}
pub use mathlib.Core.Path.{◌≡◌, refl, sym, ap, ap₂, subst, ◌∙◌}
pub use mathlib.Core.Logic.{◌≢◌, ◌↔◌, ◌⊎◌, inl, inr}
pub use mathlib.Core.Bool.{Bool, true, false, not, ◌&&◌, ◌||◌}
pub use mathlib.Core.Option.{Option, none, some}
pub use mathlib.Core.List.{List, [], ◌∷◌, ◌++◌, map, reverse}
pub use native.Mathlib.Omega.{arith}
