-- ===== src/Base.antt =====
-- What the other modules share: names of the libraries, passed on, Boolean tests on numbers, lists
-- measured by native numbers, Python texts, results with errors, and timestamps.
mod Tests
mod Lists
mod Outcomes
mod Errors
mod Texts
mod Time
mod Dicts
mod Sorting
pub use Tests.*
pub use Lists.*
pub use Outcomes.*
pub use Errors.*
unfoldable pub use Texts.*
pub use Time.*
unfoldable pub use Dicts.*
unfoldable pub use Sorting.*
pub use Prim.Native.Nat.{ℕ, zero, suc, ◌+◌, ◌-◌, ◌*◌, ◌/◌, ◌%◌, ◌^◌, ◌≤◌, ◌<◌, min, max}
pub use Prim.Native.String.{String}
pub use mathlib.Core.Path.{◌≡◌, refl, sym, ap, ◌∙◌, subst}
pub use mathlib.Core.Logic.{◌≢◌, ◌↔◌, ◌⊎◌, inl, inr}
pub use mathlib.Core.Bool.{Bool, true, false, false≢true, not, ◌&&◌, ◌||◌}
pub use mathlib.Core.Option.{Option, none, some}
pub use mathlib.Core.List.{
  List, [], ◌∷◌, ◌++◌, map, reverse, reverse-append, append-nil, append_assoc,
}
pub use native.Mathlib.Omega.{arith}
