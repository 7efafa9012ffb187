-- ===== src/Prelude.antt =====
-- The names that the other modules share: the libraries', passed on, and those of the children.
pub mod Tests
pub mod Lists
pub mod Results
pub mod Text
pub mod Int
pub mod Dict
pub mod Names
pub mod Counting
pub use Tests.*
pub use Lists.*
pub use Names.*
pub use Counting.{length-Perm}
pub use Results.{
  Result, ok, err, ◌>>=◌, ◌>>◌, raise_if, or_raise, Result-cases, first-returned, raise_if-returned,
  ok_injective, or_raise-returned, Returns, Returns-ok, Returns-err, Returns-bind, Returns-if, Each,
  Each-weaken, Each-trans, map_result-Each, map_result-All, err_injective, Raises, Raises-ok,
  Raises-err, Raises-bind, Raises-if, Raises-or_raise, Raises-raise_if, map_result-Raises,
}
unfoldable pub use Results.{map_result}
pub use Prim.Native.Nat.{ℕ, zero, suc, ◌+◌, ◌-◌, ◌*◌, ◌/◌, ◌%◌, ◌≤◌, ◌<◌}
pub use Prim.Native.String.{String}
pub use mathlib.Core.Path.{◌≡◌, refl, sym, ap, ◌∙◌}
pub use mathlib.Core.Logic.{◌≢◌, ◌↔◌, ◌⊎◌, inl, inr}
pub use mathlib.Core.Bool.{Bool, true, false, not, ◌&&◌, ◌||◌}
pub use mathlib.Core.Option.{Option, none, some}
pub use mathlib.Core.List.{List, [], ◌∷◌, ◌++◌, map}
pub use native.Mathlib.Omega.{arith}
pub use text.Mathlib.Text.{◌==◌}
pub use text.Mathlib.TextEquality.{eq_iff}
pub use text.Mathlib.TextPositions.{eq_refl}
