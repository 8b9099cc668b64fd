-- ===== src/Base.antt =====
-- The names that the other modules share: the libraries', passed on, and those of the children.
mod Tests
mod Lists
mod Text
mod Spaces
mod Maps
mod Results
pub mod Actions
pub use Tests.*
pub use Lists.*
pub use Results.*
pub use Text.{Str, bytes, str_eq_iff, str_eq_refl, joined-append}
unfoldable pub use Text.{str_eq, member, Lacks, concat, joined}
pub use Maps.{
  Map, lookup-insert, lookup-delete, Distinct, insert-Distinct, delete-Distinct, keys, member-keys,
  lookup-All,
}
unfoldable pub use Spaces.{trim_space}
unfoldable pub use Maps.{lookup, insert, delete}
pub use Prim.Native.Nat.{ℕ, zero, suc, ◌+◌, ◌-◌, ◌*◌, ◌/◌, ◌%◌, ◌^◌, ◌≤◌, ◌<◌, min, max}
pub use mathlib.Core.Path.{◌≡◌, refl, sym, ap, ◌∙◌}
pub use mathlib.Core.Logic.{◌≢◌, ◌↔◌, ◌⊎◌, inl, inr}
pub use mathlib.Core.Bool.{Bool, true, false, not, ◌&&◌, ◌||◌}
pub use mathlib.Core.Option.{Option, none, some}
pub use mathlib.Core.List.{List, [], ◌∷◌, ◌++◌, map}
pub use native.Mathlib.Omega.{arith}
