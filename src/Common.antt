-- ===== src/Common.antt =====
-- The names that the other modules share: the libraries', passed on, and the shared tests, lists
-- and predicates of the children.
mod Tests
mod Lists
mod Quantifiers
mod Maps
mod Numbers
mod Texts
pub use Tests.*
pub use Lists.*
pub use Quantifiers.*
unfoldable pub use Maps.{Dict, lookup, erase, insert}
pub use Maps.{lookup-erase, lookup-insert, lookup-insert_self, lookup-insert_ne}
pub use Numbers.*
unfoldable pub use Texts.*
pub use Prim.Native.Nat.{ℕ, zero, suc, ◌+◌, ◌-◌, ◌*◌, ◌/◌, ◌%◌, ◌^◌, ◌≤◌, ◌<◌, min}
pub use Prim.Native.String.{String}
pub use mathlib.Core.Path.{◌≡◌, refl, sym, ap, ◌∙◌}
pub use mathlib.Core.Logic.{◌≢◌, ◌↔◌, ◌⊎◌, inl, inr}
pub use mathlib.Core.Bool.{Bool, true, false, not, ◌&&◌, ◌||◌}
pub use mathlib.Core.Option.{Option, none, some}
pub use mathlib.Core.List.{List, [], ◌∷◌, ◌++◌, map}
pub use native.Mathlib.Omega.{arith}
pub use text.Mathlib.Text.{◌==◌ as str_eq}
pub use text.Mathlib.TextEquality.{eq_iff}
