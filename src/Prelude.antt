-- ===== src/Prelude.antt =====
-- The names that the other modules share: those of the libraries and those of the children.
mod Tests
mod Lists
mod Equality
mod Dicts
mod Outcome
mod Integers
pub use Tests.*
pub use Lists.*
pub use Equality.*
pub use Outcome.*
pub use Integers.*
unfoldable pub use Dicts.{Dict, lookup, insert, remove, restrict, values, set_default}
pub use Dicts.{
  lookup-insert, lookup-remove, lookup-restrict, lookup-set_default, ==-refl, dict_laws,
}
pub use Prim.Native.Nat.{ℕ, zero, suc, ◌+◌, ◌-◌, ◌*◌, ◌/◌, ◌%◌, ◌^◌, ◌≤◌, ◌<◌, min, max}
pub use Prim.Native.String.{String}
pub use mathlib.Core.Path.{◌≡◌, refl, sym, ap, subst, ◌∙◌}
pub use mathlib.Core.Logic.{◌≢◌, ◌↔◌, ◌⊎◌, inl, inr}
pub use mathlib.Core.Bool.{Bool, true, false, ◌&&◌, ◌||◌}
pub use mathlib.Core.Option.{Option, none, some}
pub use mathlib.Core.List.{List, [], ◌∷◌, ◌++◌, map}
pub use native.Mathlib.Omega.{arith}
