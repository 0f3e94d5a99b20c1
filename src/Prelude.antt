-- ===== src/Prelude.antt =====
-- The names that the other modules share: the libraries', passed on, and those of five children.
mod Tests
mod Lists
mod Dict
mod Integers
mod Text
pub use Tests.*
pub use Lists.*
pub use Text.{codes, lower_code, strip, before, same_codes}
pub use Integers.{ℤ, pos, negsuc, minus, nonzero}
unfoldable pub use Dict.{lookup, insert, delete}
pub use Dict.{
  Table, lookup-insert, lookup-delete, lookup-insert_self, lookup-insert_ne, insert-insert,
  str_refl, str_ne, str_sym,
}
pub use Prim.Native.Nat.{ℕ, zero, suc, ◌+◌, ◌-◌, ◌*◌, ◌/◌, ◌%◌, ◌^◌, ◌≤◌, ◌<◌}
pub use Prim.Native.String.{String}
pub use mathlib.Core.Path.{◌≡◌, refl, sym, ap, ◌∙◌, subst}
pub use mathlib.Core.Logic.{◌≢◌, ◌↔◌, ◌⊎◌, inl, inr}
pub use mathlib.Core.Bool.{Bool, true, false, not, ◌&&◌, ◌||◌}
pub use mathlib.Core.Option.{Option, none, some}
pub use mathlib.Core.List.{List, [], ◌∷◌, ◌++◌, map}
pub use native.Mathlib.Omega.{arith}
