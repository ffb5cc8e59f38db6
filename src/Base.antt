-- ===== src/Base.antt =====
-- The names that the other modules share: the libraries' own, passed on, and those of the children
-- (tests and conditionals, lists, association lists for Go's maps, signed integers).
mod Tests
mod Lists
mod Assoc
mod Entries
mod Int
pub use Tests.*
pub use Lists.*
unfoldable pub use Assoc.{lookup, insert, delete, delete_all}
pub use Assoc.{
  lookup-insert, lookup-delete, lookup-delete_all, lookup-nil, lookup_of_length, length-insert_new,
  has, maps,
}
pub use Entries.*
unfoldable pub use Int.*
pub use Prim.Native.Nat.{ℕ, zero, suc, ◌+◌, ◌-◌, ◌*◌, ◌/◌, ◌%◌, ◌^◌, ◌≤◌, ◌<◌}
pub use mathlib.Core.Path.{◌≡◌, refl, sym, ap, subst, ◌∙◌}
pub use mathlib.Core.Logic.{◌≢◌, ◌↔◌, ◌⊎◌, inl, inr}
pub use mathlib.Core.Bool.{Bool, true, false, not, ◌&&◌, ◌||◌}
pub use mathlib.Core.Option.{Option, none, some}
pub use mathlib.Core.List.{List, [], ◌∷◌, ◌++◌, map}
pub use native.Mathlib.Omega.{arith}
unfoldable pub use native.Mathlib.Decide.{ℕ_discrete}
