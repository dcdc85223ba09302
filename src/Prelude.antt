-- ===== src/Prelude.antt =====
-- The names that every part of the model shares: the libraries' names, passed on, and those of
-- the children on tests, lists and outcomes. Integers are in `Prelude.Int`.
mod Tests
mod Lists
mod Ending
mod Perms
pub mod Int
pub mod Sort
pub use Tests.*
pub use Lists.*
pub use Perms.*
pub use Ending.*
pub use Prim.Native.Nat.{ℕ, zero, suc, ◌+◌, ◌-◌, ◌*◌, ◌/◌, ◌%◌, ◌^◌, ◌≤◌, ◌<◌}
pub use mathlib.Core.Path.{◌≡◌, refl, sym, ap, ap₂, ◌∙◌, fun_ext, subst}
pub use mathlib.Core.Logic.{◌≢◌, ◌↔◌, ◌⊎◌, inl, inr}
pub use mathlib.Core.Bool.{Bool, true, false, not, ◌&&◌, ◌||◌}
pub use mathlib.Core.Option.{Option, none, some}
pub use mathlib.Core.List.{List, [], ◌∷◌, ◌++◌, map}
pub use native.Mathlib.Omega.{arith}
unfoldable pub use mathlib.Core.List.{flat_map}
