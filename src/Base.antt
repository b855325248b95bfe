-- ===== src/Base.antt =====
-- The names that all other modules share: the libraries', passed on, and those of the children,
-- which model the parts of the C++ standard library that the program computes with.
mod Tests
mod Lists
mod Sets
mod Assoc
mod Pigeonhole
pub use Tests.*
pub use Lists.*
pub use Pigeonhole.*
unfoldable pub use Sets.*
unfoldable pub use Assoc.*
pub use Prim.Native.Nat.{ℕ, zero, suc, ◌+◌, ◌-◌, ◌*◌, ◌/◌, ◌%◌, ◌^◌, ◌≤◌, ◌<◌}
pub use mathlib.Core.Path.{◌≡◌, refl, sym, ap, subst, ◌∙◌}
pub use mathlib.Core.Logic.{◌≢◌, ◌↔◌, ◌⊎◌, inl, inr}
pub use mathlib.Core.Bool.{Bool, true, false, not, ◌&&◌, ◌||◌}
pub use mathlib.Core.Option.{Option, none, some}
pub use mathlib.Core.List.{List, [], ◌∷◌, ◌++◌, map, reverse}
pub use native.Mathlib.Omega.{arith}
