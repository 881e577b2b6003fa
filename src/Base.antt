-- ===== src/Base.antt =====
-- The names that the other modules share: the libraries', passed on, and the helpers of two
-- children. It models nothing of the program.
mod Tests
mod Lists
mod Rows
mod Ascending
pub mod Texts
pub mod Int
pub mod Decimal
pub mod Patterns
pub mod Value
pub use Tests.*
pub use Lists.*
pub use Rows.*
pub use Ascending.*
pub use Prim.Native.Nat.{ℕ, zero, suc, ◌+◌, ◌-◌, ◌*◌, ◌/◌, ◌%◌, ◌^◌, ◌≤◌, ◌<◌, max, min}
pub use Prim.Native.String.{String}
pub use mathlib.Core.Path.{◌≡◌, refl, sym, ap, ◌∙◌, subst}
pub use mathlib.Core.Logic.{◌≢◌, ◌↔◌, ◌⊎◌, inl, inr}
pub use mathlib.Core.Bool.{Bool, true, false, not, ◌&&◌, ◌||◌}
pub use mathlib.Core.Option.{Option, none, some}
pub use mathlib.Core.List.{List, [], ◌∷◌, ◌++◌, map, append_assoc, append-nil}
pub use native.Mathlib.Omega.{arith}
