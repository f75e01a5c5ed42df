-- ===== src/Prelude.antt =====
-- The names that every module of the library shares: the libraries', passed on, and those of the
-- children, which hold Boolean tests, lists, signed integers, dictionaries, text and the effects.
mod Tests
mod Lists
mod Effects
mod Chars
pub mod Int
pub mod Dict
pub mod Decimal
pub mod Keeps
pub mod Refines
pub mod Unicode
pub mod Json
pub mod Digits
pub use Tests.*
pub use Lists.*
unfoldable pub use Chars.*
unfoldable pub use Effects.*
pub use Prim.Native.Nat.{ℕ, zero, suc, ◌+◌, ◌-◌, ◌*◌, ◌/◌, ◌%◌, ◌^◌, ◌≤◌, ◌<◌}
pub use mathlib.Core.Path.{◌≡◌, refl, sym, ap, subst, ◌∙◌}
pub use mathlib.Core.Logic.{◌≢◌, ◌↔◌, ◌⊎◌, inl, inr}
pub use mathlib.Core.Bool.{Bool, true, false, not, ◌&&◌, ◌||◌}
pub use mathlib.Core.Option.{Option, none, some}
pub use mathlib.Core.List.{List, [], ◌∷◌, ◌++◌, map}
pub use native.Mathlib.Omega.{arith}
