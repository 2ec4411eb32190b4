-- ===== src/Base.antt =====
-- The names that the modules share: the libraries', passed on, the Boolean tests on numbers, and
-- those of the children (lists over the native numbers, byte strings, associative containers).
mod Tests
mod Lists
mod Text
pub mod AssocMap
pub mod Boost
pub mod Decimal
pub mod Ordered
pub mod Last
pub mod Result
pub mod Xor
pub use Tests.*
pub use Lists.*
pub use Text.*
pub use Prim.Native.Nat.{ℕ, zero, suc, ◌+◌, ◌-◌, ◌*◌, ◌/◌, ◌%◌, ◌^◌, ◌≤◌, ◌<◌}
pub use mathlib.Core.Path.{◌≡◌, refl, sym, ap, ◌∙◌}
pub use mathlib.Core.Logic.{◌≢◌, ◌↔◌, ◌⊎◌, inl, inr}
pub use mathlib.Core.Bool.{Bool, true, false, not, ◌&&◌, ◌||◌}
pub use mathlib.Core.Option.{Option, none, some}
pub use mathlib.Core.List.{List, [], ◌∷◌, ◌++◌, map, append_assoc, append-nil}
pub use native.Mathlib.Omega.{arith}
