-- ===== src/Base.antt =====
-- Names that all modules share: the libraries', passed on, the Boolean tests, machine words, lists
-- indexed by native numbers, and the laws of the bit operations. Models kernel/include/kernel.h's
-- types and the C operators on unsigned integers.
mod Test
mod Word
mod Array
pub mod Bits
pub mod Int
pub mod Table
pub mod Text
pub use Test.*
pub use Word.*
pub use Array.*
pub use Prim.Native.Nat.{ℕ, zero, suc, ◌+◌, ◌-◌, ◌*◌, ◌/◌, ◌%◌, ◌^◌, ◌≤◌, ◌<◌, min}
pub use Prim.Native.Nat.{bit_and, bit_or}
pub use mathlib.Core.Path.{◌≡◌, refl, sym, ◌∙◌, ap, subst}
pub use mathlib.Core.Logic.{◌≢◌, ◌↔◌, ◌⊎◌, inl, inr}
pub use mathlib.Core.Bool.{Bool, true, false, not, ◌&&◌, ◌||◌}
pub use mathlib.Core.Option.{Option, none, some}
pub use mathlib.Core.List.{List, [], ◌∷◌, ◌++◌}
pub use native.Mathlib.Omega.{arith}
