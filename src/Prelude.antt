-- ===== src/Prelude.antt =====
-- The names that the modules of the kernel and of the C library share: the libraries' names
-- passed on, Boolean tests, lists indexed by native numbers, and laws of the bit operations.
mod Tests
mod Lists
mod Order
mod BitSteps
mod Bits
mod Updates
pub use Tests.*
pub use Lists.*
pub use Order.*
pub use Bits.*
pub use Updates.*
pub use BitSteps.*
pub use Prim.Native.Nat.{ℕ, zero, suc, ◌+◌, ◌-◌, ◌*◌, ◌/◌, ◌%◌, ◌^◌, ◌≤◌, ◌<◌, min}
pub use Prim.Native.Nat.{bit_and, bit_or, bit_xor}
pub use mathlib.Core.Path.{◌≡◌, refl, sym, ap, subst, ◌∙◌}
pub use mathlib.Core.Logic.{◌≢◌, ◌↔◌, ◌⊎◌, inl, inr}
pub use mathlib.Core.Bool.{Bool, true, false, not, ◌&&◌, ◌||◌}
pub use mathlib.Core.Option.{Option, none, some}
pub use mathlib.Core.List.{List, [], ◌∷◌, ◌++◌, map}
pub use native.Mathlib.Omega.{arith}
