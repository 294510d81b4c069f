-- ===== src/Base.antt =====
-- What the modules of the data plane share: the library's names, passed on, Boolean tests, lists
-- indexed by native numbers, machine words, and facts on binary digits.
mod Tests
mod Lists
mod Words
mod Arrays
pub mod Double
pub mod Text
pub mod Table
pub mod Windows
pub mod Sums
pub mod Parts
pub mod Bits
pub mod Result
pub use Tests.*
pub use Lists.*
pub use Words.*
pub use Arrays.*
pub use Prim.Native.Nat.{ℕ, zero, suc, ◌+◌, ◌-◌, ◌*◌, ◌/◌, ◌%◌, ◌^◌, ◌≤◌, ◌<◌, min, max}
pub use Prim.Native.Nat.{bit_and, bit_or, bit_xor}
pub use mathlib.Core.Path.{◌≡◌, refl, sym, ap, ap₂, subst, ◌∙◌}
pub use mathlib.Core.Logic.{◌≢◌, ◌↔◌, ◌⊎◌, inl, inr}
pub use mathlib.Core.Bool.{Bool, true, false, not, ◌&&◌, ◌||◌}
pub use mathlib.Core.Option.{Option, none, some}
pub use mathlib.Core.List.{List, [], ◌∷◌, ◌++◌, map, append-nil, append_assoc}
pub use native.Mathlib.Omega.{arith}
