-- ===== src/Base.antt =====
-- Names that every module shares: those of the libraries, the Boolean tests on numbers, lists
-- indexed by native numbers, bit operations as arithmetic, and the outcome of a C++ call.
mod Tests
mod Lists
pub mod Bits
mod Outcomes
mod Texts
pub mod Numerals
pub mod Decimal
pub use Tests.*
pub use Lists.*
pub use Outcomes.*
unfoldable pub use Texts.*
pub use Prim.Native.Nat.{
  ℕ, zero, suc, ◌+◌, ◌-◌, ◌*◌, ◌/◌, ◌%◌, ◌^◌, ◌≤◌, ◌<◌, min, max, bit_and, bit_or,
}
pub use mathlib.Core.Path.{◌≡◌, refl, sym, ap, ap₂, subst, ◌∙◌}
pub use mathlib.Core.Logic.{◌≢◌, ◌↔◌, ◌⊎◌, inl, inr}
pub use mathlib.Core.Bool.{Bool, true, false, not, ◌&&◌, ◌||◌}
pub use mathlib.Core.Option.{Option, none, some}
pub use mathlib.Core.List.{List, [], ◌∷◌, ◌++◌, map, append_assoc, append-nil}
pub use native.Mathlib.Omega.{arith}
