-- ===== src/Prelude.antt =====
-- The names that the other modules share: the libraries', passed on, Boolean tests, lists over the
-- native numbers and 64-bit words.
mod Bits
mod Tests
mod Lists
mod Words
pub use Bits.{bit_or-low}
pub use Tests.*
unfoldable pub use Tests.{all_below}
pub use Lists.*
pub use Words.{word, complement, align_up_lem, align_up_bounds}
unfoldable pub use Words.{align_up}
pub use Prim.Native.Nat.{
  ℕ, zero, suc, ◌+◌, ◌-◌, ◌*◌, ◌/◌, ◌%◌, ◌^◌, ◌≤◌, ◌<◌, bit_and, bit_or, bit_xor,
}
pub use mathlib.Core.Path.{◌≡◌, refl, sym, ap, subst, ◌∙◌, fun_ext}
pub use mathlib.Core.Logic.{◌≢◌, ◌↔◌, ◌⊎◌, inl, inr}
pub use mathlib.Core.Bool.{Bool, true, false, not, ◌&&◌, ◌||◌}
pub use mathlib.Core.Option.{Option, none, some}
pub use mathlib.Core.List.{List, [], ◌∷◌, ◌++◌, map, filter, reverse}
pub use native.Mathlib.Omega.{arith}
