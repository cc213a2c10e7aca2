-- ===== src/Prelude.antt =====
-- The names that the other modules share: the libraries', passed on, and those of the children.
mod Tests
mod Lists
mod Bits
mod Masks
mod Words
mod Text
mod Maybe
pub use Tests.*
pub use Lists.*
pub use Bits.*
pub use Masks.*
pub use Maybe.*
pub use Words.*
pub use Text.{
  Bytes, codes, bytes_eq_sound, bytes_eq_refl, bytes_eq_iff, all_bytes, is_digit, is_space,
  to_lower, bytes_eq_nocase,
}
unfoldable pub use Text.{bytes_eq, has_byte, split_first, split_last}
pub use Prim.Native.Nat.{
  ℕ, zero, suc, ◌+◌, ◌-◌, ◌*◌, ◌/◌, ◌%◌, ◌^◌, ◌≤◌, ◌<◌, min, max, bit_and, bit_or, bit_xor,
}
pub use mathlib.Core.Path.{◌≡◌, refl, sym, ap, ◌∙◌}
pub use mathlib.Core.Logic.{◌≢◌, ◌↔◌, ◌⊎◌, inl, inr}
pub use mathlib.Core.Bool.{Bool, true, false, not, ◌&&◌, ◌||◌}
pub use mathlib.Core.Option.{Option, none, some}
pub use mathlib.Core.List.{List, [], ◌∷◌, ◌++◌, map}
pub use native.Mathlib.Omega.{arith}
