-- ===== src/Prelude.antt =====
-- The names that the other modules share: the libraries', passed on, and those of the children.
mod Tests
mod Lists
mod Texts
pub mod Int
pub mod Result
pub mod Options
pub mod Split
unfoldable pub use Tests.{every_below}
pub use Tests.*
pub use Lists.*
unfoldable pub use Texts.{
  Bytes, codes, is_empty, bytes_eq, bytes_mem, has_prefix, has_suffix, trim_prefix, index, contains,
  index_byte, to_lower_byte, to_lower, is_space, trim_left, trim_right, trim_space,
}
pub use Texts.{IsOnce, bytes_eq_iff, bytes_eq_refl, has_prefix-append, has_prefix-split}
pub use Prim.Native.Nat.{ℕ, zero, suc, ◌+◌, ◌-◌, ◌*◌, ◌/◌, ◌%◌, ◌^◌, ◌≤◌, ◌<◌}
pub use mathlib.Core.Path.{◌≡◌, refl, sym, ap, ap₂, ◌∙◌, subst}
pub use mathlib.Core.Logic.{◌≢◌, ◌↔◌, ◌⊎◌, inl, inr}
pub use mathlib.Core.Bool.{Bool, true, false, not, ◌&&◌, ◌||◌}
pub use mathlib.Core.Option.{Option, none, some}
pub use mathlib.Core.List.{List, [], ◌∷◌, ◌++◌}
unfoldable pub use mathlib.Core.List.{map, reverse}
pub use native.Mathlib.Omega.{arith}
