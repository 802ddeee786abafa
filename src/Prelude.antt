-- ===== src/Prelude.antt =====
-- The names that the other modules share: the libraries', passed on, and those of the children.
mod Tests
mod Lists
mod Order
mod Tables
mod Strings
mod Results
mod Numbers
pub mod Bits
pub mod Maps
pub use Tests.*
pub use Lists.*
unfoldable pub use Tables.{all_below}
pub use Tables.{all_below_sound}
unfoldable pub use Order.{lt_wf}
pub use Strings.{Text, codes, text_eq_refl, text_eq_iff, text_ne}
unfoldable pub use Strings.{text_eq}
pub use Results.*
unfoldable pub use Numbers.{is_safe_integer, at_least, is_positive, nat_value}
pub use Numbers.{
  JsNumber, integer, other, JsValue, text, number, undefined, other_value, is_positive_bounds,
}
pub use Prim.Native.Nat.{
  ℕ, zero, suc, ◌+◌, ◌-◌, ◌*◌, ◌/◌, ◌%◌, ◌^◌, ◌≤◌, ◌<◌, min, max, bit_and, bit_xor,
}
pub use Prim.Native.String.{String}
pub use mathlib.Core.Path.{◌≡◌, refl, sym, ap, subst, ◌∙◌, fun_ext}
pub use mathlib.Core.Logic.{◌≢◌, ◌↔◌, ◌⊎◌, inl, inr}
pub use mathlib.Core.Bool.{Bool, true, false, not, ◌&&◌, ◌||◌}
pub use mathlib.Core.Option.{Option, none, some}
pub use mathlib.Core.List.{List, [], ◌∷◌, ◌++◌, map}
pub use native.Mathlib.Omega.{arith}
unfoldable pub use native.Mathlib.Decide.{dec_lt, dec_le, ℕ_discrete}
