-- ===== src/Prelude.antt =====
-- The names that the other modules share: the libraries', passed on, and those of the children.
mod Tests
mod Lists
mod Parts
mod Text
mod Strings
mod Lower
pub use Tests.*
pub use Lists.*
pub use Parts.*
unfoldable pub use Parts.{keep}
unfoldable pub use Lists.{any}
pub use Text.*
pub use Strings.*
pub use Lower.*
unfoldable pub use Text.{contains, lookup, insert, has_suffix, itoa_loop, itoa}
unfoldable pub use Lower.{lower_char, to_lower}
unfoldable pub use Strings.{
  cut_prefix, cut, split_char, drop_empty, fields, trim_right_slash, trim_space, passes_under,
}
pub use Prim.Native.Nat.{ℕ, zero, suc, ◌+◌, ◌-◌, ◌*◌, ◌/◌, ◌%◌, ◌^◌, ◌≤◌, ◌<◌}
pub use Prim.Native.String.{String}
pub use Prim.Native.String.{◌++◌ as concat}
pub use mathlib.Core.Path.{◌≡◌, refl, sym, ap, ◌∙◌, subst}
pub use mathlib.Core.Logic.{◌≢◌, ◌↔◌, ◌⊎◌, inl, inr}
pub use mathlib.Core.Bool.{Bool, true, false, ◌&&◌, ◌||◌, not}
pub use mathlib.Core.Option.{Option, none, some}
pub use mathlib.Core.List.{List, [], ◌∷◌, ◌++◌, map, Memᴰ}
pub use native.Mathlib.Omega.{arith}
pub use text.Mathlib.Text.{◌==◌, starts_with}
pub use text.Mathlib.TextEquality.{eq_iff}
pub use text.Mathlib.TextPositions.{eq_refl}
