-- ===== src/Prelude.antt =====
-- The names that the other modules share.
mod Tests
mod Lists
mod Members
mod Texts
mod Chars
pub use Tests.*
unfoldable pub use Lists.*
pub use Members.*
pub use mathlib.Core.List.{Memᴰ}
pub use Prim.Native.Nat.{ℕ, zero, suc, ◌+◌, ◌-◌, ◌≤◌, ◌<◌, min, max}
pub use Prim.Native.String.{String}
pub use mathlib.Core.Path.{◌≡◌, refl, sym, ap, ◌∙◌, subst}
pub use mathlib.Core.Logic.{◌≢◌, ◌↔◌, ◌⊎◌, inl, inr}
pub use mathlib.Core.Bool.{Bool, true, false, not, ◌&&◌, ◌||◌}
pub use mathlib.Core.Option.{Option, none, some}
pub use mathlib.Core.List.{List, [], ◌∷◌, ◌++◌, map}
pub use native.Mathlib.Omega.{arith}
pub use text.Mathlib.Text.{◌==◌}
pub use text.Mathlib.TextEquality.{eq_iff}
pub use text.Mathlib.TextPositions.{eq_refl}
pub use Texts.{str_ltb, str_leb, option_str_eq, has_str}
unfoldable pub use Texts.{format, strip_prefix, strip_suffix, str_contains, is_blank}
unfoldable pub use Chars.{
  replace_char, trim, decimal, split_on, char_count, all_chars, first_char, last_char, has_space,
  byte_len, char_take,
}
