-- ===== src/Prelude.antt =====
-- The names that every module shares: the libraries', passed on, and those of the children.
mod Tests
mod Lists
mod Texts
mod Results
mod Digits
mod Lines
pub use Digits.*
unfoldable pub use Lines.{
  from_u32, utf8_from, from_utf8, starts_with, strip_suffix, contains, without_whitespace, lines_of,
  lines,
}
pub use Lines.Ascii.{
  AllCodes, AllCodes-weaken, AllCodes-of_test, is_ascii, is_solid, is_inline, trim-solid,
  strip_prefix-append, contains-append, unlines, unlines-append, lines-unlines, from_utf8-unlines,
}
pub use Tests.*
pub use Lists.*
unfoldable pub use Texts.{
  char_is_whitespace, trim_start, trim_end, trim, trim_end_matches, strip_prefix, take_chars, split,
  utf8, as_bytes, bytes_eq,
}
pub use Texts.{Bytes, format, codes, bytes_eq_iff}
pub use Results.*
unfoldable pub use Results.{all_ok}
pub use Prim.Native.Nat.{
  ℕ, zero, suc, ◌+◌, ◌-◌, ◌*◌, ◌/◌, ◌%◌, ◌^◌, ◌≤◌, ◌<◌, max, bit_and, bit_or, bit_xor,
}
pub use Prim.Native.Char.{Char, code}
pub use Prim.Native.String.{String}
pub use mathlib.Core.Path.{◌≡◌, refl, sym, ap, ◌∙◌, subst, fun_ext}
pub use mathlib.Core.Logic.{◌≢◌, ◌↔◌, ◌⊎◌, inl, inr}
pub use mathlib.Core.Bool.{Bool, true, false, not, ◌&&◌, ◌||◌}
pub use mathlib.Core.Option.{Option, none, some}
pub use mathlib.Core.List.{List, [], ◌∷◌, ◌++◌, map, filter}
pub use native.Mathlib.Omega.{arith}
pub use text.Mathlib.Text.{◌==◌}
pub use text.Mathlib.TextEquality.{eq_iff}
pub use text.Mathlib.TextPositions.{eq_refl}
