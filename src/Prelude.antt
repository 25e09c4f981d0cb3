-- ===== src/Prelude.antt =====
-- The names that the other modules share: the libraries', passed on, and those of the children
-- (Boolean tests, lists measured by native numbers, text as lists of numbers).
mod Tests
mod Lists
mod Chars
mod Utf8
mod Strings
pub use Tests.*
pub use Lists.*
pub use Chars.*
unfoldable pub use Utf8.{is_utf8}
pub use Utf8.{is_utf8_ascii}
unfoldable pub use Strings.{as_bytes, slice_to, hex}
pub use Strings.{len_utf8, byte_len, IsAscii, byte_len_ascii, slice_to_ascii, upper_hex, lower_hex}
pub use Strings.{length-hex-le, All-hex}
pub use Prim.Native.Nat.{ℕ, zero, suc, ◌+◌, ◌-◌, ◌*◌, ◌/◌, ◌%◌, ◌^◌, ◌≤◌, ◌<◌}
pub use Prim.Native.String.{String}
pub use mathlib.Core.Path.{◌≡◌, refl, sym, ap, ◌∙◌, subst}
pub use mathlib.Core.Logic.{◌≢◌, ◌↔◌, ◌⊎◌, inl, inr}
pub use mathlib.Core.Bool.{Bool, true, false, not, ◌&&◌, ◌||◌}
pub use mathlib.Core.Option.{Option, none, some}
pub use mathlib.Core.List.{List, [], ◌∷◌, ◌++◌, map}
pub use native.Mathlib.Omega.{arith}
pub use text.Mathlib.Text.{◌==◌ as str_eq}
pub use text.Mathlib.TextEquality.{eq_iff}
