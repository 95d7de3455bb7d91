-- ===== src/Prelude.antt =====
-- The names that the other modules share: the libraries', passed on, and those of the children.
mod Tests
mod Lists
mod Strings
mod Words
pub use Tests.*
mod Decimal
mod Find
pub use Lists.*
pub use Strings.{
  Text, is_empty, str_eq→eq, str_eq_refl, starts_with-append, length-take, take_all, take_short,
  array_text, copied_text, copied_text-short, drop-append,
}
unfoldable pub use Strings.{
  codes, str_eq, starts_with, drop, take, str_find, skip_space, digits, signed, atoi, str_case_eq,
}
pub use Words.*
pub use Decimal.{decimal, length-decimal_digits, EndsNumber, scan_int-decimal}
unfoldable pub use Decimal.{decimal_digits, scan_int, scan_signed, scan_digits, after_digits}
pub use Find.{is_some, Occurs, contains-Occurs}
unfoldable pub use Find.{contains}
pub use Prim.Native.Nat.{ℕ, zero, suc, ◌+◌, ◌-◌, ◌*◌, ◌/◌, ◌%◌, ◌^◌, ◌≤◌, ◌<◌}
pub use mathlib.Core.Path.{◌≡◌, refl, sym, ap, ◌∙◌}
pub use mathlib.Core.Logic.{◌≢◌, ◌↔◌, ◌⊎◌, inl, inr}
pub use mathlib.Core.Bool.{Bool, true, false, not, ◌&&◌, ◌||◌}
pub use mathlib.Core.Option.{Option, none, some}
pub use mathlib.Core.List.{List, [], ◌∷◌, ◌++◌}
pub use native.Mathlib.Omega.{arith}
