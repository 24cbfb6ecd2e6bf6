-- ===== src/Prelude.antt =====
-- The names that the other modules share: the libraries', passed on, and those of the children.
mod Tests
mod Lists
mod Texts
mod Words
mod Search
mod Sorting
mod First
pub use Tests.*
pub use Lists.*
pub use Texts.{Text, codes, text_eq_iff, text_eq_refl}
unfoldable pub use Texts.{text_eq, decimal, debug_text}
pub use Words.*
pub use First.{IsFirst}
pub use Sorting.{
  then_with, IsPairwise, sort_by-perm, sort_by-IsPairwise, sort_by-All, sort_by-any, sort_by_sorted,
  Ordering-cases,
}
unfoldable pub use Sorting.{text_cmp, insert_by, sort_by}
pub use mathlib.Core.List.{Perm}
pub use Prim.Native.Nat.{compare, Ordering}
pub use Search.{is_digit, is_whitespace}
unfoldable pub use Search.{
  strip_prefix, strip_suffix, starts_with, contains, ends_with, lower, to_lowercase, trim_start,
  trim_end, trim, trim_start_matches, trim_end_matches, replace_char, remove_char, rsplit_at,
  rsplit_context,
}
pub use Prim.Native.Nat.{ℕ, zero, suc, ◌+◌, ◌-◌, ◌*◌, ◌/◌, ◌%◌, ◌^◌, ◌≤◌, ◌<◌, min, max}
pub use mathlib.Core.Path.{◌≡◌, refl, sym, ap, ◌∙◌}
pub use mathlib.Core.Logic.{◌≢◌, ◌↔◌, ◌⊎◌, inl, inr}
pub use mathlib.Core.Bool.{Bool, true, false, not, ◌&&◌, ◌||◌}
pub use mathlib.Core.Option.{Option, none, some}
pub use mathlib.Core.List.{List, [], ◌∷◌, ◌++◌, map, append-nil, append_assoc}
pub use native.Mathlib.Omega.{arith}

-- `Result<T, E>`
pub data Result {ℓ κ} (A : Type ℓ) (E : Type κ) : Type (ℓ ⊔ κ) where
  ok : A → Result A E
  err : E → Result A E
