-- ===== src/Prelude/Search.antt =====
-- The string operations of Rust's standard library that the analyzer uses, on ASCII texts.
use Prim.Native.Nat.{ℕ, ◌+◌}
use mathlib.Core.Path.{◌≡◌, refl}
use mathlib.Core.Bool.{Bool, true, false, ◌&&◌, ◌||◌}
use mathlib.Core.Option.{Option, none, some}
use mathlib.Core.Option
use mathlib.Core.List.{[], ◌∷◌, map, reverse}
use solana_audit_toolkit.Prelude.Tests.{◌==◌, leb, if◌then◌else◌}
use solana_audit_toolkit.Prelude.Lists.{is_empty}
use solana_audit_toolkit.Prelude.Texts.{Text, codes}

-- `s.strip_prefix(p)`
unfoldable pub strip_prefix : Text → Text → Option Text
strip_prefix s [] = some s
strip_prefix [] (d ∷ p) = none
strip_prefix (c ∷ s) (d ∷ p) = let rest = strip_prefix s p in if c == d then rest else none

-- `s.starts_with(p)`
unfoldable pub starts_with : Text → Text → Bool
starts_with s [] = true
starts_with [] (d ∷ p) = false
starts_with (c ∷ s) (d ∷ p) = (c == d) && starts_with s p

-- `s.contains(p)`
unfoldable pub contains : Text → Text → Bool
unfolding starts_with
contains [] p = is_empty p
contains (c ∷ s) p = starts_with (c ∷ s) p || contains s p

-- `s.ends_with(p)`
unfoldable pub ends_with : Text → Text → Bool
unfolding starts_with
ends_with s p = starts_with (reverse s) (reverse p)

abbrev pub is_digit : ℕ → Bool
is_digit c = leb 48 c && leb c 57

abbrev pub is_whitespace : ℕ → Bool
is_whitespace c = (leb 9 c && leb c 13) || (c == 32)

unfoldable pub lower : ℕ → ℕ
lower c = if leb 65 c && leb c 90 then c + 32 else c

-- `to_lowercase` and `to_ascii_lowercase`
unfoldable pub to_lowercase : Text → Text
unfolding lower
to_lowercase = map lower

unfoldable pub trim_start : Text → Text
trim_start [] = []
trim_start (c ∷ s) = let rest = trim_start s in if is_whitespace c then rest else c ∷ s

unfoldable pub trim_end : Text → Text
unfolding trim_start
trim_end s = reverse (trim_start (reverse s))

unfoldable pub trim : Text → Text
unfolding trim_start trim_end
trim s = trim_end (trim_start s)

-- `s.trim_start_matches(c)`
unfoldable pub trim_start_matches : ℕ → Text → Text
trim_start_matches c [] = []
trim_start_matches c (d ∷ s) = let rest = trim_start_matches c s in if d == c then rest else d ∷ s

-- `s.trim_end_matches(c)`
unfoldable pub trim_end_matches : ℕ → Text → Text
unfolding trim_start_matches
trim_end_matches c s = reverse (trim_start_matches c (reverse s))

-- `s.replace(c, d)` for single characters.
unfoldable pub replace_char : ℕ → ℕ → Text → Text
replace_char c d [] = []
replace_char c d (x ∷ s) = (if x == c then d else x) ∷ replace_char c d s

-- `s.replace(c, "")`
unfoldable pub remove_char : ℕ → Text → Text
remove_char c [] = []
remove_char c (x ∷ s) = let rest = remove_char c s in if x == c then rest else x ∷ rest

-- The text before and after the last `c`, as `rfind` with slicing gives them.
unfoldable pub rsplit_at : ℕ → Text → Option (Text × Text)
rsplit_at c [] = none
rsplit_at c (x ∷ s) = elim (rsplit_at c s) [
  | some (before, after) ↦ some (x ∷ before, after)
  | none ↦ if x == c then some ([], s) else none
]

-- The text before the last occurrence of the text `" ("`, and from it on.
unfoldable pub rsplit_context : Text → Option (Text × Text)
unfolding starts_with
rsplit_context [] = none
rsplit_context (x ∷ s) = elim (rsplit_context s) [
  | some (before, from) ↦ some (x ∷ before, from)
  | none ↦ if starts_with (x ∷ s) (codes " (") then some ([], x ∷ s) else none
]

search_example :
    (contains (codes "Tx-Report Mismatch: x") (codes "Mismatch") ≡ true)
    × (trim (codes "  High ") ≡ codes "High")
    × (to_lowercase (codes "HiGh") ≡ codes "high")
    × (rsplit_at b':' (codes "a:b:7") ≡ some (codes "a:b", codes "7"))
    × (rsplit_context (codes "a (b) (c)") ≡ some (codes "a (b)", codes " (c)"))
unfolding contains trim to_lowercase rsplit_at rsplit_context
search_example = (refl, refl, refl, refl, refl)

-- `s.strip_suffix(p)`
unfoldable pub strip_suffix : Text → Text → Option Text
unfolding strip_prefix
strip_suffix s p = Option.map reverse (strip_prefix (reverse s) (reverse p))
