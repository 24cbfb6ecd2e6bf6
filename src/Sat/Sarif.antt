-- ===== src/Sat/Sarif.antt =====
-- crates/sat/src/sarif.rs: the artifact URI and the line of a finding's location. The rest of the report is
-- JSON, written by serde.
pub mod Uris
pub mod Lines
use mathlib.Core.List.{reverse}
use solana_audit_toolkit.Prelude.{
  Text, ℕ, ◌+◌, ◌-◌, ◌*◌, ◌/◌, ◌%◌, ◌^◌, ltb, leb, ◌==◌, Bool, true, false, not, ◌&&◌, ◌||◌, Option,
  none, some, List, [], ◌∷◌, ◌++◌, any, is_digit, is_empty, if◌then◌else◌,
}

-- The bytes that `matches!` names.
abbrev safe_bytes : Text
safe_bytes =
    47 ∷ 46 ∷ 45 ∷ 95 ∷ 126 ∷ 33 ∷ 36 ∷ 38 ∷ 39 ∷ 40 ∷ 41 ∷ 42 ∷ 43 ∷ 44 ∷ 59 ∷ 61 ∷ 64 ∷ []

unfoldable pub is_safe : ℕ → Bool
is_safe b =
    ((leb 48 b && leb b 57) || ((leb 65 b && leb b 90) || (leb 97 b && leb b 122)))
    || any (λ c. b == c) safe_bytes

unfoldable pub hex_upper : ℕ → ℕ
hex_upper n = if ltb n 10 then n + 48 else n + 55

unfoldable pub encode_byte : ℕ → Text
unfolding is_safe hex_upper
encode_byte b = if is_safe b then b ∷ [] else 37 ∷ hex_upper (b / 16) ∷ hex_upper (b % 16) ∷ []

unfoldable pub encode_uri : Text → Text
unfolding encode_byte
encode_uri [] = []
encode_uri (b ∷ s) = encode_byte b ++ encode_uri s

-- The digits that a text starts with, and what follows them.
unfoldable pub leading_digits : Text → Text
leading_digits [] = []
leading_digits (c ∷ s) = let rest = leading_digits s in if is_digit c then c ∷ rest else []

unfoldable pub after_digits : Text → Text
after_digits [] = []
after_digits (c ∷ s) = let rest = after_digits s in if is_digit c then rest else c ∷ s

-- `followed_by_boundary`
unfoldable pub is_boundary : Text → Bool
is_boundary [] = true
is_boundary (c ∷ s) = (c == b' ') || (c == b'(')

-- The value of digits, read from the left.
unfoldable pub digits_value : ℕ → Text → ℕ
digits_value acc [] = acc
digits_value acc (d ∷ ds) = digits_value (acc * 10 + (d - 48)) ds

-- `parse().ok()` of digits as a `u32`
unfoldable pub parse_u32 : Text → Option ℕ
unfolding digits_value
parse_u32 ds = if ltb (digits_value 0 ds) (2 ^ 32) then some (digits_value 0 ds) else none

-- The loop from the end: the bytes before the place, from the last one, and those from the place on.
unfoldable pub split_line : Text → Text → Text → Text × Option ℕ
unfolding leading_digits after_digits is_boundary parse_u32 encode_uri
split_line loc [] after = (encode_uri loc, none)
split_line loc (c ∷ before) after =
    elim ((c == b':')
      && (not (is_empty (leading_digits after)) && is_boundary (after_digits after))) [
        | true ↦ (encode_uri (reverse before), parse_u32 (leading_digits after))
        | false ↦ split_line loc before (c ∷ after)
      ]

unfoldable pub location_to_uri_and_line : Text → Text × Option ℕ
unfolding split_line
location_to_uri_and_line loc = split_line loc (reverse loc) []
