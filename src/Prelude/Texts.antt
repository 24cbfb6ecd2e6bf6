-- ===== src/Prelude/Texts.antt =====
-- Texts as the lists of their bytes. Texts of the model are ASCII, so a byte is a character.
use Prim.Native.Nat.{ℕ, zero, suc, ◌+◌, ◌/◌, ◌%◌}
use Prim.Native.Char.{code}
use Prim.Native.String.{String}
use mathlib.Core.Path.{◌≡◌, refl}
use mathlib.Core.Logic.{◌↔◌}
use mathlib.Core.Bool.{Bool, true, false, ◌&&◌, ◌||◌}
use mathlib.Core.List.{List, [], ◌∷◌, ◌++◌}
use native.Mathlib.Omega.{arith}
use solana_audit_toolkit.Prelude.Tests.{◌==◌, ltb, if◌then◌else◌}

abbrev pub Text : Type 0
Text = List ℕ

abbrev pub codes : String → Text
codes String.[] = []
codes (String.◌∷◌ c s) = code c ∷ codes s

unfoldable pub text_eq : Text → Text → Bool
text_eq [] [] = true
text_eq (a ∷ s) (b ∷ t) = (a == b) && text_eq s t
text_eq _ _ = false

pub text_eq_iff : (s t : Text) → (text_eq s t ≡ true) ↔ (s ≡ t)
unfolding text_eq
text_eq_iff [] [] = ground arith
text_eq_iff (a ∷ s) (b ∷ t) = ground (arith, text_eq_iff s t)
text_eq_iff [] (b ∷ t) = ground arith
text_eq_iff (a ∷ s) [] = ground arith

pub text_eq_refl : (s : Text) → text_eq s s ≡ true
text_eq_refl s = (text_eq_iff s s).1 refl

-- The decimal digits of `n` before `acc`; a fuel above `n` is enough.
digits_before : ℕ → ℕ → Text → Text
digits_before zero n acc = acc
digits_before (suc f) n acc = elim (n / 10 == 0) [
  | true ↦ (n % 10 + 48) ∷ acc
  | false ↦ digits_before f (n / 10) ((n % 10 + 48) ∷ acc)
]

-- `to_string` of an unsigned integer.
unfoldable pub decimal : ℕ → Text
unfolding digits_before
decimal n = digits_before (suc n) n []

hex_digit : ℕ → ℕ
hex_digit d = if ltb d 10 then d + 48 else d + 87

-- How `{:?}` writes one character of a text.
escape : ℕ → Text
unfolding hex_digit
escape c =
    if c == b'"'
    then codes "\\\""
    else if c == 92
    then codes "\\\\"
    else if c == 10
    then codes "\\n"
    else if c == 13
    then codes "\\r"
    else if c == 9
    then codes "\\t"
    else if c == 0
    then codes "\\0"
    else if ltb c 16
    then codes "\\u{" ++ (hex_digit c ∷ codes "}")
    else if ltb c 32 || c == 127
    then codes "\\u{" ++ (hex_digit (c / 16) ∷ hex_digit (c % 16) ∷ codes "}")
    else c ∷ []

escape_all : Text → Text
escape_all [] = []
escape_all (c ∷ s) = escape c ++ escape_all s

-- `format!("{s:?}")` of a text.
unfoldable pub debug_text : Text → Text
unfolding escape escape_all
debug_text s = codes "\"" ++ (escape_all s ++ codes "\"")

decimal_example : decimal 18446744073709551615 ≡ codes "18446744073709551615"
unfolding decimal
decimal_example = refl

debug_text_example : debug_text (codes "a\"b\n") ≡ codes "\"a\\\"b\\n\""
unfolding debug_text
debug_text_example = refl
