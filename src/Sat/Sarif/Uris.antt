-- ===== src/Sat/Sarif/Uris.antt =====
-- crates/sat/src/sarif.rs: percent-encoded URIs.
use mathlib.Core.Path.{subst}
use solana_audit_toolkit.Prelude.{
  false_ne_true, Text, ==_iff, All-append, ℕ, ◌+◌, ◌-◌, ◌*◌, ◌/◌, ◌%◌, ◌<◌, ltb, leb, ◌==◌, ◌≡◌,
  refl, ap, ◌∙◌, Bool, true, false, ◌&&◌, ◌||◌, [], ◌∷◌, ◌++◌, All, if◌then◌else◌, Bool-cases, inl,
  inr, arith,
}
use solana_audit_toolkit.Sat.Sarif.{is_safe, hex_upper, encode_byte, encode_uri}

-- The value of an upper-case hexadecimal digit.
abbrev pub hex_value : ℕ → ℕ
hex_value c = if ltb c 65 then c - 48 else c - 55

-- A reader of percent-encoded texts (RFC 3986).
unfoldable pub decode_uri : Text → Text
decode_uri (c ∷ h ∷ l ∷ s) = elim (c == 37) [
  | true ↦ (hex_value h * 16 + hex_value l) ∷ decode_uri s
  | false ↦ c ∷ decode_uri (h ∷ l ∷ s)
]
decode_uri (c ∷ h ∷ []) = c ∷ h ∷ []
decode_uri (c ∷ []) = c ∷ []
decode_uri [] = []

hex_value-hex_upper : (n : ℕ) → n < 16 → hex_value (hex_upper n) ≡ n
unfolding hex_upper
hex_value-hex_upper n h = ground arith

-- No safe byte is the percent sign.
is_safe-percent : (b : ℕ) → is_safe b ≡ true → (b == 37) ≡ false
unfolding is_safe
is_safe-percent b h = elim (Bool-cases (b == 37)) [
  | inr e ↦ e
  | inl e ↦ absurd (false_ne_true (subst (λ c. is_safe c ≡ true) ((==_iff b 37).0 e) h))
]

decode_uri_other : (b : ℕ) (s : Text) → (b == 37) ≡ false → decode_uri (b ∷ s) ≡ b ∷ decode_uri s
unfolding decode_uri
decode_uri_other b [] h = refl
decode_uri_other b (c ∷ []) h = refl
decode_uri_other b (c ∷ d ∷ s) h = rw (decode_uri, h) refl

decode_uri-encode_byte :
    (b : ℕ) (s : Text) → b < 256 → decode_uri (encode_byte b ++ s) ≡ b ∷ decode_uri s
unfolding encode_byte decode_uri
decode_uri-encode_byte b s h = elim (Bool-cases (is_safe b)) [
  | inl e ↦ rw (encode_byte, e) (decode_uri_other b s (is_safe-percent b e))
  | inr e ↦
      rw
        (
          encode_byte,
          e,
          hex_value-hex_upper (b / 16) (omega arith),
          hex_value-hex_upper (b % 16) (omega arith),
        )
        (ap (λ c. c ∷ decode_uri s) whole)
]
  where
    whole : b / 16 * 16 + b % 16 ≡ b
    whole = omega arith

-- A percent-encoded text of bytes is decoded to that text.
pub decode_uri-encode_uri : (s : Text) → All (λ b. b < 256) s → decode_uri (encode_uri s) ≡ s
unfolding encode_uri decode_uri
decode_uri-encode_uri [] h = refl
decode_uri-encode_uri (b ∷ s) h =
    decode_uri-encode_byte b (encode_uri s) h.0 ∙ ap (◌∷◌ b) (decode_uri-encode_uri s h.1)

-- The bytes of an encoded URI: safe ones, and percent signs.
abbrev pub is_uri_byte : ℕ → Bool
is_uri_byte b = is_safe b || (b == 37)

or_left : (a b c : Bool) → a ≡ true → ((a || b) || c) ≡ true
or_left a b c h = ground arith

abbrev is_alphanumeric : ℕ → Bool
is_alphanumeric b = (leb 48 b && leb b 57) || ((leb 65 b && leb b 90) || (leb 97 b && leb b 122))

is_alphanumeric-hex_upper : (n : ℕ) → n < 16 → is_alphanumeric (hex_upper n) ≡ true
unfolding hex_upper
is_alphanumeric-hex_upper n h = ground arith

hex_upper-is_uri_byte : (n : ℕ) → n < 16 → is_uri_byte (hex_upper n) ≡ true
unfolding is_safe
hex_upper-is_uri_byte n h =
    or_left (is_alphanumeric (hex_upper n)) _ _ (is_alphanumeric-hex_upper n h)

encode_byte-is_uri_byte : (b : ℕ) → b < 256 → All (λ c. is_uri_byte c ≡ true) (encode_byte b)
unfolding encode_byte
encode_byte-is_uri_byte b h = elim (Bool-cases (is_safe b)) [
  | inl e ↦ rw (encode_byte, e) (rw e refl, tt)
  | inr e ↦
      rw (encode_byte, e)
        (
          refl,
          (
            hex_upper-is_uri_byte (b / 16) (omega arith),
            (hex_upper-is_uri_byte (b % 16) (omega arith), tt),
          ),
        )
]

-- Of a text of bytes, the URI has only bytes that a URI may have: no colon, quote, space or byte out of
-- ASCII.
pub encode_uri-is_uri_byte :
    (s : Text) → All (λ b. b < 256) s → All (λ c. is_uri_byte c ≡ true) (encode_uri s)
unfolding encode_uri
encode_uri-is_uri_byte [] h = tt
encode_uri-is_uri_byte (b ∷ s) h =
    All-append (λ c. is_uri_byte c ≡ true) (encode_byte b) (encode_uri s)
      (encode_byte-is_uri_byte b h.0) (encode_uri-is_uri_byte s h.1)
