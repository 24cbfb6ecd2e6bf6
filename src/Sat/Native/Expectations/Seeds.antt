-- ===== src/Sat/Native/Expectations/Seeds.antt =====
-- Seeds between the front end, the expectations and the validation rule (crates/sat/src/native).
use mathlib.Core.Option
use mathlib.Core.List.{reverse, reverse-append, reverse-reverse}
use solana_audit_toolkit.Prelude.{
  and_left, and_right, ==_same, Text, ℕ, ◌≡◌, refl, ap, ◌∙◌, Bool, true, false, not, ◌&&◌, ◌==◌,
  leb, some, List, [], ◌∷◌, ◌++◌, all, is_whitespace, trim, trim_start, trim_end, strip_prefix,
  strip_suffix, arith, Bool-cases, inl, inr,
}
use solana_audit_toolkit.Sat.Native.Source.{byte_source, bytes_source, byte_str_source}
use solana_audit_toolkit.Sat.Native.Expectations.{literal_seed_value}
use solana_audit_toolkit.Sat.Native.Validate.{is_literal_seed, literal_from, is_alphabetic}

trim_start-append :
    (s : Text) (c : ℕ)
    → is_whitespace c ≡ false
    → trim_start (s ++ (c ∷ [])) ≡ trim_start s ++ (c ∷ [])
unfolding trim_start
trim_start-append [] c h = rw h refl
trim_start-append (d ∷ s) c h = elim (Bool-cases (is_whitespace d)) [
  | inl e ↦ rw e (trim_start-append s c h)
  | inr e ↦ rw e refl
]

reverse_cons : (c : ℕ) (s : Text) → reverse (c ∷ s) ≡ reverse s ++ (c ∷ [])
reverse_cons c s = reverse-append (c ∷ []) s

-- Trimming the end keeps a first character that is not white space.
trim_end_cons :
    (c : ℕ) (s : Text)
    → is_whitespace c ≡ false
    → trim_end (c ∷ s) ≡ c ∷ reverse (trim_start (reverse s))
unfolding trim_end
trim_end_cons c s h =
    ap (λ t. reverse (trim_start t)) (reverse_cons c s)
    ∙ (ap reverse (trim_start-append (reverse s) c h)
        ∙ reverse-append (trim_start (reverse s)) (c ∷ []))

trim_start_cons : (c : ℕ) (s : Text) → is_whitespace c ≡ false → trim_start (c ∷ s) ≡ c ∷ s
unfolding trim_start
trim_start_cons c s h = rw h refl

-- A text between two characters that are not white space is trimmed already.
trim_same :
    (c d : ℕ) (s : Text)
    → is_whitespace c ≡ false
    → is_whitespace d ≡ false
    → trim (c ∷ (s ++ (d ∷ []))) ≡ c ∷ (s ++ (d ∷ []))
unfolding trim
trim_same c d s h k =
    ap trim_end (trim_start_cons c (s ++ (d ∷ [])) h)
    ∙ (trim_end_cons c (s ++ (d ∷ [])) h
        ∙ ap (◌∷◌ c) (
            ap (λ t. reverse (trim_start t)) (reverse-append s (d ∷ []))
            ∙ (ap reverse (trim_start_cons d (reverse s) k)
                ∙ (reverse_cons d (reverse s) ∙ ap (λ t. t ++ (d ∷ [])) (reverse-reverse s)))))

-- No byte string literal, as the front end writes it, is a literal seed for the validation rule: the
-- `b` before the quote is taken for an identifier.
pub is_literal_seed-byte_str_source :
    (bytes : List ℕ) → is_literal_seed (byte_str_source bytes) ≡ false
unfolding is_literal_seed literal_from is_alphabetic byte_str_source
is_literal_seed-byte_str_source bytes =
    rw (trim_same 98 34 (34 ∷ bytes_source bytes) refl refl, is_literal_seed) refl

-- A printable byte that needs no escape.
abbrev pub is_plain : ℕ → Bool
is_plain b = (leb 32 b && leb b 126) && (not (b == 34) && not (b == 92))

byte_source_plain : (b : ℕ) → is_plain b ≡ true → byte_source b ≡ b ∷ []
unfolding byte_source
byte_source_plain b h = ground arith

bytes_source_plain : (bytes : List ℕ) → all is_plain bytes ≡ true → bytes_source bytes ≡ bytes
unfolding bytes_source byte_source
bytes_source_plain [] h = refl
bytes_source_plain (b ∷ bs) h =
    rw
      (
        byte_source_plain b (and_left (is_plain b) (all is_plain bs) h),
        bytes_source_plain bs (and_right (is_plain b) (all is_plain bs) h),
      )
      refl

strip_prefix_first : (s : Text) (c : ℕ) → strip_prefix (c ∷ s) (c ∷ []) ≡ some s
unfolding strip_prefix
strip_prefix_first s c = rw (==_same c) refl

strip_suffix-append : (s : Text) (c : ℕ) → strip_suffix (s ++ (c ∷ [])) (c ∷ []) ≡ some s
unfolding strip_suffix
strip_suffix-append s c =
    ap (λ t. Option.map reverse (strip_prefix t (c ∷ []))) (reverse-append s (c ∷ []))
    ∙ (ap (Option.map reverse) (strip_prefix_first (reverse s) c) ∙ ap some (reverse-reverse s))

-- The seed value of a byte string literal of plain characters is the bytes that it was written from.
pub literal_seed_value-byte_str_source :
    (bytes : List ℕ)
    → all is_plain bytes ≡ true
    → literal_seed_value (byte_str_source bytes) ≡ some bytes
unfolding literal_seed_value byte_str_source strip_prefix
literal_seed_value-byte_str_source bytes h =
    rw
      (
        trim_same 98 34 (34 ∷ bytes_source bytes) refl refl,
        literal_seed_value,
        strip_suffix-append,
        bytes_source_plain bytes h,
      )
      refl
