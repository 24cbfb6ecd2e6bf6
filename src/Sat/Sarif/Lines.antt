-- ===== src/Sat/Sarif/Lines.antt =====
-- crates/sat/src/sarif.rs: the line of a location with a path, a colon and digits.
use mathlib.Core.Path.{subst}
use mathlib.Core.List.{reverse, reverse-append, reverse-reverse}
use solana_audit_toolkit.Prelude.{
  all-append, and_left, and_right, not-true, Text, ℕ, ◌==◌, ◌≡◌, refl, sym, ap, ◌∙◌, Bool, true,
  false, not, ◌&&◌, ◌||◌, List, [], ◌∷◌, ◌++◌, append_assoc, append-nil, all, is_digit, is_empty,
  arith,
}
use solana_audit_toolkit.Sat.Sarif.{
  encode_uri, leading_digits, after_digits, is_boundary, parse_u32, split_line,
  location_to_uri_and_line,
}

abbrev pub is_not_colon : ℕ → Bool
is_not_colon c = not (c == b':')

-- Bytes that are no colons are passed.
split_line_passes :
    (loc skipped before after : Text)
    → all is_not_colon skipped ≡ true
    → split_line loc (skipped ++ before) after ≡ split_line loc before (reverse skipped ++ after)
unfolding split_line
split_line_passes loc [] before after h = refl
split_line_passes loc (c ∷ skipped) before after h =
    rw (split_line, not_colon)
      (split_line_passes loc skipped before (c ∷ after)
          (and_right (is_not_colon c) (all is_not_colon skipped) h)
        ∙ ap (split_line loc before) moved)
  where
    not_colon : (c == b':') ≡ false
    not_colon = not-true (c == b':') (and_left (is_not_colon c) (all is_not_colon skipped) h)

    moved : reverse skipped ++ (c ∷ after) ≡ reverse (c ∷ skipped) ++ after
    moved =
        sym (append_assoc (reverse skipped) (c ∷ []) after)
        ∙ ap (λ t. t ++ after) (sym (reverse-append (c ∷ []) skipped))

all-reverse {ℓ} :
    {A : Type ℓ} (p : A → Bool) (xs : List A) → all p xs ≡ true → all p (reverse xs) ≡ true
all-reverse p [] h = refl
all-reverse p (x ∷ xs) h =
    subst (λ t. all p t ≡ true) (sym (reverse-append (x ∷ []) xs))
      (all-append p (reverse xs) (x ∷ []) (all-reverse p xs (and_right (p x) (all p xs) h))
        (rw (and_left (p x) (all p xs) h) refl))

digit_not_colon : (c : ℕ) → is_digit c ≡ true → is_not_colon c ≡ true
digit_not_colon c h = ground arith

digits_not_colon : (ds : Text) → all is_digit ds ≡ true → all is_not_colon ds ≡ true
digits_not_colon [] h = refl
digits_not_colon (d ∷ ds) h =
    rw (digit_not_colon d (and_left (is_digit d) (all is_digit ds) h))
      (digits_not_colon ds (and_right (is_digit d) (all is_digit ds) h))

boundary_no_digit : (c : ℕ) → ((c == b' ') || (c == b'(')) ≡ true → is_digit c ≡ false
boundary_no_digit c h = ground arith

leading_digits-append :
    (ds tail : Text)
    → all is_digit ds ≡ true
    → is_boundary tail ≡ true
    → leading_digits (ds ++ tail) ≡ ds
unfolding leading_digits is_boundary
leading_digits-append [] [] h k = refl
leading_digits-append [] (c ∷ tail) h k = rw (boundary_no_digit c k) refl
leading_digits-append (d ∷ ds) tail h k =
    rw
      (
        and_left (is_digit d) (all is_digit ds) h,
        leading_digits-append ds tail (and_right (is_digit d) (all is_digit ds) h) k,
      )
      refl

after_digits-append :
    (ds tail : Text)
    → all is_digit ds ≡ true
    → is_boundary tail ≡ true
    → after_digits (ds ++ tail) ≡ tail
unfolding after_digits is_boundary
after_digits-append [] [] h k = refl
after_digits-append [] (c ∷ tail) h k = rw (boundary_no_digit c k) refl
after_digits-append (d ∷ ds) tail h k =
    rw (and_left (is_digit d) (all is_digit ds) h)
      (after_digits-append ds tail (and_right (is_digit d) (all is_digit ds) h) k)

split_line_found :
    (loc before : Text) (d : ℕ) (ds tail : Text)
    → all is_digit (d ∷ ds) ≡ true
    → is_boundary tail ≡ true
    → split_line loc (b':' ∷ before) ((d ∷ ds) ++ tail)
      ≡ (encode_uri (reverse before), parse_u32 (d ∷ ds))
unfolding split_line
split_line_found loc before d ds tail h k =
    rw (split_line, found)
      (ap (λ t. (encode_uri (reverse before), parse_u32 t))
        (leading_digits-append (d ∷ ds) tail h k))
  where
    found :
        (not (is_empty (leading_digits ((d ∷ ds) ++ tail)))
          && is_boundary (after_digits ((d ∷ ds) ++ tail)))
        ≡ true
    found =
        rw (leading_digits-append (d ∷ ds) tail h k, after_digits-append (d ∷ ds) tail h k, k) refl

-- A location that is a path, a colon, digits and a context without a colon that starts with a space or a
-- parenthesis, or is empty, is taken apart into the encoded path and the number of the digits; the path may
-- have colons of its own.
pub location_to_uri_and_line_lem :
    (path : Text) (d : ℕ) (ds context : Text)
    → all is_digit (d ∷ ds) ≡ true
    → is_boundary context ≡ true
    → all is_not_colon context ≡ true
    → location_to_uri_and_line (path ++ (b':' ∷ ((d ∷ ds) ++ context)))
      ≡ (encode_uri path, parse_u32 (d ∷ ds))
unfolding location_to_uri_and_line
location_to_uri_and_line_lem path d ds context h k n =
    ap (λ t. split_line loc t []) turned
    ∙ (split_line_passes loc (reverse end) (b':' ∷ reverse path) []
          (all-reverse is_not_colon end end_not_colon)
        ∙ (ap (split_line loc (b':' ∷ reverse path))
              (append-nil (reverse (reverse end)) ∙ reverse-reverse end)
            ∙ (split_line_found loc (reverse path) d ds context h k
                ∙ ap (λ t. (encode_uri t, parse_u32 (d ∷ ds))) (reverse-reverse path))))
  where
    end : Text
    end = (d ∷ ds) ++ context

    loc : Text
    loc = path ++ (b':' ∷ end)

    end_not_colon : all is_not_colon end ≡ true
    end_not_colon = all-append is_not_colon (d ∷ ds) context (digits_not_colon (d ∷ ds) h) n

    turned : reverse loc ≡ reverse end ++ (b':' ∷ reverse path)
    turned =
        reverse-append path (b':' ∷ end)
        ∙ (ap (λ t. t ++ reverse path) (reverse-append (b':' ∷ []) end)
            ∙ append_assoc (reverse end) (b':' ∷ []) (reverse path))
