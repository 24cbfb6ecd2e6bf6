-- ===== src/Sat/Watch/Drift.antt =====
-- Line drift does not change the identity of a finding (crates/sat/src/watch.rs).
use solana_audit_toolkit.Prelude.{
  Text, ℕ, suc, true, false, none, some, [], ◌∷◌, ◌++◌, all, is_empty, is_digit, rsplit_at,
  rsplit_context, arith, ◌≡◌, refl, sym, ap, ◌∙◌,
}
use solana_audit_toolkit.Sat.Watch.{peel, strip_trailing_line, strip_line_numbers}

-- A line or column number.
abbrev pub IsNumber : Text → Type 0
IsNumber ds = (is_empty ds ≡ false) × (all is_digit ds ≡ true)

rsplit_at_digits : (ds : Text) → all is_digit ds ≡ true → rsplit_at b':' ds ≡ none
unfolding rsplit_at
rsplit_at_digits [] h = refl
rsplit_at_digits (d ∷ ds) h = ground (arith, rsplit_at_digits ds)

-- The last colon of `p:ds` is the one before the number.
rsplit_at_number :
    (p ds : Text) → all is_digit ds ≡ true → rsplit_at b':' (p ++ b':' ∷ ds) ≡ some (p, ds)
unfolding rsplit_at
rsplit_at_number [] ds h = rw (rsplit_at_digits ds h)
rsplit_at_number (c ∷ p) ds h = rw (rsplit_at_number p ds h)

-- One number is peeled.
peel_number : (n : ℕ) (p ds : Text) → IsNumber ds → peel (suc n) (p ++ b':' ∷ ds) ≡ peel n p
unfolding peel
peel_number n p ds (full, digits) = rw (rsplit_at_number p ds digits, full, digits, peel)

-- A context that starts at the first character of `ctx` is found behind any text.
rsplit_context_at :
    (p ctx : Text) → rsplit_context ctx ≡ some ([], ctx) → rsplit_context (p ++ ctx) ≡ some (p, ctx)
unfolding rsplit_context
rsplit_context_at [] ctx h = h
rsplit_context_at (c ∷ p) ctx h = rw (rsplit_context_at p ctx h)

strip_with_context :
    (location head tail : Text)
    → rsplit_context location ≡ some (head, tail)
    → strip_line_numbers location ≡ peel 2 head ++ tail
unfolding strip_line_numbers strip_trailing_line
strip_with_context location head tail h = rw (h, strip_line_numbers)

without_line :
    (p ds ctx : Text)
    → IsNumber ds
    → rsplit_context ctx ≡ some ([], ctx)
    → strip_line_numbers ((p ++ b':' ∷ ds) ++ ctx) ≡ peel 1 p ++ ctx
without_line p ds ctx h c =
    strip_with_context ((p ++ b':' ∷ ds) ++ ctx) (p ++ b':' ∷ ds) ctx
      (rsplit_context_at (p ++ b':' ∷ ds) ctx c)
    ∙ ap (λ t. t ++ ctx) (peel_number 1 p ds h)

-- A location `path:line`, or `path:line:column`, with a context such as ` (function)` behind it is
-- normalised to what is left of the path and the context, whatever the number is: the same finding
-- at another line keeps its location.
pub strip_line_numbers-drift :
    (p ds es ctx : Text)
    → IsNumber ds
    → IsNumber es
    → rsplit_context ctx ≡ some ([], ctx)
    → strip_line_numbers ((p ++ b':' ∷ ds) ++ ctx) ≡ strip_line_numbers ((p ++ b':' ∷ es) ++ ctx)
strip_line_numbers-drift p ds es ctx h k c =
    without_line p ds ctx h c ∙ sym (without_line p es ctx k c)
