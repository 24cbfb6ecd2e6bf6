-- ===== src/Sat/Calibrate/Labels.antt =====
-- The labels after a new scan (crates/sat/src/calibrate.rs).
use solana_audit_toolkit.Prelude.{
  Text, text_cmp, then_with, Ordering, ◌≡◌, ◌≢◌, refl, sym, ap, Bool, true, false, not, inl, inr,
  Bool-cases, List, [], ◌∷◌, map, All, unwrap_or, retain, retain-All, arith, sort_by, sort_by-All,
  sort_by_sorted, All-imp, ◌∙◌,
}
use Prim.Native.Nat.Ordering.{eq, gt}
use solana_audit_toolkit.Sat.Types.{Finding}
use solana_audit_toolkit.Sat.Watch.{FindingSignature, signature_eq, signature_from_finding, holds}
use solana_audit_toolkit.Sat.Watch.Diff.{signature_eq_iff}
use solana_audit_toolkit.Sat.Calibrate.{
  LabeledFinding, prior_label, label_finding, by_rule_and_location, dedup_behind, dedup, scan_repo,
  apply_suppressions,
}

-- The entry has the label that the prior state gives its signature, if it gives one.
abbrev pub KeepsLabel : List LabeledFinding → LabeledFinding → Type 0
KeepsLabel prior p = unwrap_or (prior_label prior p.signature) p.label ≡ p.label

label_finding-KeepsLabel :
    (prior : List LabeledFinding) (src : Text) (f : Finding)
    → KeepsLabel prior (label_finding prior src f)
unfolding label_finding
label_finding-KeepsLabel prior src f = ground arith

map-All :
    (prior : List LabeledFinding) (src : Text) (fs : List Finding)
    → All (KeepsLabel prior) (map (label_finding prior src) fs)
map-All prior src [] = tt
map-All prior src (f ∷ fs) = (label_finding-KeepsLabel prior src f, map-All prior src fs)

module _ {ℓ} (P : LabeledFinding → Type ℓ) where
  dedup_behind-All :
      (last : LabeledFinding) (xs : List LabeledFinding) → All P xs → All P (dedup_behind last xs)
  unfolding dedup_behind
  dedup_behind-All last [] h = tt
  dedup_behind-All last (x ∷ xs) h = elim (Bool-cases (signature_eq x.signature last.signature)) [
    | inl e ↦ rw e (dedup_behind-All last xs h.1)
    | inr e ↦ rw e (h.0, dedup_behind-All x xs h.1)
  ]

  dedup-All : (xs : List LabeledFinding) → All P xs → All P (dedup xs)
  unfolding dedup
  dedup-All [] h = tt
  dedup-All (x ∷ xs) h = (h.0, dedup_behind-All x xs h.1)

-- An entry of a new scan keeps its prior label.
pub scan_repo-KeepsLabel :
    (findings : List Finding) (prior : List LabeledFinding) (src : Text)
    → All (KeepsLabel prior) (scan_repo findings prior src)
unfolding scan_repo
scan_repo-KeepsLabel findings prior src =
    dedup-All (KeepsLabel prior)
      (sort_by by_rule_and_location (map (label_finding prior src) findings))
      (sort_by-All by_rule_and_location (KeepsLabel prior) (map (label_finding prior src) findings)
        (map-All prior src findings))

pub differ : (x y : FindingSignature) → x ≢ y → signature_eq x y ≡ false
differ x y h = ground (arith, signature_eq_iff x y)

text_cmp_refl : (s : Text) → text_cmp s s ≡ eq
unfolding text_cmp
text_cmp_refl [] = refl
text_cmp_refl (a ∷ s) = ground (arith, text_cmp_refl s)

same_place :
    (x y : LabeledFinding)
    → x.signature.rule_id ≡ y.signature.rule_id
    → x.signature.location ≡ y.signature.location
    → by_rule_and_location x y ≡ eq
unfolding by_rule_and_location
same_place x y h k =
    ap
      (λ s.
        then_with (text_cmp s y.signature.rule_id)
          (text_cmp x.signature.location y.signature.location))
      h
    ∙ (ap
          (λ s.
            then_with (text_cmp y.signature.rule_id y.signature.rule_id)
              (text_cmp s y.signature.location))
          k
        ∙ rw (text_cmp_refl y.signature.rule_id, text_cmp_refl y.signature.location) refl)

not_gt : {o : Ordering} → o ≡ eq → o ≢ gt
not_gt {o} h = ground arith

dedup_apart :
    (x y : LabeledFinding)
    → signature_eq y.signature x.signature ≡ false
    → signature_eq x.signature y.signature ≡ false
    → dedup (x ∷ y ∷ x ∷ []) ≡ x ∷ y ∷ x ∷ []
unfolding dedup dedup_behind
dedup_apart x y h k = rw (h, k) refl

-- Removing neighbours does not remove all duplicates: where two different signatures share the
-- rule and the location, the sort keeps their order, and a signature both before and behind the
-- other is kept twice.
pub dedup_misses :
    (x y : LabeledFinding)
    → x.signature.rule_id ≡ y.signature.rule_id
    → x.signature.location ≡ y.signature.location
    → x.signature ≢ y.signature
    → dedup (sort_by by_rule_and_location (x ∷ y ∷ x ∷ [])) ≡ x ∷ y ∷ x ∷ []
dedup_misses x y h k n =
    let at_y : by_rule_and_location x y ≢ gt = not_gt (same_place x y h k) in
    let at_x : by_rule_and_location y x ≢ gt = not_gt (same_place y x (sym h) (sym k)) in
    let self : by_rule_and_location x x ≢ gt = not_gt (same_place x x refl refl) in
    ap dedup (
      sort_by_sorted by_rule_and_location (x ∷ y ∷ x ∷ [])
        ((at_y, (self, tt)), ((at_x, tt), (tt, tt))))
    ∙ dedup_apart x y (differ y.signature x.signature (λ e. n (sym e)))
        (differ x.signature y.signature n)

not-false : (b : Bool) → not b ≡ true → b ≡ false
not-false b h = ground arith

none_held :
    (src : Text) (fs : List Finding) → All (λ f. holds [] (signature_from_finding f src) ≡ false) fs
unfolding holds
none_held src [] = tt
none_held src (f ∷ fs) = (refl, none_held src fs)

-- No finding that is left by `apply_suppressions` has a suppressed signature.
pub apply_suppressions-none :
    (findings : List Finding) (suppressed : List FindingSignature) (src : Text)
    → All
        (λ f. holds suppressed (signature_from_finding f src) ≡ false)
        (apply_suppressions findings suppressed src)
unfolding apply_suppressions
apply_suppressions-none findings suppressed src =
    elim suppressed
      as (λ (k : List FindingSignature).
        All (λ (f : Finding). holds k (signature_from_finding f src) ≡ false)
          (apply_suppressions findings k src)) [
            | [] ↦ none_held src findings
            | s ∷ ss ↦
                All-imp (λ f h. not-false (holds (s ∷ ss) (signature_from_finding f src)) h)
                  (retain (λ f. not (holds (s ∷ ss) (signature_from_finding f src))) findings)
                  (retain-All (λ f. not (holds (s ∷ ss) (signature_from_finding f src))) findings)
          ]
