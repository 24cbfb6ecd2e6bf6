-- ===== src/Sat/Calibrate/Reviews.antt =====
-- Reviews survive a new scan (crates/sat/src/calibrate.rs).
use mathlib.Core.Path.{subst}
use solana_audit_toolkit.Prelude.{
  Text, ◌≡◌, ◌≢◌, refl, sym, ap, Bool, inl, inr, Bool-cases, List, [], ◌∷◌, map, All, retain, arith,
  sort_by, sort_by-any, ◌∙◌, some, any, ◌||◌,
}
use solana_audit_toolkit.Sat.Types.{Finding}
use solana_audit_toolkit.Sat.Watch.{FindingSignature, signature_eq, signature_from_finding}
use solana_audit_toolkit.Sat.Watch.Diff.{signature_eq_iff}
use solana_audit_toolkit.Sat.Calibrate.{
  CalibrationLabel, LabeledFinding, prior_label, label_finding, by_rule_and_location, dedup_behind,
  dedup, scan_repo,
}
use solana_audit_toolkit.Sat.Calibrate.Labels.{KeepsLabel, scan_repo-KeepsLabel, differ}

-- The first entry of the signature `s` has the label `l`.
pub data LabelsFirst : List LabeledFinding → FindingSignature → CalibrationLabel → Type 0 where
  here :
      (p : LabeledFinding) (prior : List LabeledFinding) {s : FindingSignature}
      {l : CalibrationLabel}
      → p.signature ≡ s
      → p.label ≡ l
      → LabelsFirst (p ∷ prior) s l
  later :
      (p : LabeledFinding) {prior : List LabeledFinding} {s : FindingSignature}
      {l : CalibrationLabel}
      → p.signature ≢ s
      → LabelsFirst prior s l
      → LabelsFirst (p ∷ prior) s l

prior_label-LabelsFirst :
    {prior : List LabeledFinding} {s : FindingSignature} {l : CalibrationLabel}
    → LabelsFirst prior s l
    → prior_label prior s ≡ some l
unfolding prior_label
prior_label-LabelsFirst {s = s} {l = l} (here p prior e k) =
    rw ((signature_eq_iff p.signature s).1 e, prior_label) (ap some k)
prior_label-LabelsFirst {s = s} {l = l} (later p {prior = prior} n h) =
    rw (differ p.signature s n, prior_label) (prior_label-LabelsFirst h)

abbrev pub has_signature : FindingSignature → LabeledFinding → Bool
has_signature s e = signature_eq e.signature s

dedup_behind-any :
    (s : FindingSignature) (last : LabeledFinding) (xs : List LabeledFinding)
    → any (has_signature s) (last ∷ dedup_behind last xs) ≡ any (has_signature s) (last ∷ xs)
unfolding dedup_behind
dedup_behind-any s last [] = refl
dedup_behind-any s last (x ∷ xs) = elim (Bool-cases (signature_eq x.signature last.signature)) [
  | inl e ↦
      let same : x.signature ≡ last.signature = (signature_eq_iff x.signature last.signature).0 e in
      rw e (
        dedup_behind-any s last xs
        ∙ doubled (any (has_signature s) xs) (ap (λ t. signature_eq t s) same))
  | inr e ↦ rw e (ap (λ b. has_signature s last || b) (dedup_behind-any s x xs))
]
  where
    doubled : {a b : Bool} (c : Bool) → b ≡ a → (a || c) ≡ (a || (b || c))
    doubled {a} {b} c e = ground arith

dedup-any :
    (s : FindingSignature) (xs : List LabeledFinding)
    → any (has_signature s) (dedup xs) ≡ any (has_signature s) xs
unfolding dedup
dedup-any s [] = refl
dedup-any s (x ∷ xs) = dedup_behind-any s x xs

any-label_finding :
    (s : FindingSignature) (prior : List LabeledFinding) (src : Text) (fs : List Finding)
    → any (has_signature s) (map (label_finding prior src) fs)
      ≡ any (λ f. signature_eq (signature_from_finding f src) s) fs
unfolding label_finding
any-label_finding s prior src [] = refl
any-label_finding s prior src (f ∷ fs) =
    ap (λ b. signature_eq (signature_from_finding f src) s || b) (any-label_finding s prior src fs)

labels_first :
    (prior : List LabeledFinding) (s : FindingSignature) (l : CalibrationLabel)
    (xs : List LabeledFinding)
    → LabelsFirst prior s l
    → All (KeepsLabel prior) xs
    → All (λ e. e.label ≡ l) (retain (has_signature s) xs)
labels_first prior s l [] h k = tt
labels_first prior s l (x ∷ xs) h k = elim (Bool-cases (signature_eq x.signature s)) [
  | inl e ↦ rw e (
    label_is x l (subst (λ t. LabelsFirst prior t l) (sym ((signature_eq_iff x.signature s).0 e)) h)
        k.0,
    labels_first prior s l xs h k.1,
  )
  | inr e ↦ rw e (labels_first prior s l xs h k.1)
]
  where
    label_is :
        (x : LabeledFinding) (l : CalibrationLabel)
        → LabelsFirst prior x.signature l
        → KeepsLabel prior x
        → x.label ≡ l
    label_is x l g k = sym (rw (prior_label-LabelsFirst g) at k)

-- Where the prior state has an entry of the signature `s`, and the first such entry the label `l`: every
-- entry of the new scan with this signature has the label `l`, and there is one exactly if a finding of the
-- scan has the signature. Two signatures are one if rule, title, location and severity agree.
pub scan_repo-LabelsFirst :
    (findings : List Finding) (prior : List LabeledFinding) (src : Text) (s : FindingSignature)
    (l : CalibrationLabel)
    → LabelsFirst prior s l
    → All (λ e. e.label ≡ l) (retain (has_signature s) (scan_repo findings prior src))
      × (any (has_signature s) (scan_repo findings prior src)
          ≡ any (λ f. signature_eq (signature_from_finding f src) s) findings)
unfolding scan_repo
scan_repo-LabelsFirst findings prior src s l h = (
  labels_first prior s l (scan_repo findings prior src) h (scan_repo-KeepsLabel findings prior src),
  dedup-any s (sort_by by_rule_and_location (map (label_finding prior src) findings))
      ∙ (sort_by-any by_rule_and_location (has_signature s) (map (label_finding prior src) findings)
          ∙ any-label_finding s prior src findings),
)
