-- ===== src/Sat/Calibrate.antt =====
-- crates/sat/src/calibrate.rs: the labels that reviewers give to findings, their merge with a new
-- scan, the counts per rule, and the suppression of confirmed false positives. Reading and writing
-- the state files, the analysis of a repository and the printed report are not modelled: a scan is
-- the list of its findings, and the prior state the list that the file holds.
pub mod Labels
pub mod Reviews
pub mod Counts
use solana_audit_toolkit.Prelude.{
  Text, codes, text_eq, text_cmp, contains, ℕ, zero, suc, ◌+◌, ◌*◌, ltb, ◌≡◌, Bool, not, ◌&&◌,
  Option, none, some, List, [], ◌∷◌, ◌++◌, map, find, retain, is_empty, if◌then◌else◌, then_with,
  Ordering, sort_by,
}
use Prim.Native.Nat.Ordering.{lt, eq, gt}
use solana_audit_toolkit.Sat.Types.{Severity, ordinal, Finding}
use solana_audit_toolkit.Sat.Watch.{FindingSignature, signature_eq, signature_from_finding, holds}

pub data CalibrationLabel : Type 0 where
  tp fp hardening unlabeled : CalibrationLabel

pub record LabeledFinding : Type 0 where
  pub signature : FindingSignature
  pub label : CalibrationLabel

pub record RepoState : Type 0 where
  pub name : Text
  pub scanned_at : Text
  pub findings : List LabeledFinding

unfoldable pub suggest_label : Finding → Text → CalibrationLabel
suggest_label finding rule_id = elim finding.severity [
  | Severity.informational ↦ CalibrationLabel.hardening
  | _ ↦
      if text_eq rule_id (codes "SAT013") && contains finding.title (codes "No Token-2022")
      then CalibrationLabel.hardening
      else CalibrationLabel.unlabeled
]

-- The prior entry of a signature: the first that matches.
unfoldable pub prior_label : List LabeledFinding → FindingSignature → Option CalibrationLabel
prior_label prior s = elim (find (λ p. signature_eq p.signature s) prior) [
  | some p ↦ some p.label
  | none ↦ none
]

unfoldable pub label_finding : List LabeledFinding → Text → Finding → LabeledFinding
unfolding prior_label suggest_label
label_finding prior src f =
    let s = signature_from_finding f src in
    record {
      signature = s;
      label = elim (prior_label prior s) [ some l ↦ l | none ↦ suggest_label f s.rule_id ];
    }

-- The comparison of the pairs of rule and location.
unfoldable pub by_rule_and_location : LabeledFinding → LabeledFinding → Ordering
by_rule_and_location a b =
    then_with (text_cmp a.signature.rule_id b.signature.rule_id)
      (text_cmp a.signature.location b.signature.location)

-- `dedup_by` behind the element `last` that was kept last: equal neighbours are dropped.
unfoldable pub dedup_behind : LabeledFinding → List LabeledFinding → List LabeledFinding
dedup_behind last [] = []
dedup_behind last (x ∷ xs) =
    let dropped = dedup_behind last xs in
    let kept = dedup_behind x xs in
    if signature_eq x.signature last.signature then dropped else x ∷ kept

unfoldable pub dedup : List LabeledFinding → List LabeledFinding
unfolding dedup_behind
dedup [] = []
dedup (x ∷ xs) = x ∷ dedup_behind x xs

-- `scan_repo` behind the analysis.
unfoldable pub scan_repo : List Finding → List LabeledFinding → Text → List LabeledFinding
unfolding label_finding dedup
scan_repo findings prior src =
    dedup (sort_by by_rule_and_location (map (label_finding prior src) findings))

pub record LabelCounts : Type 0 where
  pub tp : ℕ
  pub fp : ℕ
  pub hardening : ℕ
  pub unlabeled : ℕ

unfoldable pub default_counts : LabelCounts
default_counts = record { tp = 0; fp = 0; hardening = 0; unlabeled = 0 }

-- The `match` of `aggregate`.
unfoldable pub count_label : CalibrationLabel → LabelCounts → LabelCounts
count_label tp c = record {
  tp = suc c.tp;
  fp = c.fp;
  hardening = c.hardening;
  unlabeled = c.unlabeled;
}
count_label fp c = record {
  tp = c.tp;
  fp = suc c.fp;
  hardening = c.hardening;
  unlabeled = c.unlabeled;
}
count_label hardening c = record {
  tp = c.tp;
  fp = c.fp;
  hardening = suc c.hardening;
  unlabeled = c.unlabeled;
}
count_label unlabeled c = record {
  tp = c.tp;
  fp = c.fp;
  hardening = c.hardening;
  unlabeled = suc c.unlabeled;
}

-- `entry(rule).or_default()` and the count, in a map that is a list of entries by rising key.
unfoldable pub count_entry :
    Text → CalibrationLabel → List (Text × LabelCounts) → List (Text × LabelCounts)
unfolding count_label default_counts
count_entry rule l [] = (rule, count_label l default_counts) ∷ []
count_entry rule l (e ∷ es) =
    let rest = count_entry rule l es in
    elim (text_cmp rule e.0) [
      | lt ↦ (rule, count_label l default_counts) ∷ e ∷ es
      | eq ↦ (e.0, count_label l e.1) ∷ es
      | gt ↦ e ∷ rest
    ]

unfoldable pub count_findings :
    List LabeledFinding → List (Text × LabelCounts) → List (Text × LabelCounts)
unfolding count_entry
count_findings [] out = out
count_findings (f ∷ fs) out = count_findings fs (count_entry f.signature.rule_id f.label out)

unfoldable pub aggregate_from :
    List RepoState → List (Text × LabelCounts) → List (Text × LabelCounts)
unfolding count_findings
aggregate_from [] out = out
aggregate_from (s ∷ ss) out = aggregate_from ss (count_findings s.findings out)

unfoldable pub aggregate : List RepoState → List (Text × LabelCounts)
unfolding aggregate_from
aggregate states = aggregate_from states []

-- What `suggestion` returns. The quotient of `precision` is compared by cross multiplication, which
-- the rounding of 64-bit floats does not change while the counts are below 2 ^ 50; a dash is one code.
unfoldable pub suggestion : LabelCounts → Text
suggestion c = elim (c.tp + c.fp) [
  | zero ↦ codes "unlabeled — review required"
  | suc n ↦
      if ltb (10 * c.tp) (3 * (c.tp + c.fp))
      then codes "DOWNGrade or suppress — high FP rate"
      else if ltb (10 * c.tp) (5 * (c.tp + c.fp))
      then codes "review — borderline precision"
      else codes "ok"
]

-- `apply_suppressions` behind the reading of the file.
unfoldable pub apply_suppressions : List Finding → List FindingSignature → Text → List Finding
apply_suppressions findings suppressed src_path =
    if is_empty suppressed
    then findings
    else retain (λ f. not (holds suppressed (signature_from_finding f src_path))) findings
