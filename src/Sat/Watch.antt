-- ===== src/Sat/Watch.antt =====
-- crates/sat/src/watch.rs: the identity of a finding across scans, and the difference of two scans.
-- Cloning, analysing and writing the state files are not modelled.
pub mod Drift
pub mod Diff
use solana_audit_toolkit.Prelude.{
  Text, codes, text_eq, ℕ, zero, suc, Bool, true, false, not, ◌&&◌, Option, none, some, List, [],
  ◌∷◌, ◌++◌, any, all, retain, is_empty, is_digit, strip_prefix, trim_start_matches,
  trim_end_matches, replace_char, rsplit_at, rsplit_context, if◌then◌else◌,
}
use solana_audit_toolkit.Sat.Types.{Severity, display, Finding}
use solana_audit_toolkit.Sat.Rules.{classify_finding_rule}

pub record FindingSignature : Type 0 where
  pub rule_id : Text
  pub title : Text
  pub location : Text
  pub severity : Text

-- The derived equality.
unfoldable pub signature_eq : FindingSignature → FindingSignature → Bool
signature_eq a b =
    text_eq a.rule_id b.rule_id
    && (text_eq a.title b.title && (text_eq a.location b.location && text_eq a.severity b.severity))

-- The loop of `strip_trailing_line`: at most `n` trailing segments `:digits` are peeled.
unfoldable pub peel : ℕ → Text → Text
peel zero base = base
peel (suc n) base = elim (rsplit_at b':' base) [
  | some (before, digits) ↦
      if not (is_empty digits) && all is_digit digits then peel n before else base
  | none ↦ base
]

unfoldable pub strip_trailing_line : Text → Text
unfolding peel
strip_trailing_line s = peel 2 s

unfoldable pub strip_line_numbers : Text → Text
unfolding strip_trailing_line
strip_line_numbers location = elim (rsplit_context location) [
  | some (head, tail) ↦ strip_trailing_line head ++ tail
  | none ↦ strip_trailing_line location
]

-- The part of `normalize_location` before the line numbers are dropped.
unfoldable pub relative_location : Text → Text → Text
relative_location raw src_path =
    let normalized_src = trim_end_matches b'/' (replace_char 92 b'/' src_path) in
    let normalized = replace_char 92 b'/' raw in
    if not (is_empty normalized_src)
    then (elim (strip_prefix normalized normalized_src) [
      | some rest ↦ trim_start_matches b'/' rest
      | none ↦ normalized
    ])
    else normalized

unfoldable pub normalize_location : Option Text → Text → Text
unfolding relative_location strip_line_numbers
normalize_location none src_path = []
normalize_location (some raw) src_path = strip_line_numbers (relative_location raw src_path)

unfoldable pub signature_from_finding : Finding → Text → FindingSignature
signature_from_finding finding src_path = record {
  rule_id = classify_finding_rule finding;
  title = finding.title;
  location = normalize_location finding.location src_path;
  severity = display finding.severity;
}

-- `signatures.contains(s)`
unfoldable pub holds : List FindingSignature → FindingSignature → Bool
holds signatures s = any (signature_eq s) signatures

pub record WatchDiff : Type 0 where
  pub added : List FindingSignature
  pub removed : List FindingSignature

unfoldable pub diff_is_empty : WatchDiff → Bool
diff_is_empty d = is_empty d.added && is_empty d.removed

unfoldable pub diff_signatures : List FindingSignature → List FindingSignature → WatchDiff
diff_signatures previous current = record {
  added = retain (λ s. not (holds previous s)) current;
  removed = retain (λ s. not (holds current s)) previous;
}
