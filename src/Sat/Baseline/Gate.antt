-- ===== src/Sat/Baseline/Gate.antt =====
-- crates/sat/src/baseline.rs: which findings a baseline knows, told by the fields of two findings.
use mathlib.Core.List.{Memᴰ}
use solana_audit_toolkit.Sat.Rules.{classify_finding_rule}
use solana_audit_toolkit.Prelude.{
  sym, ◌∙◌, codes, text_eq, if◌then◌else◌, Bool-cases, inl, inr, false_ne_true, Text, ◌≡◌, Bool,
  true, false, List, [], ◌∷◌, All, refl, ap,
}
use solana_audit_toolkit.Sat.Types.{Finding, Severity, display}
use solana_audit_toolkit.Sat.Watch.{signature_from_finding, holds, signature_eq, normalize_location}
use solana_audit_toolkit.Sat.Watch.Diff.{signature_eq_iff}
use solana_audit_toolkit.Sat.Baseline.{Baseline, from_findings}

-- The baseline holds the finding's signature.
abbrev pub is_known : Baseline → Text → Finding → Bool
is_known b src f = holds b.signatures (signature_from_finding f src)

-- An accepted finding and one of the scan are the same issue: one rule, title and severity, and one place
-- when each is told from its own source path and without line numbers.
pub record SameIssue (accepted_src src : Text) (g f : Finding) : Type 0 where
  pub same_rule : classify_finding_rule g ≡ classify_finding_rule f
  pub same_title : g.title ≡ f.title
  pub same_place : normalize_location g.location accepted_src ≡ normalize_location f.location src
  pub same_severity : g.severity ≡ f.severity

severity_of : Text → Severity
severity_of s =
    if text_eq s (codes "CRITICAL")
    then Severity.critical
    else if text_eq s (codes "HIGH")
    then Severity.high
    else if text_eq s (codes "MEDIUM")
    then Severity.medium
    else if text_eq s (codes "LOW")
    then Severity.low
    else Severity.informational

severity_of-display : (s : Severity) → severity_of (display s) ≡ s
unfolding severity_of display text_eq
severity_of-display Severity.critical = refl
severity_of-display Severity.high = refl
severity_of-display Severity.medium = refl
severity_of-display Severity.low = refl
severity_of-display Severity.informational = refl

display_inj : (s t : Severity) → display s ≡ display t → s ≡ t
display_inj s t e = sym (severity_of-display s) ∙ (ap severity_of e ∙ severity_of-display t)

module _ (accepted_src src : Text) (f : Finding) where
  SameIssue-signature :
      (g : Finding)
      → SameIssue accepted_src src g f
      → signature_from_finding f src ≡ signature_from_finding g accepted_src
  unfolding signature_from_finding
  SameIssue-signature g h = λ i. record {
    rule_id = sym h.same_rule i;
    title = sym h.same_title i;
    location = sym h.same_place i;
    severity = display (sym h.same_severity i);
  }

  signature-SameIssue :
      (g : Finding)
      → signature_from_finding f src ≡ signature_from_finding g accepted_src
      → SameIssue accepted_src src g f
  unfolding signature_from_finding
  signature-SameIssue g e = record {
    same_rule = sym (ap (λ s. s.rule_id) e);
    same_title = sym (ap (λ s. s.title) e);
    same_place = sym (ap (λ s. s.location) e);
    same_severity = display_inj g.severity f.severity (sym (ap (λ s. s.severity) e));
  }

  pub known_accepted :
      (accepted : List Finding)
      → is_known (from_findings accepted accepted_src) src f ≡ true
      → (g : Finding) × Memᴰ g accepted × SameIssue accepted_src src g f
  unfolding from_findings holds
  known_accepted [] h = absurd (false_ne_true h)
  known_accepted (g ∷ gs) h =
      elim (Bool-cases
        (signature_eq (signature_from_finding f src) (signature_from_finding g accepted_src))) [
          | inl e ↦ (g, Memᴰ.head refl, signature-SameIssue g ((signature_eq_iff _ _).0 e))
          | inr e ↦ let (k, m, same) = known_accepted gs (rw (e) at h) in (k, Memᴰ.tail m, same)
        ]

  pub new_unaccepted :
      (accepted : List Finding)
      → is_known (from_findings accepted accepted_src) src f ≡ false
      → All (λ g. ¬ SameIssue accepted_src src g f) accepted
  unfolding from_findings holds
  new_unaccepted [] h = tt
  new_unaccepted (g ∷ gs) h =
      elim (Bool-cases
        (signature_eq (signature_from_finding f src) (signature_from_finding g accepted_src))) [
          | inl e ↦ absurd (false_ne_true (sym h ∙ rw (e) refl))
          | inr e ↦ (
            λ same. false_ne_true (sym e ∙ (signature_eq_iff _ _).1 (SameIssue-signature g same)),
            new_unaccepted gs (rw (e) at h),
          )
        ]
