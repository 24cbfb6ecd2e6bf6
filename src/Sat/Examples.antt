-- ===== src/Sat/Examples.antt =====
-- Instances of the theorems on crates/sat, at small findings.
use solana_audit_toolkit.Prelude.{
  ◌↔◌, true, is_empty, Text, codes, ◌+◌, ◌≡◌, refl, List, [], ◌∷◌, map, some, none, false, not, any,
  length, All, Perm, IsPairwise, starts_with, strip_prefix, rsplit_context, retain,
}
use solana_audit_toolkit.Sat.Types.{Severity, Finding}
use solana_audit_toolkit.Sat.Watch.{signature_eq, signature_from_finding}
use solana_audit_toolkit.Sat.Baseline.{from_findings, retain_new}
use solana_audit_toolkit.Sat.Baseline.Offenses.{Renewed, Offends, retain_new-Renewed}
use solana_audit_toolkit.Sat.Config.{Config, apply, fails}
use solana_audit_toolkit.Sat.Config.Outcome.{Applied, apply-Applied}
use solana_audit_toolkit.Sat.Hunt.{new_lead, build_leads}
use solana_audit_toolkit.Sat.Hunt.Ranking.{RanksBefore, build_leads_lem}
use solana_audit_toolkit.Sat.Calibrate.{CalibrationLabel, LabeledFinding, scan_repo}
use solana_audit_toolkit.Sat.Calibrate.Reviews.{LabelsFirst, has_signature, scan_repo-LabelsFirst}
use solana_audit_toolkit.Sat.Idl.{
  StateInfo, InstructionInfo, InstructionRole, graph_of, is_locked_out,
}
use solana_audit_toolkit.Sat.Idl.Graph.{status_never_locked}
use solana_audit_toolkit.Sat.Idl.AccessCheck.{check_access_control}
use solana_audit_toolkit.Sat.Idl.Places.{is_severe, places, instruction_place, account_place}
use solana_audit_toolkit.Sat.Idl.Access.{is_exposed, is_unconstrained, check_access_control_lem}

abbrev finding : Text → Severity → Text → Finding
finding title severity location = record {
  id = codes "SAT-001";
  title = title;
  severity = severity;
  description = [];
  location = some location;
  suggestion = none;
}

abbrev signer : Finding
signer =
    finding (codes "Missing Signer: `withdraw`") Severity.critical
      (codes "src/lib.rs:12 (withdraw)")

abbrev sums : Finding
sums = finding (codes "Unsafe Arithmetic: `fee`") Severity.low (codes "tests/fee.rs:3")

abbrev two_findings : List Finding
two_findings = signer ∷ sums ∷ []

abbrev config : Config
config = record {
  fail_on = some (codes "high");
  exclude = codes "tests/" ∷ [];
  disabled_rules = [];
  severity_overrides = (codes "SAT001", codes "medium") ∷ [];
}

retain_new-Renewed_example :
    Renewed
      (sums ∷ [])
      []
      []
      two_findings
      (retain_new two_findings (from_findings (sums ∷ []) []) []).0
    × (length (retain_new two_findings (from_findings (sums ∷ []) []) []).0
          + (retain_new two_findings (from_findings (sums ∷ []) []) []).1
        ≡ 2)
    × ((fails (retain_new two_findings (from_findings (sums ∷ []) []) []).0 Severity.high ≡ true)
        ↔ Offends (sums ∷ []) [] [] Severity.high two_findings)
retain_new-Renewed_example = retain_new-Renewed (sums ∷ []) two_findings [] [] Severity.high

apply-Applied_example : Applied config two_findings (apply config two_findings)
apply-Applied_example = apply-Applied config two_findings

context_found : rsplit_context (codes " (withdraw)") ≡ some ([], codes " (withdraw)")
unfolding rsplit_context starts_with strip_prefix
context_found = refl

build_leads_lem_example :
    IsPairwise RanksBefore (build_leads two_findings)
    × Perm (build_leads two_findings) (map new_lead two_findings)
build_leads_lem_example = build_leads_lem two_findings

-- A reviewer has rejected the second finding.
abbrev reviewed : LabeledFinding
reviewed = record { signature = signature_from_finding sums []; label = CalibrationLabel.fp }

scan_repo-LabelsFirst_example :
    All
      (λ e. e.label ≡ CalibrationLabel.fp)
      (retain
        (has_signature (signature_from_finding sums []))
        (scan_repo two_findings (reviewed ∷ []) []))
    × (any
          (has_signature (signature_from_finding sums []))
          (scan_repo two_findings (reviewed ∷ []) [])
        ≡ any
            (λ f. signature_eq (signature_from_finding f []) (signature_from_finding sums []))
            two_findings)
scan_repo-LabelsFirst_example =
    scan_repo-LabelsFirst two_findings (reviewed ∷ []) [] (signature_from_finding sums [])
      CalibrationLabel.fp (LabelsFirst.here reviewed [] refl refl)

abbrev auction : StateInfo
auction = record {
  name = codes "Auction";
  field_names = codes "status" ∷ [];
  has_init_flag = false;
  has_bump = false;
  has_authority = false;
  has_status_enum = true;
  status_field = some (codes "status");
  status_variants = codes "Open" ∷ codes "Settled" ∷ [];
}

abbrev settle : InstructionInfo
settle = record {
  name = codes "settle";
  role = InstructionRole.mutator;
  writable_states = codes "Auction" ∷ [];
  readable_states = [];
  has_signer = false;
  has_pda = false;
  target_accounts = [];
}

status_never_locked_example :
    is_locked_out (graph_of (settle ∷ []) auction) (codes "Settled") ≡ false
status_never_locked_example = status_never_locked (settle ∷ []) auction (codes "Settled") refl refl

check_access_control_lem_example :
    (is_empty (check_access_control (settle ∷ [])) ≡ not (any is_exposed (settle ∷ [])))
    × (places is_severe (check_access_control (settle ∷ []))
        ≡ map instruction_place (retain is_exposed (settle ∷ [])))
    × (places (λ s. not (is_severe s)) (check_access_control (settle ∷ []))
        ≡ map account_place (retain is_unconstrained (settle ∷ [])))
check_access_control_lem_example = check_access_control_lem (settle ∷ [])
