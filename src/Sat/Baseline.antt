-- ===== src/Sat/Baseline.antt =====
-- crates/sat/src/baseline.rs: a snapshot of accepted findings, and the gate on new ones. The time
-- stamp, and reading and writing the file, are not modelled.
pub mod Gate
pub mod Offenses
use solana_audit_toolkit.Prelude.{Text, ℕ, ◌-◌, Bool, not, List, map, length, retain}
use solana_audit_toolkit.Sat.Types.{Finding}
use solana_audit_toolkit.Sat.Watch.{FindingSignature, signature_from_finding, holds}

pub record Baseline : Type 0 where
  pub signatures : List FindingSignature

unfoldable pub from_findings : List Finding → Text → Baseline
from_findings findings src_path = record {
  signatures = map (λ f. signature_from_finding f src_path) findings;
}

-- The findings that are left, and the number of those removed.
unfoldable pub retain_new : List Finding → Baseline → Text → List Finding × ℕ
retain_new findings baseline src_path =
    let kept =
      retain (λ f. not (holds baseline.signatures (signature_from_finding f src_path))) findings in
    (kept, length findings - length kept)
