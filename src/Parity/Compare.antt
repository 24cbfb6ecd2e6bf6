-- ===== src/Parity/Compare.antt =====
-- crates/parity/src/engine.rs: `compare`, the loop over the operations of a scenario with two
-- models. A model that is run is a state, and the loop passes both states on.
pub mod Growth
pub mod Prefix
pub mod Repro
pub mod Fields
pub mod Agreement
use solana_audit_toolkit.Prelude.{
  ℕ, suc, ◌+◌, List, [], ◌∷◌, Text, if◌then◌else◌, is_empty, Bool, Result,
}
use solana_audit_toolkit.Parity.Scenario.{Op, Invariant, Scenario, Observables}
use solana_audit_toolkit.Parity.Invariants.{default_set}
use solana_audit_toolkit.Parity.Model.{ProgramModel}
use solana_audit_toolkit.Parity.Engine.{
  ComparisonReport, Findings, no_findings, same_error, record_step,
}

-- `scenario.invariants`, or the default set where that is empty.
unfoldable pub effective_invariants : Scenario → List Invariant
effective_invariants s = if is_empty s.invariants then default_set else s.invariants

-- The loop's variables: both models, the observables of the step before, and the findings.
pub record Run (E A : Type 0) : Type 0 where
  pub expected : E
  pub actual : A
  pub prev_expected : Observables
  pub prev_actual : Observables
  pub findings : Findings

module _ {E A : Type 0} (em : ProgramModel E) (am : ProgramModel A) where
  -- The loop's body.
  unfoldable pub compare_step : List Invariant → ℕ → Op → Run E A → Run E A
  compare_step invariants i op run =
      let (er, e) = em.apply op run.expected in
      let (ar, a) = am.apply op run.actual in
      if same_error er ar
      then record run {
        expected = e;
        actual = a;
        findings = record (run.findings) { agreed_errors = run.findings.agreed_errors + 1 };
      }
      else let obs_e = em.observe e in
        let obs_a = am.observe a in
        record {
          expected = e;
          actual = a;
          prev_expected = obs_e;
          prev_actual = obs_a;
          findings =
              record_step invariants i op er ar (em.name e) (am.name a) run.prev_expected
                run.prev_actual obs_e obs_a run.findings;
        }

  -- The loop, from operation `i` on.
  unfoldable pub compare_loop : List Invariant → ℕ → List Op → Run E A → Run E A
  compare_loop invariants i [] run = run
  compare_loop invariants i (op ∷ ops) run =
      compare_loop invariants (suc i) ops (compare_step invariants i op run)

  unfoldable pub start : E → A → Run E A
  start e a = record {
    expected = e;
    actual = a;
    prev_expected = em.observe e;
    prev_actual = am.observe a;
    findings = no_findings;
  }

  unfoldable pub report_of : Scenario → Run E A → ComparisonReport
  report_of scenario run = record {
    scenario = scenario.name;
    expected_model = em.name run.expected;
    actual_model = am.name run.actual;
    first_divergence_op = run.findings.first_divergence_op;
    divergences = run.findings.divergences;
    violations = run.findings.violations;
    agreed_errors = run.findings.agreed_errors;
  }

  unfoldable pub compare : Scenario → E → A → ComparisonReport
  unfolding compare_loop start report_of effective_invariants
  compare scenario e a =
      report_of scenario (compare_loop (effective_invariants scenario) 0 scenario.ops (start e a))
