-- ===== src/Parity/Trace.antt =====
-- crates/parity/src/engine.rs: `compare_with_trace`, where the actual side is the recorded
-- execution of a real program.
pub mod Growth
pub mod FirstStep
use solana_audit_toolkit.Prelude.{
  Text, codes, ℕ, suc, ◌+◌, Bool, Option, none, some, List, [], ◌∷◌, Result, ok, err, ◌==◌,
  if◌then◌else◌, first, find, unwrap_or,
}
use mathlib.Core.Option
use solana_audit_toolkit.Parity.Scenario.{
  Op, Invariant, Scenario, Observables, default_observables, TraceStep, Trace,
}
use solana_audit_toolkit.Parity.Model.{ProgramModel}
use solana_audit_toolkit.Parity.Engine.{
  ComparisonReport, Findings, no_findings, same_error, debug_result, push_divergence, record_step,
}
use solana_audit_toolkit.Parity.Compare.{effective_invariants}

-- The result that a recorded step stands for.
unfoldable pub step_result : TraceStep → Result (Unit {0}) Text
step_result s = elim s.error [ some e ↦ err e | none ↦ ok tt ]

unfoldable pub find_step : List TraceStep → ℕ → Option TraceStep
find_step steps i = find (λ s. s.op_index == i) steps

pub record TraceRun (E : Type 0) : Type 0 where
  pub expected : E
  pub prev_expected : Observables
  pub prev_actual : Observables
  pub findings : Findings

module _ {E : Type 0} (em : ProgramModel E) where
  -- The loop's body once the step is found.
  unfoldable pub trace_step : List Invariant → Text → ℕ → Op → TraceStep → TraceRun E → TraceRun E
  trace_step invariants model i op step run =
      let (er, e) = em.apply op run.expected in
      let obs_e = em.observe e in
      let ar = step_result step in
      let obs_a = step.observables in
      record {
        expected = e;
        prev_expected = obs_e;
        prev_actual = obs_a;
        findings =
            if same_error er ar
            then record (run.findings) { agreed_errors = run.findings.agreed_errors + 1 }
            else record_step invariants i op er ar (em.name e) model run.prev_expected
                run.prev_actual obs_e obs_a run.findings;
      }

  -- The body where no step is recorded for the operation; the loop breaks.
  unfoldable pub missing_step : ℕ → Op → TraceRun E → TraceRun E
  missing_step i op run =
      let (er, e) = em.apply op run.expected in
      record run {
        expected = e;
        findings =
            push_divergence
              (record {
                op_index = i;
                op = op;
                field = codes "trace";
                expected = debug_result er;
                actual = codes "no step recorded";
              })
              run.findings;
      }

  unfoldable pub trace_loop : List Invariant → Trace → ℕ → List Op → TraceRun E → TraceRun E
  unfolding find_step
  trace_loop invariants trace i [] run = run
  trace_loop invariants trace i (op ∷ ops) run = elim (find_step trace.steps i) [
    | none ↦ missing_step i op run
    | some step ↦
        trace_loop invariants trace (suc i) ops (trace_step invariants trace.model i op step run)
  ]

  unfoldable pub trace_start : Trace → E → TraceRun E
  trace_start trace e = record {
    expected = e;
    prev_expected = em.observe e;
    prev_actual =
        unwrap_or (Option.map (λ (s : TraceStep). s.observables) (first trace.steps))
          default_observables;
    findings = no_findings;
  }

  unfoldable pub compare_with_trace : Scenario → E → Trace → ComparisonReport
  unfolding trace_loop trace_start effective_invariants
  compare_with_trace scenario e trace =
      let run =
        trace_loop (effective_invariants scenario) trace 0 scenario.ops (trace_start trace e) in
      record {
        scenario = scenario.name;
        expected_model = em.name run.expected;
        actual_model = trace.model;
        first_divergence_op = run.findings.first_divergence_op;
        divergences = run.findings.divergences;
        violations = run.findings.violations;
        agreed_errors = run.findings.agreed_errors;
      }
