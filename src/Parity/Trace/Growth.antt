-- ===== src/Parity/Trace/Growth.antt =====
-- What the loop of `compare_with_trace` (crates/parity/src/engine.rs) adds to the findings.
use solana_audit_toolkit.Prelude.{
  ℕ, suc, ◌+◌, ◌≡◌, sym, ap, ◌∙◌, List, [], ◌∷◌, Text, arith, All, length, Bool-cases, Option-cases,
  inl, inr,
}
use mathlib.Core.Path.{subst}
use solana_audit_toolkit.Parity.Scenario.{Op, Invariant, Scenario, Trace, TraceStep}
use solana_audit_toolkit.Parity.Model.{ProgramModel}
use solana_audit_toolkit.Parity.Engine.{same_error}
use solana_audit_toolkit.Parity.Compare.{effective_invariants}
use solana_audit_toolkit.Parity.Compare.Growth.{
  DivergesIn, first_index, Extends, Extends-refl, Extends-widen, Extends-trans, Extends-push,
  Extends-agree, record_step-Extends,
}
use solana_audit_toolkit.Parity.Trace.{
  TraceRun, step_result, find_step, trace_step, missing_step, trace_loop, trace_start,
  compare_with_trace,
}

module _ {E : Type 0} (em : ProgramModel E) (invariants : List Invariant) where
  pub trace_step-Extends :
      (model : Text) (i : ℕ) (op : Op) (step : TraceStep) (run : TraceRun E)
      → Extends i (suc i) run.findings (trace_step em invariants model i op step run).findings
  unfolding trace_step
  trace_step-Extends model i op step run =
      elim (Bool-cases (same_error (em.apply op run.expected).0 (step_result step))) [
        | inl e ↦ rw e (Extends-agree i (suc i) run.findings)
        | inr e ↦ rw e (record_step-Extends invariants i op _ _ _ _ _ _ _ _ run.findings)
      ]

  pub trace_loop-Extends :
      (trace : Trace) (i : ℕ) (ops : List Op) (run : TraceRun E)
      → Extends i (i + length ops) run.findings (trace_loop em invariants trace i ops run).findings
  unfolding trace_loop
  trace_loop-Extends trace i [] run = Extends-refl i (i + 0) run.findings
  trace_loop-Extends trace i (op ∷ ops) run = elim (Option-cases (find_step trace.steps i)) [
    | inl e ↦
        rw (e, trace_loop)
          (Extends-widen i (suc i) i (i + suc (length ops)) (omega arith) (omega arith)
            (unfold missing_step in Extends-push _ run.findings))
    | inr f ↦
        rw (f.1, trace_loop)
          (Extends-trans i (suc i) (i + suc (length ops)) (omega arith) (omega arith)
            (trace_step-Extends trace.model i op f.0 run)
            (Extends-widen (suc i) (suc i + length ops) (suc i) (i + suc (length ops)) (omega arith)
              (omega arith) (trace_loop-Extends trace (suc i) ops _)))
  ]

-- The first divergent operation of a report on a trace is that of its first divergence, and every
-- divergence names an operation of the scenario.
pub compare_with_trace-placed :
    {E : Type 0} (em : ProgramModel E) (s : Scenario) (e : E) (t : Trace)
    → ((compare_with_trace em s e t).first_divergence_op
        ≡ first_index (compare_with_trace em s e t).divergences)
      × All (DivergesIn 0 (0 + length s.ops)) (compare_with_trace em s e t).divergences
unfolding compare_with_trace trace_start
compare_with_trace-placed em s e t =
    let x = trace_loop-Extends em (effective_invariants s) t 0 s.ops (trace_start em t e) in
    (
      x.led ∙ ap first_index (sym x.grown),
      subst (All (DivergesIn 0 (0 + length s.ops))) (sym x.grown) x.placed,
    )
