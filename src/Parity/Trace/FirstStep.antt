-- ===== src/Parity/Trace/FirstStep.antt =====
-- `compare_with_trace` (crates/parity/src/engine.rs) at the first operation.
use solana_audit_toolkit.Prelude.{
  ℕ, suc, ◌≤◌, ◌≡◌, refl, sym, ap, ◌∙◌, Bool, false, not, ◌||◌, none, some, List, [], ◌∷◌, ◌++◌,
  Text, Result, ok, arith, All, All-append, All-imp, codes, text_eq, ◌==◌, Bool-cases, inl, inr,
}
use mathlib.Core.Path.{subst}
use solana_audit_toolkit.Parity.Scenario.{
  Op, Invariant, Scenario, Observables, Trace, TraceStep, differences, cmp_field,
}
use solana_audit_toolkit.Parity.Model.{ProgramModel}
use solana_audit_toolkit.Parity.Engine.{
  Divergence, same_error, no_findings, Findings, record_step, check_applied, push_result,
  push_moved, push_fields, field_changed, is_ok,
}
use solana_audit_toolkit.Parity.Compare.{effective_invariants}
use solana_audit_toolkit.Parity.Trace.{
  TraceRun, step_result, find_step, trace_step, trace_loop, trace_start, compare_with_trace,
}
use solana_audit_toolkit.Parity.Trace.Growth.{trace_loop-Extends}

-- A test of the fields that every listed difference fails.
push_fields_unmoved :
    (i : ℕ) (op : Op) (changed : Text → Bool) (ds : List (Text × Text × Text)) (f : Findings)
    → All (λ (d : Text × Text × Text). changed d.0 ≡ false) ds
    → push_fields i op changed ds f ≡ f
unfolding push_fields
push_fields_unmoved i op changed [] f h = refl
push_fields_unmoved i op changed ((field, e, a) ∷ rest) f (h, t) =
    rw (h, push_fields) (push_fields_unmoved i op changed rest f t)

still : (n m : ℕ) → (not (n == n) || not (m == m)) ≡ false
still n m = ground arith

cmp_field-All :
    (changed : Text → Bool) (name : Text) (a b : ℕ)
    → changed name ≡ false
    → All (λ (d : Text × Text × Text). changed d.0 ≡ false) (cmp_field name a b)
unfolding cmp_field
cmp_field-All changed name a b h = elim (Bool-cases (a == b)) [
  | inl e ↦ rw e tt
  | inr e ↦ rw e (h, tt)
]

-- Observables that have not moved have no changed field among those of `differences`.
unmoved :
    (oe oa : Observables)
    → All
        (λ (d : Text × Text × Text). (field_changed d.0 oe oe || field_changed d.0 oa oa) ≡ false)
        (differences oe oa)
unfolding differences field_changed text_eq
unmoved oe oa =
    let c = λ (field : Text). field_changed field oe oe || field_changed field oa oa in
    let P = λ (d : Text × Text × Text). c d.0 ≡ false in
    All-append P _ _
      (cmp_field-All c (codes "total_deposits") oe.total_deposits oa.total_deposits
        (still oe.total_deposits oa.total_deposits))
      (All-append P _ _
        (cmp_field-All c (codes "total_borrows") oe.total_borrows oa.total_borrows
          (still oe.total_borrows oa.total_borrows))
        (All-append P _ _
          (cmp_field-All c (codes "total_shares") oe.total_shares oa.total_shares
            (still oe.total_shares oa.total_shares))
          (All-append P _ _
            (cmp_field-All c (codes "vault_balance") oe.vault_balance oa.vault_balance
              (still oe.vault_balance oa.vault_balance))
            (All-append P _ _
              (cmp_field-All c (codes "user_shares") oe.user_shares oa.user_shares
                (still oe.user_shares oa.user_shares))
              (All-append P _ _
                (cmp_field-All c (codes "user_balance") oe.user_balance oa.user_balance
                  (still oe.user_balance oa.user_balance))
                (cmp_field-All c (codes "price") oe.price oa.price (still oe.price oa.price)))))))

record_step_unmoved :
    (invariants : List Invariant) (i : ℕ) (op : Op) (er ar : Result (Unit {0}) Text) (en an : Text)
    (pe pa oe oa : Observables) (f : Findings)
    → er ≡ ok tt
    → ar ≡ ok tt
    → pe ≡ oe
    → pa ≡ oa
    → (record_step invariants i op er ar en an pe pa oe oa f).divergences ≡ f.divergences
unfolding record_step check_applied push_result push_moved is_ok
record_step_unmoved invariants i op er ar en an pe pa oe oa f x y h k =
    rw (x, y, h, k)
      (ap (λ (g : Findings). g.divergences)
        (push_fields_unmoved i op _ (differences oe oa) _ (unmoved oe oa)))

find_first :
    (step : TraceStep) (rest steps : List TraceStep)
    → steps ≡ step ∷ rest
    → step.op_index ≡ 0
    → find_step steps 0 ≡ some step
unfolding find_step
find_first step rest steps h k = rw (h, k)

first_step_kept :
    {E : Type 0} (em : ProgramModel E) (invariants : List Invariant) (e : E) (t : Trace) (op : Op)
    (step : TraceStep) (rest : List TraceStep)
    → t.steps ≡ step ∷ rest
    → step.error ≡ none
    → (em.apply op e).0 ≡ ok tt
    → em.observe (em.apply op e).1 ≡ em.observe e
    → (trace_step em invariants t.model 0 op step (trace_start em t e)).findings.divergences ≡ []
unfolding trace_step trace_start step_result same_error
first_step_kept em invariants e t op step rest st er accepted same =
    rw (st, er, accepted)
      (record_step_unmoved invariants 0 op (ok tt) (ok tt) _ _ (em.observe e) step.observables
        (em.observe (em.apply op e).1) step.observables no_findings refl refl (sym same) refl)

loop_after_first :
    {E : Type 0} (em : ProgramModel E) (invariants : List Invariant) (t : Trace) (i : ℕ) (op : Op)
    (ops : List Op) (step : TraceStep) (run : TraceRun E)
    → find_step t.steps i ≡ some step
    → trace_loop em invariants t i (op ∷ ops) run
      ≡ trace_loop em invariants t (suc i) ops (trace_step em invariants t.model i op step run)
unfolding trace_loop
loop_after_first em invariants t i op ops step run h = rw (h, trace_loop)

-- Whatever the recorded program did at the first operation, `compare_with_trace` reports no
-- divergence there if both sides accept it and the reference model's observables do not move: the
-- recorded side is measured against its own first step.
pub first_step_masked :
    {E : Type 0} (em : ProgramModel E) (s : Scenario) (e : E) (t : Trace) (op : Op) (ops : List Op)
    (step : TraceStep) (rest : List TraceStep)
    → s.ops ≡ op ∷ ops
    → t.steps ≡ step ∷ rest
    → step.op_index ≡ 0
    → step.error ≡ none
    → (em.apply op e).0 ≡ ok tt
    → em.observe (em.apply op e).1 ≡ em.observe e
    → All (λ (d : Divergence). 1 ≤ d.op_index) (compare_with_trace em s e t).divergences
unfolding compare_with_trace
first_step_masked em s e t op ops step rest os st ix er accepted same =
    let invariants = effective_invariants s in
    let now = trace_step em invariants t.model 0 op step (trace_start em t e) in
    let x = trace_loop-Extends em invariants t 1 ops now in
    let kept = first_step_kept em invariants e t op step rest st er accepted same in
    let path =
      ap (λ l. trace_loop em invariants t 0 l (trace_start em t e)) os
      ∙ loop_after_first em invariants t 0 op ops step (trace_start em t e)
          (find_first step rest t.steps st ix) in
    subst (λ r. All (λ (d : Divergence). 1 ≤ d.op_index) r.findings.divergences) (sym path)
      (subst (All (λ (d : Divergence). 1 ≤ d.op_index))
        (sym (x.grown ∙ ap (λ ds. ds ++ x.added) kept)) (All-imp (λ d h. h.0) x.added x.placed))
