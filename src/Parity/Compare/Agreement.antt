-- ===== src/Parity/Compare/Agreement.antt =====
-- What a report of crates/parity/src/engine.rs without divergences means.
use solana_audit_toolkit.Prelude.{
  ℕ, suc, ◌+◌, ◌≡◌, refl, sym, ◌∙◌, true, ◌↔◌, ◌⊎◌, inl, inr, List, [], ◌∷◌, Text, Result, ok, err,
  arith, length, Bool-cases, text_eq_refl,
}
use solana_audit_toolkit.Parity.Scenario.{Op, Invariant, Scenario, Observables}
use solana_audit_toolkit.Parity.Model.{ProgramModel}
use solana_audit_toolkit.Parity.Engine.{
  Findings, same_error, is_ok, record_step, check_applied, push_result, push_moved, push_fields,
}
use solana_audit_toolkit.Parity.Compare.{
  Run, compare, compare_step, compare_loop, start, report_of, effective_invariants,
}
use solana_audit_toolkit.Parity.Compare.Growth.{push_moved-Extends, compare_loop-Extends}
use solana_audit_toolkit.Parity.Compare.Fields.{
  differences_self, Extends-nil, pushed_ne_nil, push_moved_nothing,
}

-- What the two sides show after an operation that they do not reject alike: both applied it, and
-- their observables are equal.
abbrev pub StepAgrees : {E A : Type 0} → ProgramModel E → ProgramModel A → Op → E → A → Type 0
StepAgrees em am op e a =
    (same_error (em.apply op e).0 (am.apply op a).0 ≡ true)
    ⊎ ((em.apply op e).0 ≡ ok tt)
      × ((am.apply op a).0 ≡ ok tt)
      × (em.observe (em.apply op e).1 ≡ am.observe (am.apply op a).1)

-- The two sides agree at every operation.
abbrev pub AllAgree : {E A : Type 0} → ProgramModel E → ProgramModel A → List Op → E → A → Type 0
AllAgree em am [] e a = Unit {0}
AllAgree em am (op ∷ ops) e a =
    StepAgrees em am op e a × AllAgree em am ops (em.apply op e).1 (am.apply op a).1

push_result_nothing :
    (i : ℕ) (op : Op) (er ar : Result (Unit {0}) Text) (f : Findings)
    → (push_result i op er ar f).divergences ≡ []
    → (er ≡ ok tt) × (ar ≡ ok tt)
unfolding push_result
push_result_nothing i op (ok _) (ok _) f h = (refl, refl)
push_result_nothing i op (ok _) (err y) f h = absurd (pushed_ne_nil _ f h)
push_result_nothing i op (err x) _ f h = absurd (pushed_ne_nil _ f h)

record_step_nothing :
    (invariants : List Invariant) (i : ℕ) (op : Op) (er ar : Result (Unit {0}) Text) (en an : Text)
    (p oe oa : Observables) (f : Findings)
    → (record_step invariants i op er ar en an p p oe oa f).divergences ≡ []
    → (er ≡ ok tt) × (ar ≡ ok tt) × (oe ≡ oa)
unfolding record_step
record_step_nothing invariants i op er ar en an p oe oa f h =
    let before = Extends-nil i (suc i) _ _ (push_moved-Extends i op p p oe oa _) h in
    let results = push_result_nothing i op er ar _ before in
    (results.0, results.1, push_moved_nothing i op p oe oa _ h)

module _ {E A : Type 0} (em : ProgramModel E) (am : ProgramModel A)
    (invariants : List Invariant) where
  -- A step that leaves no divergence agrees, and leaves equal observables behind.
  step_agrees :
      (i : ℕ) (op : Op) (run : Run E A)
      → run.prev_expected ≡ run.prev_actual
      → (compare_step em am invariants i op run).findings.divergences ≡ []
      → StepAgrees em am op run.expected run.actual
        × ((compare_step em am invariants i op run).prev_expected
            ≡ (compare_step em am invariants i op run).prev_actual)
  unfolding compare_step
  step_agrees i op run p h =
      elim (Bool-cases (same_error (em.apply op run.expected).0 (am.apply op run.actual).0)) [
        | inl e ↦ rw e (inl refl, p)
        | inr e ↦
            let q =
              record_step_nothing invariants i op _ _ _ _ run.prev_actual _ _ run.findings
                (rw (e, p) at h) in
            rw e (inr q, q.2)
      ]

  expected_after :
      (i : ℕ) (op : Op) (run : Run E A)
      → (compare_step em am invariants i op run).expected ≡ (em.apply op run.expected).1
  unfolding compare_step
  expected_after i op run = ground arith

  actual_after :
      (i : ℕ) (op : Op) (run : Run E A)
      → (compare_step em am invariants i op run).actual ≡ (am.apply op run.actual).1
  unfolding compare_step
  actual_after i op run = ground arith

  loop_agrees :
      (i : ℕ) (ops : List Op) (run : Run E A)
      → run.prev_expected ≡ run.prev_actual
      → (compare_loop em am invariants i ops run).findings.divergences ≡ []
      → AllAgree em am ops run.expected run.actual
  unfolding compare_loop
  loop_agrees i [] run p h = tt
  loop_agrees i (op ∷ ops) run p h =
      let next = compare_step em am invariants i op run in
      let rest = compare_loop-Extends em am invariants (suc i) ops next in
      let now = step_agrees i op run p (Extends-nil (suc i) (suc i + length ops) _ _ rest h) in
      let later = loop_agrees (suc i) ops next now.1 h in
      (now.0, rw (expected_after i op run, actual_after i op run) at later)

  same_results_kept :
      (i : ℕ) (op : Op) (er ar : Result (Unit {0}) Text) (en an : Text) (pe pa oe oa : Observables)
      (f : Findings)
      → er ≡ ok tt
      → ar ≡ ok tt
      → oe ≡ oa
      → (record_step invariants i op er ar en an pe pa oe oa f).divergences ≡ f.divergences
  unfolding record_step check_applied push_result push_moved push_fields is_ok
  same_results_kept i op er ar en an pe pa oe oa f x y z =
      rw (x, y, z, differences_self, push_fields)

  -- A step at which the sides agree leaves the divergences as they were.
  step_kept :
      (i : ℕ) (op : Op) (run : Run E A)
      → StepAgrees em am op run.expected run.actual
      → (compare_step em am invariants i op run).findings.divergences ≡ run.findings.divergences
  unfolding compare_step
  step_kept i op run (inl e) = rw e
  step_kept i op run (inr (x, y, z)) =
      elim (Bool-cases (same_error (em.apply op run.expected).0 (am.apply op run.actual).0)) [
        | inl e ↦ rw e
        | inr e ↦ rw e (same_results_kept i op _ _ _ _ _ _ _ _ run.findings x y z)
      ]

  loop_kept :
      (i : ℕ) (ops : List Op) (run : Run E A)
      → AllAgree em am ops run.expected run.actual
      → (compare_loop em am invariants i ops run).findings.divergences ≡ run.findings.divergences
  unfolding compare_loop
  loop_kept i [] run h = refl
  loop_kept i (op ∷ ops) run (now, later) =
      loop_kept (suc i) ops (compare_step em am invariants i op run)
        (rw (expected_after i op run, actual_after i op run) later)
      ∙ step_kept i op run now

-- For models that start with equal observables, the report has no divergence exactly if at every
-- operation both sides reject with the same error, or both apply it and end with equal observables.
pub no_divergence_iff :
    {E A : Type 0} (em : ProgramModel E) (am : ProgramModel A) (s : Scenario) (e : E) (a : A)
    → em.observe e ≡ am.observe a
    → ((compare em am s e a).divergences ≡ []) ↔ AllAgree em am s.ops e a
unfolding compare report_of start
no_divergence_iff em am s e a o = (
  λ h. loop_agrees em am (effective_invariants s) 0 s.ops (start em am e a) o h,
  λ h. loop_kept em am (effective_invariants s) 0 s.ops (start em am e a) h,
)

-- A relation that holds two models together: related states answer alike, stay related, and look
-- alike.
pub record IsSimulation {E A : Type 0} (em : ProgramModel E) (am : ProgramModel A)
    (R : E → A → Type 0) : Type 0 where
  pub same_result : (op : Op) (e : E) (a : A) → R e a → (em.apply op e).0 ≡ (am.apply op a).0
  pub kept : (op : Op) (e : E) (a : A) → R e a → R (em.apply op e).1 (am.apply op a).1
  pub same_view : (e : E) (a : A) → R e a → em.observe e ≡ am.observe a

same_result-StepAgrees :
    (er ar : Result (Unit {0}) Text) (oe oa : Observables)
    → er ≡ ar
    → oe ≡ oa
    → (same_error er ar ≡ true) ⊎ (er ≡ ok tt) × (ar ≡ ok tt) × (oe ≡ oa)
unfolding same_error
same_result-StepAgrees (ok x) ar oe oa h k = inr (refl, sym h, k)
same_result-StepAgrees (err x) ar oe oa h k = rw (← h) (inl (text_eq_refl x))

simulation-AllAgree :
    {E A : Type 0} (em : ProgramModel E) (am : ProgramModel A) (R : E → A → Type 0)
    → IsSimulation em am R
    → (ops : List Op) (e : E) (a : A) → R e a
    → AllAgree em am ops e a
simulation-AllAgree em am R sim [] e a h = tt
simulation-AllAgree em am R sim (op ∷ ops) e a h = (
  same_result-StepAgrees _ _ _ _ (sim.same_result op e a h) (sim.same_view _ _ (sim.kept op e a h)),
  simulation-AllAgree em am R sim ops _ _ (sim.kept op e a h),
)

-- Two models that start in states related by a simulation do not diverge on any scenario.
pub simulation_clean :
    {E A : Type 0} (em : ProgramModel E) (am : ProgramModel A) (R : E → A → Type 0)
    → IsSimulation em am R
    → (s : Scenario) (e : E) (a : A) → R e a
    → (compare em am s e a).divergences ≡ []
simulation_clean em am R sim s e a h =
    (no_divergence_iff em am s e a (sim.same_view e a h)).1
      (simulation-AllAgree em am R sim s.ops e a h)
