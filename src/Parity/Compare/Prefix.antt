-- ===== src/Parity/Compare/Prefix.antt =====
-- `compare` of crates/parity/src/engine.rs on the first operations of a scenario.
use solana_audit_toolkit.Prelude.{
  ℕ, ◌+◌, ◌≤◌, ◌≡◌, sym, ap, ◌∙◌, List, ◌++◌, All, All-imp, arith, length, take, drop,
  take-append-drop, length-take,
}
use mathlib.Core.Path.{subst}
use solana_audit_toolkit.Parity.Scenario.{Op, Scenario}
use solana_audit_toolkit.Parity.Model.{ProgramModel}
use solana_audit_toolkit.Parity.Engine.{ComparisonReport, Divergence, Violation, no_findings}
use solana_audit_toolkit.Parity.Compare.{
  Run, compare, compare_loop, start, report_of, effective_invariants,
}
use solana_audit_toolkit.Parity.Compare.Growth.{
  DivergesIn, ViolatesIn, first_index, Extends, Extends-widen, compare_loop-Extends,
  compare_loop-append,
}

-- The scenario cut after its first `n` operations.
unfoldable pub prefix : ℕ → Scenario → Scenario
prefix n s = record s { ops = take n s.ops }

-- The report `full` is `part` with findings of operations from `n` on at the end; those of `part`
-- are of operations below `n`.
pub record ContinuesAt (n : ℕ) (part full : ComparisonReport) : Type 0 where
  pub later : List Divergence
  pub divergences_split : full.divergences ≡ part.divergences ++ later
  pub divergences_before : All (DivergesIn 0 n) part.divergences
  pub divergences_after : All (λ (d : Divergence). n ≤ d.op_index) later
  pub later_violations : List Violation
  pub violations_split : full.violations ≡ part.violations ++ later_violations
  pub violations_before : All (ViolatesIn 0 n) part.violations
  pub violations_after : All (λ (v : Violation). n ≤ v.op_index) later_violations

module _ {E A : Type 0} (em : ProgramModel E) (am : ProgramModel A) (s : Scenario) (e : E)
    (a : A) where
  loop_to : List Op → Run E A
  loop_to ops = compare_loop em am (effective_invariants s) 0 ops (start em am e a)

  from_start : (ops : List Op) → Extends 0 (length ops) no_findings (loop_to ops).findings
  unfolding loop_to start
  from_start ops =
      Extends-widen 0 (0 + length ops) 0 (length ops) (omega arith) (omega arith)
        (compare_loop-Extends em am (effective_invariants s) 0 ops (start em am e a))

  loop_to-append :
      (xs ys : List Op)
      → loop_to (xs ++ ys) ≡ compare_loop em am (effective_invariants s) (length xs) ys (loop_to xs)
  unfolding loop_to
  loop_to-append xs ys =
      compare_loop-append em am (effective_invariants s) 0 xs ys (start em am e a)
      ∙ ap (λ (n : ℕ). compare_loop em am (effective_invariants s) n ys (loop_to xs)) (omega arith)

  and_on :
      (xs ys : List Op)
      → Extends
          (length xs)
          (length xs + length ys)
          (loop_to xs).findings
          (loop_to (xs ++ ys)).findings
  and_on xs ys =
      rw loop_to-append
        (compare_loop-Extends em am (effective_invariants s) (length xs) ys (loop_to xs))

  -- The first divergent operation of a report is that of its first divergence.
  pub first_divergence_op_lem :
      (compare em am s e a).first_divergence_op ≡ first_index (compare em am s e a).divergences
  unfolding compare report_of loop_to
  first_divergence_op_lem = let x = from_start s.ops in x.led ∙ ap first_index (sym x.grown)

  -- Every divergence and every violation names an operation of the scenario.
  pub compare-placed :
      All (DivergesIn 0 (length s.ops)) (compare em am s e a).divergences
      × All (ViolatesIn 0 (length s.ops)) (compare em am s e a).violations
  unfolding compare report_of loop_to
  compare-placed =
      let x = from_start s.ops in
      (
        subst (All (DivergesIn 0 (length s.ops))) (sym x.grown) x.placed,
        subst (All (ViolatesIn 0 (length s.ops))) (sym x.recorded) x.noted_in,
      )

  -- For an `n` of at most the number of operations, the report on the first `n` operations is the
  -- beginning of the report on all of them: its divergences and violations are at operations
  -- below `n`, and those that follow are at operations from `n` on.
  pub compare-prefix :
      (n : ℕ)
      → n ≤ length s.ops
      → ContinuesAt n (compare em am (prefix n s) e a) (compare em am s e a)
  unfolding compare report_of loop_to prefix effective_invariants
  compare-prefix n h =
      let size : length (take n s.ops) ≡ n = length-take n s.ops h in
      let whole : loop_to (take n s.ops ++ drop n s.ops) ≡ loop_to s.ops =
        ap loop_to (take-append-drop n s.ops) in
      let x = from_start (take n s.ops) in
      let y =
        subst
          (λ r.
            Extends (length (take n s.ops)) (length (take n s.ops) + length (drop n s.ops))
              (loop_to (take n s.ops)).findings r.findings)
          whole (and_on (take n s.ops) (drop n s.ops)) in
      record {
        later = y.added;
        divergences_split = y.grown;
        divergences_before = subst (All (DivergesIn 0 n)) (sym x.grown) (rw size at x.placed);
        divergences_after = All-imp (λ d z. omega arith) y.added y.placed;
        later_violations = y.noted;
        violations_split = y.recorded;
        violations_before = subst (All (ViolatesIn 0 n)) (sym x.recorded) (rw size at x.noted_in);
        violations_after = All-imp (λ d z. omega arith) y.noted y.noted_in;
      }
