-- ===== src/Parity/Compare/Growth.antt =====
-- What a stretch of the loops of crates/parity/src/engine.rs adds to the findings.
mod Additions
pub use Additions.*
use solana_audit_toolkit.Prelude.{
  ℕ, suc, ◌+◌, ◌≤◌, ◌<◌, ◌≡◌, refl, sym, ap, ◌∙◌, Bool, ◌⊎◌, inl, inr, Option, none, some, List, [],
  ◌∷◌, ◌++◌, append-nil, append_assoc, Text, Result, ok, err, All, All-append, All-imp, arith,
  get_or_insert, or_else, first, Bool-cases, length,
}
use mathlib.Core.Option
use solana_audit_toolkit.Parity.Scenario.{Op, Invariant, invariant_name, Observables, differences}
use solana_audit_toolkit.Parity.Invariants.{check}
use solana_audit_toolkit.Parity.Model.{ProgramModel}
use solana_audit_toolkit.Parity.Engine.{
  Divergence, Violation, Findings, push_divergence, push_fields, record_step, record_violations,
  check_applied, push_result, push_moved, same_error,
}
use solana_audit_toolkit.Parity.Compare.{Run, compare_step, compare_loop}

pub push_fields-Extends :
    (i : ℕ) (op : Op) (changed : Text → Bool) (ds : List (Text × Text × Text)) (f : Findings)
    → Extends i (suc i) f (push_fields i op changed ds f)
unfolding push_fields
push_fields-Extends i op changed [] f = Extends-refl i (suc i) f
push_fields-Extends i op changed ((field, e, a) ∷ rest) f = elim (Bool-cases (changed field)) [
  | inl c ↦ rw c (
      Extends-then i (suc i)
        (Extends-push (record { op_index = i; op = op; field = field; expected = e; actual = a }) f)
        (push_fields-Extends i op changed rest _))
  | inr c ↦ rw c (push_fields-Extends i op changed rest f)
]

Extends-note :
    (i : ℕ) (model : Text) (inv : Invariant) (detail : Text) (f : Findings)
    → Extends i (suc i) f (record f {
      violations =
          f.violations
          ++ (record {
            op_index = i;
            model = model;
            invariant = invariant_name inv;
            detail = detail;
          }
              ∷ []);
    })
Extends-note i model inv detail f = record {
  added = [];
  grown = sym (append-nil _);
  placed = tt;
  led = or_else-none _;
  noted =
      record { op_index = i; model = model; invariant = invariant_name inv; detail = detail } ∷ [];
  recorded = refl;
  noted_in = omega arith;
}

Result-cases {ℓ κ} :
    {A : Type ℓ} {E : Type κ} (r : Result A E) → ((a : A) × (r ≡ ok a)) ⊎ ((e : E) × (r ≡ err e))
Result-cases (ok a) = inl (a, refl)
Result-cases (err e) = inr (e, refl)

violations-Extends :
    (i : ℕ) (invariants : List Invariant) (obs : Observables) (model : Text) (f : Findings)
    → Extends i
        (suc i)
        f
        (record f { violations = record_violations invariants obs model i f.violations })
unfolding record_violations
violations-Extends i [] obs model f = Extends-refl i (suc i) f
violations-Extends i (inv ∷ rest) obs model f = elim (Result-cases (check inv obs)) [
  | inl e ↦ rw (e.1) (violations-Extends i rest obs model f)
  | inr e ↦ rw (e.1) (
      Extends-then i (suc i) (Extends-note i model inv e.0 f)
        (violations-Extends i rest obs model _))
]

pub check_applied-Extends :
    (r : Result (Unit {0}) Text) (invariants : List Invariant) (obs : Observables) (model : Text)
    (i : ℕ) (f : Findings)
    → Extends i (suc i) f (check_applied r invariants obs model i f)
unfolding check_applied
check_applied-Extends (ok _) invariants obs model i f = violations-Extends i invariants obs model f
check_applied-Extends (err _) invariants obs model i f = Extends-refl i (suc i) f

pub push_result-Extends :
    (i : ℕ) (op : Op) (er ar : Result (Unit {0}) Text) (f : Findings)
    → Extends i (suc i) f (push_result i op er ar f)
unfolding push_result
push_result-Extends i op (ok _) (ok _) f = Extends-refl i (suc i) f
push_result-Extends i op (ok _) (err _) f = Extends-push _ f
push_result-Extends i op (err _) _ f = Extends-push _ f

pub push_moved-Extends :
    (i : ℕ) (op : Op) (pe pa oe oa : Observables) (f : Findings)
    → Extends i (suc i) f (push_moved i op pe pa oe oa f)
unfolding push_moved
push_moved-Extends i op pe pa oe oa f = push_fields-Extends i op _ (differences oe oa) f

pub record_step-Extends :
    (invariants : List Invariant) (i : ℕ) (op : Op) (er ar : Result (Unit {0}) Text) (en an : Text)
    (pe pa oe oa : Observables) (f : Findings)
    → Extends i (suc i) f (record_step invariants i op er ar en an pe pa oe oa f)
unfolding record_step
record_step-Extends invariants i op er ar en an pe pa oe oa f =
    Extends-then i (suc i) (check_applied-Extends er invariants oe en i f) (
      Extends-then i (suc i) (check_applied-Extends ar invariants oa an i _) (
        Extends-then i (suc i) (push_result-Extends i op er ar _)
          (push_moved-Extends i op pe pa oe oa _)))

module _ {E A : Type 0} (em : ProgramModel E) (am : ProgramModel A)
    (invariants : List Invariant) where
  pub compare_step-Extends :
      (i : ℕ) (op : Op) (run : Run E A)
      → Extends i (suc i) run.findings (compare_step em am invariants i op run).findings
  unfolding compare_step
  compare_step-Extends i op run =
      elim (Bool-cases (same_error (em.apply op run.expected).0 (am.apply op run.actual).0)) [
        | inl e ↦ rw e (Extends-agree i (suc i) run.findings)
        | inr e ↦ rw e (record_step-Extends invariants i op _ _ _ _ _ _ _ _ run.findings)
      ]

  -- A stretch of the loop adds findings of its own operations only, at the end.
  pub compare_loop-Extends :
      (i : ℕ) (ops : List Op) (run : Run E A)
      → Extends i (i + length ops) run.findings (compare_loop em am invariants i ops run).findings
  unfolding compare_loop
  compare_loop-Extends i [] run = Extends-refl i (i + 0) run.findings
  compare_loop-Extends i (op ∷ ops) run =
      Extends-trans i (suc i) (i + suc (length ops)) (omega arith) (omega arith)
        (compare_step-Extends i op run)
        (Extends-widen (suc i) (suc i + length ops) (suc i) (i + suc (length ops)) (omega arith)
          (omega arith) (compare_loop-Extends (suc i) ops (compare_step em am invariants i op run)))

  -- The loop over two stretches is the loop over the second, from where the first ends.
  pub compare_loop-append :
      (i : ℕ) (xs ys : List Op) (run : Run E A)
      → compare_loop em am invariants i (xs ++ ys) run
        ≡ compare_loop em am invariants (i + length xs) ys (compare_loop em am invariants i xs run)
  unfolding compare_loop
  compare_loop-append i [] ys run =
      ap (λ (n : ℕ). compare_loop em am invariants n ys run) (omega arith)
  compare_loop-append i (op ∷ xs) ys run =
      compare_loop-append (suc i) xs ys (compare_step em am invariants i op run)
      ∙ ap
          (λ (n : ℕ).
            compare_loop em am invariants n ys
              (compare_loop em am invariants (suc i) xs (compare_step em am invariants i op run)))
          (omega arith)
