-- ===== src/Parity/Engine.antt =====
-- crates/parity/src/engine.rs: run one scenario against two models and diff after every operation.
use solana_audit_toolkit.Prelude.{
  Text, codes, text_eq, debug_text, ℕ, ◌+◌, min, Bool, true, false, not, ◌&&◌, ◌||◌, Option, none,
  List, [], ◌∷◌, ◌++◌, Result, ok, err, ◌==◌, if◌then◌else◌, length, take, get_or_insert, or_else,
  unwrap_or, first, is_empty,
}
use mathlib.Core.Option
use solana_audit_toolkit.Parity.Scenario.{
  Op, Invariant, invariant_name, Scenario, Observables, differences,
}
use solana_audit_toolkit.Parity.Invariants.{check}

pub record Divergence : Type 0 where
  pub op_index : ℕ
  pub op : Op
  pub field : Text
  pub expected : Text
  pub actual : Text

pub record Violation : Type 0 where
  pub op_index : ℕ
  pub model : Text
  pub invariant : Text
  pub detail : Text

pub record ComparisonReport : Type 0 where
  pub scenario : Text
  pub expected_model : Text
  pub actual_model : Text
  pub first_divergence_op : Option ℕ
  pub divergences : List Divergence
  pub violations : List Violation
  pub agreed_errors : ℕ

unfoldable pub diverged : ComparisonReport → Bool
diverged r = not (is_empty r.divergences)

unfoldable pub violated : ComparisonReport → Bool
violated r = not (is_empty r.violations)

unfoldable pub is_clean : ComparisonReport → Bool
unfolding diverged violated
is_clean r = not (diverged r) && not (violated r)

-- The number of operations that `minimal_repro` keeps.
unfoldable pub repro_cut : ComparisonReport → Scenario → ℕ
repro_cut r scenario =
    unwrap_or
      (Option.map (λ i. i + 1)
        (or_else r.first_divergence_op
          (Option.map (λ (v : Violation). v.op_index) (first r.violations))))
      (length scenario.ops)

unfoldable pub minimal_repro : ComparisonReport → Scenario → Scenario
unfolding repro_cut
minimal_repro r scenario =
    let cut = repro_cut r scenario in
    record scenario {
      ops = take (min cut (length scenario.ops)) scenario.ops;
      name = scenario.name ++ codes "-minimal";
    }

unfoldable pub same_error : Result (Unit {0}) Text → Result (Unit {0}) Text → Bool
same_error (err x) (err y) = text_eq x y
same_error _ _ = false

unfoldable pub is_ok : Result (Unit {0}) Text → Bool
is_ok (ok _) = true
is_ok (err _) = false

-- `format!("{r:?}")` of a result.
unfoldable pub debug_result : Result (Unit {0}) Text → Text
debug_result (ok _) = codes "Ok(())"
debug_result (err e) = codes "Err(" ++ (debug_text e ++ codes ")")

unfoldable pub record_violations :
    List Invariant → Observables → Text → ℕ → List Violation → List Violation
record_violations [] obs model op_index out = out
record_violations (inv ∷ rest) obs model op_index out =
    record_violations rest obs model op_index (elim (check inv obs) [
      | ok _ ↦ out
      | err detail ↦
          out
          ++ (record {
            op_index = op_index;
            model = model;
            invariant = invariant_name inv;
            detail = detail;
          }
              ∷ [])
    ])

unfoldable pub field_changed : Text → Observables → Observables → Bool
field_changed field before after =
    if text_eq field (codes "total_deposits")
    then not (before.total_deposits == after.total_deposits)
    else if text_eq field (codes "total_borrows")
    then not (before.total_borrows == after.total_borrows)
    else if text_eq field (codes "total_shares")
    then not (before.total_shares == after.total_shares)
    else if text_eq field (codes "vault_balance")
    then not (before.vault_balance == after.vault_balance)
    else if text_eq field (codes "user_shares")
    then not (before.user_shares == after.user_shares)
    else if text_eq field (codes "user_balance")
    then not (before.user_balance == after.user_balance)
    else if text_eq field (codes "price")
    then not (before.price == after.price)
    else true

-- The variables of the loop of `compare` that the report is made of.
pub record Findings : Type 0 where
  pub divergences : List Divergence
  pub violations : List Violation
  pub agreed_errors : ℕ
  pub first_divergence_op : Option ℕ

abbrev pub no_findings : Findings
no_findings = record {
  divergences = [];
  violations = [];
  agreed_errors = 0;
  first_divergence_op = none;
}

-- `divergences.push(d)` with `first_divergence_op.get_or_insert(i)`.
unfoldable pub push_divergence : Divergence → Findings → Findings
push_divergence d f = record f {
  divergences = f.divergences ++ (d ∷ []);
  first_divergence_op = get_or_insert f.first_divergence_op d.op_index;
}

-- The loop over `differences`; `changed` is the test of its body.
unfoldable pub push_fields :
    ℕ → Op → (Text → Bool) → List (Text × Text × Text) → Findings → Findings
unfolding push_divergence
push_fields i op changed [] f = f
push_fields i op changed ((field, e, a) ∷ rest) f = push_fields i op changed rest (
    if changed field
    then push_divergence (record { op_index = i; op = op; field = field; expected = e; actual = a })
        f
    else f)

-- `if er.is_ok() { record_violations(...) }`
unfoldable pub check_applied :
    Result (Unit {0}) Text → List Invariant → Observables → Text → ℕ → Findings → Findings
check_applied (ok _) invariants obs model i f = record f {
  violations = record_violations invariants obs model i f.violations;
}
check_applied (err _) invariants obs model i f = f

-- `if er.is_err() || ar.is_err() { ... }`: one side rejects, or both with different errors.
unfoldable pub push_result :
    ℕ → Op → Result (Unit {0}) Text → Result (Unit {0}) Text → Findings → Findings
unfolding is_ok
push_result i op er ar f =
    if not (is_ok er) || not (is_ok ar)
    then push_divergence
        (record {
          op_index = i;
          op = op;
          field = codes "result";
          expected = debug_result er;
          actual = debug_result ar;
        })
        f
    else f

-- The loop over the fields that differ: those that changed on at least one side are pushed.
unfoldable pub push_moved :
    ℕ → Op → Observables → Observables → Observables → Observables → Findings → Findings
unfolding push_fields
push_moved i op prev_expected prev_actual obs_e obs_a =
    push_fields i op
      (λ field. field_changed field prev_expected obs_e || field_changed field prev_actual obs_a)
      (differences obs_e obs_a)

-- Everything that both loops record of one operation which the two sides did not reject alike:
-- violations of the side that applied it, a difference of the results, and the fields.
unfoldable pub record_step :
    List Invariant
    → ℕ
    → Op
    → Result (Unit {0}) Text
    → Result (Unit {0}) Text
    → Text
    → Text
    → Observables
    → Observables
    → Observables
    → Observables
    → Findings
    → Findings
record_step invariants i op er ar expected_name actual_name prev_expected prev_actual obs_e obs_a
      f =
    push_moved i op prev_expected prev_actual obs_e obs_a (
      push_result i op er ar (
        check_applied ar invariants obs_a actual_name i
          (check_applied er invariants obs_e expected_name i f)))
