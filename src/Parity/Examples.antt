-- ===== src/Parity/Examples.antt =====
-- Instances of the theorems on crates/parity, at the demo's scenario and small states.
use solana_audit_toolkit.Prelude.{
  ◌+◌, ◌*◌, ◌≤◌, ◌<◌, ◌≡◌, ◌↔◌, refl, List, [], ◌∷◌, codes, none, some, ok, All, arith, length,
  text_eq,
}
use solana_audit_toolkit.Parity.Scenario.{
  Op, deposit, withdraw, borrow, repay, Scenario, share_conservation, vault_backing, Trace,
  TraceStep, default_observables, differences, cmp_field,
}
use solana_audit_toolkit.Parity.Invariants.{check}
use solana_audit_toolkit.Parity.Model.{
  LendingModel, down, up, apply, observe, lending, with_rounding, named, div_round,
  shares_for_withdraw, shares_for_deposit, initial_balance,
}
use solana_audit_toolkit.Parity.Model.Division.{div_round-up}
use solana_audit_toolkit.Parity.Model.Shares.{run, run_passes_share_conservation}
use solana_audit_toolkit.Parity.Model.Price.{
  PriceAtLeast, IsReference, apply-PriceAtLeast, withdraw_down_lowers_price,
}
use solana_audit_toolkit.Parity.Model.Backing.{IsBacked, run_passes_vault_backing}
use solana_audit_toolkit.Parity.Model.Cash.{cash, apply_cash}
use solana_audit_toolkit.Parity.Engine.{
  Divergence, minimal_repro, record_step, same_error, push_moved, push_result, check_applied,
  record_violations, push_fields, push_divergence, field_changed, is_ok,
}
use solana_audit_toolkit.Parity.Compare.{compare, compare_step}
use solana_audit_toolkit.Parity.Compare.Prefix.{prefix, ContinuesAt, compare-prefix}
use solana_audit_toolkit.Parity.Compare.Repro.{first_violation, minimal_repro_lem}
use solana_audit_toolkit.Parity.Compare.Agreement.{
  AllAgree, StepAgrees, no_divergence_iff, simulation_clean,
}
use solana_audit_toolkit.Parity.Trace.{compare_with_trace}
use solana_audit_toolkit.Parity.Trace.FirstStep.{first_step_masked}
use solana_audit_toolkit.Parity.Candidates.{
  demo_scenario, burning, floor_burn_caught, AlikeButName, name_simulation,
}

abbrev expected_demo : LendingModel
expected_demo = with_rounding demo_scenario up down

abbrev actual_demo : LendingModel
actual_demo = with_rounding demo_scenario down down

-- The demo diverges at its withdrawal.
demo_diverges :
    (compare lending lending demo_scenario expected_demo actual_demo).first_divergence_op ≡ some 4
unfolding compare compare_step record_step same_error push_moved push_result check_applied
    push_fields push_divergence differences cmp_field field_changed text_eq apply observe
    with_rounding initial_balance shares_for_deposit shares_for_withdraw div_round is_ok
demo_diverges = refl

-- 1000 shares of 1050 deposits; 333 is not a whole number of shares.
abbrev pool : LendingModel
pool = record {
  name = codes "pool";
  config = record { price = 1; rate_bps_per_second = 0 };
  total_deposits = 1050;
  total_borrows = 550;
  total_shares = 1000;
  vault_balance = 500;
  user_shares = 1000;
  user_balance = 10;
  withdraw_rounding = up;
  deposit_rounding = down;
}

pool-IsReference : IsReference pool
pool-IsReference = record {
  burns_up = refl;
  mints_down = refl;
  outstanding = omega arith;
  covered = omega arith;
  shares_fit = omega arith;
  deposits_fit = omega arith;
}

floor_accepts : (apply (withdraw (codes "user") 333) (burning down pool)).0 ≡ ok tt
unfolding apply shares_for_withdraw div_round
floor_accepts = refl

minimal_repro_lem_example :
    let repro =
      minimal_repro
        (compare lending lending demo_scenario expected_demo actual_demo)
        demo_scenario in
    (length repro.ops ≡ 4 + 1)
    × ((compare lending lending repro expected_demo actual_demo).first_divergence_op ≡ some 4)
    × ((compare lending lending (prefix 3 repro) expected_demo actual_demo).divergences ≡ [])
minimal_repro_lem_example =
    minimal_repro_lem lending lending demo_scenario expected_demo actual_demo 4 3 demo_diverges
      (omega arith)

compare-prefix_example :
    ContinuesAt 2
      (compare lending lending (prefix 2 demo_scenario) expected_demo actual_demo)
      (compare lending lending demo_scenario expected_demo actual_demo)
compare-prefix_example =
    compare-prefix lending lending demo_scenario expected_demo actual_demo 2 (omega arith)

no_divergence_iff_example :
    ((compare lending lending demo_scenario expected_demo actual_demo).divergences ≡ [])
    ↔ AllAgree lending lending demo_scenario.ops expected_demo actual_demo
no_divergence_iff_example =
    no_divergence_iff lending lending demo_scenario expected_demo actual_demo same_start
  where
    same_start : observe expected_demo ≡ observe actual_demo
    same_start = unfold observe with_rounding in refl

simulation_clean_example :
    (compare lending lending demo_scenario
      (named expected_demo (codes "a"))
      (named expected_demo (codes "b"))).divergences
    ≡ []
simulation_clean_example =
    simulation_clean lending lending AlikeButName name_simulation demo_scenario
      (named expected_demo (codes "a")) (named expected_demo (codes "b")) (unfold named in refl)

apply-PriceAtLeast_example : PriceAtLeast pool (apply (withdraw (codes "user") 333) pool).1
apply-PriceAtLeast_example =
    apply-PriceAtLeast (withdraw (codes "user") 333) pool pool-IsReference (omega arith)

withdraw_down_lowers_price_example :
    (apply (withdraw (codes "user") 333) (burning down pool)).1.total_deposits * 1000
    < 1050 * (apply (withdraw (codes "user") 333) (burning down pool)).1.total_shares
withdraw_down_lowers_price_example =
    withdraw_down_lowers_price (codes "user") 333 (burning down pool) refl (omega arith)
      (omega arith) (omega arith) (omega arith) (omega arith) (omega arith) floor_accepts

floor_burn_caught_example :
    ¬ StepAgrees lending lending (withdraw (codes "user") 333) (burning up pool) (burning down pool)
floor_burn_caught_example =
    floor_burn_caught (codes "user") 333 pool (omega arith) (omega arith) (omega arith)
      (omega arith) (omega arith) (omega arith) floor_accepts

run_passes_share_conservation_example :
    check share_conservation (observe (run demo_scenario.ops (with_rounding demo_scenario down up)))
    ≡ ok tt
run_passes_share_conservation_example =
    run_passes_share_conservation demo_scenario down up demo_scenario.ops

abbrev two_ops : List Op
two_ops = borrow (codes "user") 100 ∷ repay (codes "user") 50 ∷ []

run_passes_vault_backing_example : check vault_backing (observe (run two_ops pool)) ≡ ok tt
unfolding run apply
run_passes_vault_backing_example =
    run_passes_vault_backing two_ops pool pool-IsBacked (omega arith, (omega arith, tt))
      (omega arith) (omega arith) (omega arith)
  where
    pool-IsBacked : IsBacked pool
    pool-IsBacked = record {
      covered = omega arith;
      deposits_fit = omega arith;
      borrows_fit = omega arith;
      vault_fits = omega arith;
    }

-- A repayment of 50 from a wallet of 10 credits the vault with 40 that nobody paid.
apply_cash_example : cash (apply (repay (codes "user") 50) pool).1 ≡ 510 + 40
unfolding apply
apply_cash_example =
    apply_cash (repay (codes "user") 50) pool (record { wallet = omega arith; vault = omega arith })
      refl

-- A recorded program whose vault is empty after an operation that the model answers by doing nothing.
abbrev idle : Scenario
idle = record demo_scenario { ops = repay (codes "user") 5 ∷ [] }

abbrev drained : TraceStep
drained = record { op_index = 0; observables = default_observables; error = none }

abbrev recording : Trace
recording = record { scenario = codes "idle"; model = codes "program"; steps = drained ∷ [] }

abbrev idle_pool : LendingModel
idle_pool = record pool { total_borrows = 0 }

first_step_masked_example :
    All
      (λ (d : Divergence). 1 ≤ d.op_index)
      (compare_with_trace lending idle idle_pool recording).divergences
unfolding apply observe
first_step_masked_example =
    first_step_masked lending idle idle_pool recording (repay (codes "user") 5) [] drained [] refl
      refl refl refl refl refl

-- A withdrawal beyond the vault leaves more borrows than deposits, on both sides alike.
abbrev overdrawn : Scenario
overdrawn = record demo_scenario {
  ops =
      deposit (codes "user") 1000
      ∷ borrow (codes "user") 500
      ∷ withdraw (codes "user") 900
      ∷ repay (codes "user") 1
      ∷ [];
}

overdrawn_agrees :
    (compare lending lending overdrawn expected_demo expected_demo).first_divergence_op ≡ none
unfolding compare compare_step record_step same_error push_moved push_result check_applied
    push_fields push_divergence differences cmp_field field_changed text_eq apply observe
    with_rounding initial_balance shares_for_deposit shares_for_withdraw div_round is_ok
overdrawn_agrees = refl

overdrawn_violates :
    first_violation (compare lending lending overdrawn expected_demo expected_demo).violations
    ≡ some 2
unfolding compare compare_step record_step same_error push_moved push_result check_applied
    push_fields push_divergence differences cmp_field field_changed text_eq apply observe
    with_rounding initial_balance shares_for_deposit shares_for_withdraw div_round is_ok check
    record_violations
overdrawn_violates = refl

div_round-up_example : (7 ≤ div_round 7 2 up * 2) × (div_round 7 2 up * 2 < 7 + 2)
div_round-up_example = div_round-up 7 2 (omega arith) (omega arith)
