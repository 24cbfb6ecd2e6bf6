-- ===== src/Parity/Candidates.antt =====
-- The candidates of the parity demo (crates/parity/src/main.rs) against the reference model: one
-- that rounds alike, and one that rounds burned shares down.
use solana_audit_toolkit.Prelude.{
  ℕ, ◌+◌, ◌-◌, ◌*◌, ◌%◌, ◌≤◌, ◌<◌, ◌≡◌, ◌≢◌, refl, sym, ap, ◌∙◌, [], ◌∷◌, Text, codes, Result, ok,
  err, arith, u128_mod, as_u64, inl, inr, true,
}
use solana_audit_toolkit.Parity.Scenario.{
  Op, deposit, withdraw, borrow, repay, accrue, set_price, Scenario, user, solvency,
  share_conservation, vault_backing, Observables,
}
use solana_audit_toolkit.Parity.Model.{
  LendingModel, Rounding, down, up, div_round, apply, observe, lending, named, with_rounding,
  shares_for_withdraw, shares_for_deposit,
}
use solana_audit_toolkit.Parity.Model.Division.{div_round_inexact}
use solana_audit_toolkit.Parity.Engine.{same_error}
use solana_audit_toolkit.Parity.Compare.{compare}
use solana_audit_toolkit.Parity.Compare.Agreement.{IsSimulation, simulation_clean, StepAgrees}

-- `demo_scenario`
abbrev pub demo_scenario : Scenario
demo_scenario = record {
  name = codes "lending-demo";
  description = codes "deposit, borrow, accrue interest, then a non-exact withdraw";
  config = record { price = 1; rate_bps_per_second = 1 };
  accounts = record { role = user; name = codes "user"; initial = 1000000 } ∷ [];
  ops =
      deposit (codes "user") 1000
      ∷ deposit (codes "user") 1000
      ∷ borrow (codes "user") 500
      ∷ accrue 1000
      ∷ withdraw (codes "user") 333
      ∷ [];
  invariants = solvency ∷ share_conservation ∷ vault_backing ∷ [];
}

-- Equal but for the name.
abbrev pub AlikeButName : LendingModel → LendingModel → Type 0
AlikeButName e a = named e [] ≡ named a []

apply-named :
    (op : Op) (m : LendingModel) (x : Text)
    → apply op (named m x) ≡ ((apply op m).0, named (apply op m).1 x)
unfolding apply named shares_for_deposit shares_for_withdraw
apply-named (deposit u a) m x = ground arith
apply-named (withdraw u a) m x = ground arith
apply-named (borrow u a) m x = ground arith
apply-named (repay u a) m x = refl
apply-named (accrue t) m x = refl
apply-named (set_price p) m x = refl

observe-named : (m : LendingModel) (x : Text) → observe (named m x) ≡ observe m
unfolding observe named
observe-named m x = refl

pub name_simulation : IsSimulation lending lending AlikeButName
name_simulation = record {
  same_result = λ op e a h.
      sym (ap (λ r. r.0) (apply-named op e []))
      ∙ ap (λ m. (apply op m).0) h
      ∙ ap (λ r. r.0) (apply-named op a []);
  kept = λ op e a h.
      sym (ap (λ r. r.1) (apply-named op e []))
      ∙ ap (λ m. (apply op m).1) h
      ∙ ap (λ r. r.1) (apply-named op a []);
  same_view = λ e a h. sym (observe-named e []) ∙ ap observe h ∙ observe-named a [];
}

-- A candidate that rounds like the model it is compared with never diverges from it, whatever the
-- scenario, the roundings and the names.
pub same_rounding_clean :
    (s : Scenario) (w d : Rounding) (x y : Text)
    → (compare lending lending s
        (named (with_rounding s w d) x)
        (named (with_rounding s w d) y)).divergences
      ≡ []
same_rounding_clean s w d x y =
    simulation_clean lending lending AlikeButName name_simulation s _ _ (unfold named in refl)

-- The model `m` with another rounding of burned shares.
abbrev pub burning : Rounding → LendingModel → LendingModel
burning r m = record m { withdraw_rounding = r }

burned_one_more :
    (m : LendingModel) (a : ℕ)
    → 0 < m.total_shares
    → 0 < m.total_deposits
    → a * m.total_shares < u128_mod
    → a * m.total_shares % m.total_deposits ≢ 0
    → shares_for_withdraw (burning up m) a ≡ shares_for_withdraw (burning down m) a + 1
unfolding shares_for_withdraw
burned_one_more m a p d f n =
    let q = div_round_inexact (a * m.total_shares) m.total_deposits d f n in
    unfold div_round in ground (arith, q)

same_error_ok : (r : Result (Unit {0}) Text) → same_error r (ok tt) ≢ true
unfolding same_error
same_error_ok (ok x) h = cc
same_error_ok (err x) h = cc

observed_shares :
    (u : Text) (a : ℕ) (m : LendingModel) (r : Rounding)
    → m.user_shares ≤ m.total_shares
    → m.total_shares < u128_mod
    → (apply (withdraw u a) (burning r m)).0 ≡ ok tt
    → (shares_for_withdraw (burning r m) a ≤ m.total_shares)
      × ((observe (apply (withdraw u a) (burning r m)).1).total_shares
          ≡ as_u64 (m.total_shares - shares_for_withdraw (burning r m) a))
unfolding apply observe
observed_shares u a m r c g h = ground arith

-- Rounding burned shares down is caught. In a pool that has deposits, whose shares cover the
-- user's and stay below 2 ^ 128, a withdrawal whose product with the shares stays below 2 ^ 128,
-- whose value is not a whole number of shares, and which a candidate that rounds burned shares
-- down accepts, is one at which the candidate does not agree with the model that rounds them up.
pub floor_burn_caught :
    (u : Text) (a : ℕ) (m : LendingModel)
    → 0 < m.total_shares
    → 0 < m.total_deposits
    → m.user_shares ≤ m.total_shares
    → m.total_shares < u128_mod
    → a * m.total_shares < u128_mod
    → a * m.total_shares % m.total_deposits ≢ 0
    → (apply (withdraw u a) (burning down m)).0 ≡ ok tt
    → ¬ StepAgrees lending lending (withdraw u a) (burning up m) (burning down m)
floor_burn_caught u a m p d c g f n accepted (inl e) = same_error_ok _ (rw accepted at e)
floor_burn_caught u a m p d c g f n accepted (inr (x, y, z)) =
    let t : (observe (apply (withdraw u a) (burning up m)).1).total_shares
        ≡ (observe (apply (withdraw u a) (burning down m)).1).total_shares =
      ap (λ (o : Observables). o.total_shares) z in
    let left = observed_shares u a m up c g x in
    let right = observed_shares u a m down c g y in
    let more = burned_one_more m a p d f n in omega arith
