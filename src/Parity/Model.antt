-- ===== src/Parity/Model.antt =====
-- crates/parity/src/model.rs: the trait `ProgramModel`, the rounding of share divisions and the
-- lending-pool reference model. `&mut self` is state passing: `apply` returns the new state too.
pub mod Division
pub mod Shares
pub mod Price
pub mod Backing
pub mod Cash
use solana_audit_toolkit.Prelude.{
  Text, codes, ℕ, ◌*◌, ◌/◌, ◌%◌, ◌+◌, min, Bool, true, false, ◌||◌, List, [], ◌∷◌, Result, ok, err,
  ltb, ◌==◌, if◌then◌else◌, as_u64, add_u128, sub_u128, mul_u128, saturating_sub,
  saturating_add_u128, saturating_mul_u128,
}
use solana_audit_toolkit.Parity.Scenario.{
  Op, deposit, withdraw, borrow, repay, accrue, set_price, Config, Scenario, Observables,
  AccountSpec, is_user,
}

-- The trait, for implementations with states in `S`.
pub record ProgramModel (S : Type 0) : Type 0 where
  pub name : S → Text
  pub apply : Op → S → Result (Unit {0}) Text × S
  pub observe : S → Observables

pub data Rounding : Type 0 where
  down up : Rounding

unfoldable pub div_round : ℕ → ℕ → Rounding → ℕ
div_round numerator denominator rounding =
    if denominator == 0
    then 0
    else let q = numerator / denominator in
      let r = numerator % denominator in
      elim rounding [ down ↦ q | up ↦ add_u128 q (if r == 0 then 0 else 1) ]

pub record LendingModel : Type 0 where
  pub name : Text
  pub config : Config
  pub total_deposits : ℕ
  pub total_borrows : ℕ
  pub total_shares : ℕ
  pub vault_balance : ℕ
  pub user_shares : ℕ
  pub user_balance : ℕ
  pub withdraw_rounding : Rounding
  pub deposit_rounding : Rounding

-- The loop over the accounts of a scenario: the last user's balance wins.
unfoldable pub initial_balance : List AccountSpec → ℕ → ℕ
unfolding is_user
initial_balance [] balance = balance
initial_balance (acc ∷ rest) balance =
    initial_balance rest (if is_user acc.role then acc.initial else balance)

unfoldable pub with_rounding : Scenario → Rounding → Rounding → LendingModel
unfolding initial_balance
with_rounding scenario withdraw_rounding deposit_rounding = record {
  name = codes "lending-model";
  config = scenario.config;
  total_deposits = 0;
  total_borrows = 0;
  total_shares = 0;
  vault_balance = 0;
  user_shares = 0;
  user_balance = initial_balance scenario.accounts 0;
  withdraw_rounding = withdraw_rounding;
  deposit_rounding = deposit_rounding;
}

unfoldable pub reference : Scenario → LendingModel
unfolding with_rounding
reference scenario = with_rounding scenario up down

unfoldable pub named : LendingModel → Text → LendingModel
named m name = record m { name = name }

unfoldable pub shares_for_deposit : LendingModel → ℕ → ℕ
shares_for_deposit m amount =
    if m.total_shares == 0 || m.total_deposits == 0
    then amount
    else div_round (mul_u128 amount m.total_shares) m.total_deposits m.deposit_rounding

unfoldable pub shares_for_withdraw : LendingModel → ℕ → ℕ
shares_for_withdraw m amount =
    if m.total_shares == 0 || m.total_deposits == 0
    then amount
    else div_round (mul_u128 amount m.total_shares) m.total_deposits m.withdraw_rounding

unfoldable pub apply : Op → LendingModel → Result (Unit {0}) Text × LendingModel
apply (deposit user amount) m =
    if ltb m.user_balance amount
    then (err (codes "insufficient balance"), m)
    else let shares = shares_for_deposit m amount in
      (
        ok tt,
        record m {
          user_balance = sub_u128 m.user_balance amount;
          user_shares = add_u128 m.user_shares shares;
          total_shares = add_u128 m.total_shares shares;
          total_deposits = add_u128 m.total_deposits amount;
          vault_balance = add_u128 m.vault_balance amount;
        },
      )
apply (withdraw user amount) m =
    let shares = shares_for_withdraw m amount in
    if ltb m.user_shares shares then (err (codes "insufficient shares"), m) else (
      ok tt,
      record m {
        user_shares = sub_u128 m.user_shares shares;
        total_shares = sub_u128 m.total_shares shares;
        total_deposits = saturating_sub m.total_deposits amount;
        vault_balance = saturating_sub m.vault_balance amount;
        user_balance = add_u128 m.user_balance amount;
      },
    )
apply (borrow user amount) m =
    if ltb m.vault_balance amount then (err (codes "insufficient liquidity"), m) else (
      ok tt,
      record m {
        total_borrows = add_u128 m.total_borrows amount;
        vault_balance = sub_u128 m.vault_balance amount;
        user_balance = add_u128 m.user_balance amount;
      },
    )
apply (repay user amount) m =
    let paid = min amount m.total_borrows in
    (
      ok tt,
      record m {
        total_borrows = sub_u128 m.total_borrows paid;
        vault_balance = add_u128 m.vault_balance paid;
        user_balance = saturating_sub m.user_balance paid;
      },
    )
apply (accrue seconds) m =
    let interest =
      saturating_mul_u128 (saturating_mul_u128 m.total_borrows m.config.rate_bps_per_second) seconds
      / 10000 in
    (
      ok tt,
      record m {
        total_deposits = saturating_add_u128 m.total_deposits interest;
        total_borrows = saturating_add_u128 m.total_borrows interest;
      },
    )
apply (set_price price) m = (ok tt, record m { config = record (m.config) { price = price } })

unfoldable pub observe : LendingModel → Observables
observe m = record {
  total_deposits = as_u64 m.total_deposits;
  total_borrows = as_u64 m.total_borrows;
  total_shares = as_u64 m.total_shares;
  vault_balance = as_u64 m.vault_balance;
  user_shares = as_u64 m.user_shares;
  user_balance = as_u64 m.user_balance;
  price = m.config.price;
}

-- `impl ProgramModel for LendingModel`
abbrev pub lending : ProgramModel LendingModel
lending = record { name = λ m. m.name; apply = apply; observe = observe }
