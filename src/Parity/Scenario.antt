-- ===== src/Parity/Scenario.antt =====
-- crates/parity/src/scenario.rs: the language that the differential engine speaks. The JSON forms
-- (`from_json`, `to_json`) are serde's and are not modelled.
use solana_audit_toolkit.Prelude.{
  Text, codes, decimal, ℕ, Bool, true, false, Option, List, [], ◌∷◌, ◌++◌, ◌==◌, if◌then◌else◌,
}

pub data Role : Type 0 where
  user reserve vault obligation oracle : Role

unfoldable pub is_user : Role → Bool
is_user user = true
is_user _ = false

pub record AccountSpec : Type 0 where
  pub role : Role
  pub name : Text
  pub initial : ℕ

pub data Op : Type 0 where
  deposit withdraw borrow repay : Text → ℕ → Op
  accrue set_price : ℕ → Op

pub data Invariant : Type 0 where
  solvency share_conservation vault_backing no_free_money deposit_monotonic : Invariant

unfoldable pub invariant_name : Invariant → Text
invariant_name solvency = codes "solvency"
invariant_name share_conservation = codes "share_conservation"
invariant_name vault_backing = codes "vault_backing"
invariant_name no_free_money = codes "no_free_money"
invariant_name deposit_monotonic = codes "deposit_monotonic"

pub record Config : Type 0 where
  pub price : ℕ
  pub rate_bps_per_second : ℕ

-- `Config::default()`
abbrev pub default_config : Config
default_config = record { price = 1; rate_bps_per_second = 0 }

pub record Scenario : Type 0 where
  pub name : Text
  pub description : Text
  pub config : Config
  pub accounts : List AccountSpec
  pub ops : List Op
  pub invariants : List Invariant

pub record Observables : Type 0 where
  pub total_deposits : ℕ
  pub total_borrows : ℕ
  pub total_shares : ℕ
  pub vault_balance : ℕ
  pub user_shares : ℕ
  pub user_balance : ℕ
  pub price : ℕ

-- `Observables::default()`
abbrev pub default_observables : Observables
default_observables = record {
  total_deposits = 0;
  total_borrows = 0;
  total_shares = 0;
  vault_balance = 0;
  user_shares = 0;
  user_balance = 0;
  price = 0;
}

-- The macro `cmp!` of `differences`, at one field.
unfoldable pub cmp_field : Text → ℕ → ℕ → List (Text × Text × Text)
cmp_field field a b = if a == b then [] else (field, decimal a, decimal b) ∷ []

unfoldable pub differences : Observables → Observables → List (Text × Text × Text)
differences a b =
    cmp_field (codes "total_deposits") a.total_deposits b.total_deposits
    ++ (cmp_field (codes "total_borrows") a.total_borrows b.total_borrows
        ++ (cmp_field (codes "total_shares") a.total_shares b.total_shares
            ++ (cmp_field (codes "vault_balance") a.vault_balance b.vault_balance
                ++ (cmp_field (codes "user_shares") a.user_shares b.user_shares
                    ++ (cmp_field (codes "user_balance") a.user_balance b.user_balance
                        ++ cmp_field (codes "price") a.price b.price)))))

pub record TraceStep : Type 0 where
  pub op_index : ℕ
  pub observables : Observables
  pub error : Option Text

pub record Trace : Type 0 where
  pub scenario : Text
  pub model : Text
  pub steps : List TraceStep
