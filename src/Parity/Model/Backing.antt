-- ===== src/Parity/Model/Backing.antt =====
-- Vault backing of the lending model (crates/parity/src/model.rs): the vault and what is lent out
-- cover the accounted deposits.
use solana_audit_toolkit.Prelude.{◌+◌, ◌≤◌, ◌<◌, ◌≡◌, List, [], ◌∷◌, arith, ok, u128_mod, u64_mod}
use solana_audit_toolkit.Parity.Scenario.{
  Op, deposit, withdraw, borrow, repay, accrue, set_price, vault_backing,
}
use solana_audit_toolkit.Parity.Invariants.{check}
use solana_audit_toolkit.Parity.Model.{LendingModel, apply, observe}
use solana_audit_toolkit.Parity.Model.Shares.{run}

-- The sums that an operation forms stay below 2 ^ 128.
abbrev pub SumsFit : Op → LendingModel → Type 0
SumsFit (deposit u a) m = m.vault_balance + a < u128_mod
SumsFit (borrow u a) m = m.total_borrows + a < u128_mod
SumsFit (repay u a) m = m.vault_balance + a < u128_mod
SumsFit _ m = Unit {0}

abbrev pub RunFits : List Op → LendingModel → Type 0
RunFits [] m = Unit {0}
RunFits (op ∷ ops) m = SumsFit op m × RunFits ops (apply op m).1

-- The deposits are covered, and all three quantities are machine integers.
pub record IsBacked (m : LendingModel) : Type 0 where
  pub covered : m.total_deposits ≤ m.vault_balance + m.total_borrows
  pub deposits_fit : m.total_deposits < u128_mod
  pub borrows_fit : m.total_borrows < u128_mod
  pub vault_fits : m.vault_balance < u128_mod

pub apply-IsBacked :
    (op : Op) (m : LendingModel) → IsBacked m → SumsFit op m → IsBacked (apply op m).1
unfolding apply
apply-IsBacked (deposit u a) m h f = ground arith
apply-IsBacked (withdraw u a) m h f = ground arith
apply-IsBacked (borrow u a) m h f = ground arith
apply-IsBacked (repay u a) m h f = ground arith
apply-IsBacked (accrue s) m h f = ground arith
apply-IsBacked (set_price p) m h f = ground arith

run-IsBacked :
    (ops : List Op) (m : LendingModel) → IsBacked m → RunFits ops m → IsBacked (run ops m)
unfolding run
run-IsBacked [] m h f = h
run-IsBacked (op ∷ ops) m h f = run-IsBacked ops (apply op m).1 (apply-IsBacked op m h f.0) f.1

-- A backed model whose sums fit passes the vault backing check after any operations, if the
-- quantities that the check reads are below 2 ^ 64 then.
pub run_passes_vault_backing :
    (ops : List Op) (m : LendingModel)
    → IsBacked m
    → RunFits ops m
    → (run ops m).total_deposits < u64_mod
    → (run ops m).total_borrows < u64_mod
    → (run ops m).vault_balance < u64_mod
    → check vault_backing (observe (run ops m)) ≡ ok tt
unfolding check observe
run_passes_vault_backing ops m h f d b v = ground (arith, run-IsBacked ops m h f)
