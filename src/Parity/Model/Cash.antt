-- ===== src/Parity/Model/Cash.antt =====
-- Where the lending model (crates/parity/src/model.rs) keeps or makes cash: the user's wallet and
-- the vault together.
use solana_audit_toolkit.Prelude.{ℕ, ◌+◌, ◌-◌, ◌<◌, ◌≡◌, min, arith, ok, u128_mod}
use solana_audit_toolkit.Parity.Scenario.{Op, deposit, withdraw, borrow, repay, accrue, set_price}
use solana_audit_toolkit.Parity.Model.{LendingModel, apply}

abbrev pub cash : LendingModel → ℕ
cash m = m.user_balance + m.vault_balance

-- Cash that an accepted operation makes: a withdrawal pays what the vault lacks, and a repayment
-- is credited beyond what the wallet holds.
abbrev pub created : Op → LendingModel → ℕ
created (withdraw u a) m = a - m.vault_balance
created (repay u a) m = min a m.total_borrows - m.user_balance
created _ m = 0

-- The sums that an operation forms on the wallet and the vault stay below 2 ^ 128.
pub record CashFits (m : LendingModel) (a : ℕ) : Type 0 where
  pub wallet : m.user_balance + a < u128_mod
  pub vault : m.vault_balance + a < u128_mod

abbrev pub amount_of : Op → ℕ
amount_of (deposit u a) = a
amount_of (withdraw u a) = a
amount_of (borrow u a) = a
amount_of (repay u a) = a
amount_of (accrue s) = 0
amount_of (set_price p) = 0

-- An accepted operation, where no sum on the wallet and the vault passes 2 ^ 128, changes the
-- cash by exactly what `created` says: nothing, but for a withdrawal of more than the vault holds
-- and a repayment of more than the wallet holds.
pub apply_cash :
    (op : Op) (m : LendingModel)
    → CashFits m (amount_of op)
    → (apply op m).0 ≡ ok tt
    → cash (apply op m).1 ≡ cash m + created op m
unfolding apply
apply_cash (deposit u a) m f accepted = ground arith
apply_cash (withdraw u a) m f accepted = ground arith
apply_cash (borrow u a) m f accepted = ground arith
apply_cash (repay u a) m f accepted = ground arith
apply_cash (accrue s) m f accepted = ground arith
apply_cash (set_price p) m f accepted = ground arith
