-- ===== src/Parity/Model/Shares.antt =====
-- Share conservation of the lending model (crates/parity/src/model.rs).
use solana_audit_toolkit.Prelude.{◌≡◌, refl, List, [], ◌∷◌, arith, ok}
use solana_audit_toolkit.Parity.Scenario.{
  Op, deposit, withdraw, borrow, repay, accrue, set_price, Scenario, share_conservation,
}
use solana_audit_toolkit.Parity.Invariants.{check}
use solana_audit_toolkit.Parity.Model.{LendingModel, Rounding, apply, with_rounding, observe}

-- The state after a sequence of operations, failing ones included.
unfoldable pub run : List Op → LendingModel → LendingModel
run [] m = m
run (op ∷ ops) m = run ops (apply op m).1

abbrev pub IsConserved : LendingModel → Type 0
IsConserved m = m.user_shares ≡ m.total_shares

pub apply-IsConserved : (op : Op) (m : LendingModel) → IsConserved m → IsConserved (apply op m).1
unfolding apply
apply-IsConserved (deposit u a) m h = ground arith
apply-IsConserved (withdraw u a) m h = ground arith
apply-IsConserved (borrow u a) m h = ground arith
apply-IsConserved (repay u a) m h = ground arith
apply-IsConserved (accrue s) m h = ground arith
apply-IsConserved (set_price p) m h = ground arith

pub run-IsConserved : (ops : List Op) (m : LendingModel) → IsConserved m → IsConserved (run ops m)
unfolding run
run-IsConserved [] m h = h
run-IsConserved (op ∷ ops) m h = run-IsConserved ops (apply op m).1 (apply-IsConserved op m h)

-- However a lending model rounds and whatever operations it has run, wrapping sums included, its
-- observables pass the share conservation check.
pub run_passes_share_conservation :
    (s : Scenario) (w d : Rounding) (ops : List Op)
    → check share_conservation (observe (run ops (with_rounding s w d))) ≡ ok tt
unfolding check observe
run_passes_share_conservation s w d ops =
    ground (arith, run-IsConserved ops (with_rounding s w d) (unfold with_rounding in refl))
