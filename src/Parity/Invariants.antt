-- ===== src/Parity/Invariants.antt =====
-- crates/parity/src/invariants.rs: the economic invariants, checked on observable state.
use solana_audit_toolkit.Prelude.{
  Text, codes, decimal, List, [], ◌∷◌, ◌++◌, Result, ok, err, not, ltb, ◌==◌, if◌then◌else◌,
  saturating_add_u64,
}
use solana_audit_toolkit.Parity.Scenario.{
  Invariant, solvency, share_conservation, vault_backing, no_free_money, deposit_monotonic,
  Observables,
}

unfoldable pub check : Invariant → Observables → Result (Unit {0}) Text
check solvency obs =
    if ltb obs.total_deposits obs.total_borrows
    then err (
        codes "insolvent: total_deposits="
        ++ (decimal obs.total_deposits ++ (codes " < total_borrows=" ++ decimal obs.total_borrows)))
    else ok tt
check share_conservation obs =
    if not (obs.user_shares == obs.total_shares)
    then err (
        codes "shares not conserved: user_shares="
        ++ (decimal obs.user_shares ++ (codes " != total_shares=" ++ decimal obs.total_shares)))
    else ok tt
check vault_backing obs =
    let backed = saturating_add_u64 obs.vault_balance obs.total_borrows in
    if ltb backed obs.total_deposits
    then err (
        codes "vault underbacked: vault="
        ++ (decimal obs.vault_balance
            ++ (codes " + borrows="
                ++ (decimal obs.total_borrows
                    ++ (codes " < deposits=" ++ decimal obs.total_deposits)))))
    else ok tt
check deposit_monotonic obs = ok tt
check no_free_money obs = ok tt

-- What the engine checks when a scenario names no invariant.
abbrev pub default_set : List Invariant
default_set = solvency ∷ share_conservation ∷ vault_backing ∷ []
