-- ===== src/Sat/Idl/Reinit.antt =====
-- crates/sat/src/idl.rs: `check_reinitialization`.
use mathlib.Core.List.{flatten}
use solana_audit_toolkit.Prelude.{
  Text, codes, text_eq, to_lowercase, ltb, Bool, true, false, not, ◌&&◌, Option, none, some, List,
  [], ◌∷◌, ◌++◌, any, length, or_else, if◌then◌else◌,
}
use solana_audit_toolkit.Sat.Types.{Severity, Finding}
use solana_audit_toolkit.Sat.Idl.{
  StateInfo, InstructionInfo, InstructionAccountInfo, InstructionRole, initializer,
}
use solana_audit_toolkit.Sat.Idl.AccessCheck.{next_id}

unfoldable pub is_initializer : InstructionRole → Bool
is_initializer initializer = true
is_initializer _ = false

-- `state_map.get(name)`: of states with one name the last counts.
unfoldable pub state_named : List StateInfo → Text → Option StateInfo
state_named [] name = none
state_named (s ∷ ss) name =
    or_else (state_named ss name) (if text_eq s.name name then some s else none)

unfoldable pub is_state_pda : InstructionInfo → Text → Bool
unfolding to_lowercase
is_state_pda ix state_name =
    any
      (λ (a : InstructionAccountInfo).
        text_eq (to_lowercase a.name) (to_lowercase state_name) && a.is_pda)
      ix.target_accounts

unfoldable pub at_account : Text → Text → Text
at_account ix_name state_name =
    flatten (codes "Instruction: " ∷ ix_name ∷ codes " → Account: " ∷ state_name ∷ [])

unfoldable pub overwrite_finding : InstructionInfo → StateInfo → Text → Finding
unfolding at_account
overwrite_finding ix state id = record {
  id = id;
  title = flatten (
      codes "Reinitialization Risk: `"
      ∷ ix.name
      ∷ codes "` may overwrite existing `"
      ∷ state.name
      ∷ codes "`"
      ∷ []);
  severity = Severity.critical;
  description = flatten (
      codes "The instruction `"
      ∷ ix.name
      ∷ codes "` is classified as an initializer for `"
      ∷ state.name
      ∷ codes "`, but `"
      ∷ state.name
      ∷ codes "` has no `is_initialized` guard field."
      ∷ (if state.has_bump
          then codes
              " The presence of a bump field suggests PDA derivation, but without an explicit is_initialized flag or Anchor `init` constraint, the account discriminator check alone may be bypassed if a different program owns the account."
          else [])
      ∷ codes
          " If this instruction is called on an already-initialized account, it will overwrite the existing state — a critical vulnerability commonly exploited in reinitialization attacks."
      ∷ []);
  location = some (at_account ix.name state.name);
  suggestion = some (
      if state.has_bump
      then flatten (
          codes "Add an `is_initialized: bool` field to `"
          ∷ state.name
          ∷ codes
              "` and check it before writing. The bump field alone does not prevent reinitialization."
          ∷ [])
      else flatten (
          codes "Add an `is_initialized: bool` field to `"
          ∷ state.name
          ∷ codes
              "` and guard the initialize instruction with a requires!(!state.is_initialized). Alternatively, use Anchor's `#[account(init)]` constraint which enforces this automatically."
          ∷ []));
}

unfoldable pub weak_finding : InstructionInfo → StateInfo → Text → Finding
unfolding at_account
weak_finding ix state id = record {
  id = id;
  title = flatten (
      codes "Weak Initialization Guard: `"
      ∷ ix.name
      ∷ codes "` initializes `"
      ∷ state.name
      ∷ codes "` without signer or PDA constraint"
      ∷ []);
  severity = Severity.high;
  description = flatten (
      codes "The instruction `"
      ∷ ix.name
      ∷ codes "` initializes `"
      ∷ state.name
      ∷ codes
          "` which has an `is_initialized` flag, but the instruction lacks both a signer requirement and a PDA derivation. Without authorization, initializations cannot be properly gated."
      ∷ []);
  location = some (at_account ix.name state.name);
  suggestion = some (
      flatten (
        codes "Add `#[account(init, payer = authority, space = ...)]` to the `"
        ∷ state.name
        ∷ codes
            "` account in the `#[derive(Accounts)]` struct, or restrict initialization to an admin signer with `#[account(signer)]`."
        ∷ []));
}

-- What the body of the inner loop pushes for a state that the instruction writes, up to its id.
unfoldable pub reinit_of : InstructionInfo → StateInfo → Option (Text → Finding)
unfolding overwrite_finding weak_finding
reinit_of ix state =
    if not state.has_init_flag
    then (if state.has_status_enum && ltb (length state.status_variants) 2
        then none
        else some (overwrite_finding ix state))
    else if not ix.has_pda && not ix.has_signer
    then some (weak_finding ix state)
    else none

-- The body of the inner loop.
unfoldable pub check_write : List StateInfo → InstructionInfo → Text → List Finding → List Finding
unfolding state_named is_state_pda reinit_of next_id
check_write states ix state_name findings = elim (state_named states state_name) [
  | none ↦ findings
  | some state ↦ if is_state_pda ix state_name then findings else elim (reinit_of ix state) [
    | none ↦ findings
    | some finding ↦ findings ++ finding (next_id findings) ∷ []
  ]
]

unfoldable pub check_writes :
    List StateInfo → InstructionInfo → List Text → List Finding → List Finding
unfolding check_write
check_writes states ix [] findings = findings
check_writes states ix (s ∷ rest) findings =
    check_writes states ix rest (check_write states ix s findings)

unfoldable pub check_initializers :
    List StateInfo → List InstructionInfo → List Finding → List Finding
unfolding check_writes is_initializer
check_initializers states [] findings = findings
check_initializers states (ix ∷ rest) findings = check_initializers states rest (
    if is_initializer ix.role then check_writes states ix ix.writable_states findings else findings)

unfoldable pub check_reinitialization : List StateInfo → List InstructionInfo → List Finding
unfolding check_initializers
check_reinitialization states instructions = check_initializers states instructions []
