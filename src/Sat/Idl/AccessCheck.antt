-- ===== src/Sat/Idl/AccessCheck.antt =====
-- crates/sat/src/idl.rs: the access control check.
use solana_audit_toolkit.Prelude.{
  Text, codes, ℕ, ◌==◌, Bool, true, false, not, ◌&&◌, ◌||◌, some, List, [], ◌∷◌, ◌++◌, any,
  is_empty, first, unwrap_or, length, if◌then◌else◌, ltb, decimal, ◌+◌,
}
use solana_audit_toolkit.Sat.Types.{Severity, Finding}
use solana_audit_toolkit.Sat.Idl.{
  InstructionRole, initializer, mutator, terminator, read_only, InstructionInfo,
  InstructionAccountInfo,
}

-- `{:03}`
unfoldable pub pad3 : ℕ → Text
pad3 n =
    if ltb n 10
    then codes "00" ++ decimal n
    else if ltb n 100
    then codes "0" ++ decimal n
    else decimal n

-- The id of the next finding.
unfoldable pub next_id : List Finding → Text
unfolding pad3
next_id findings = codes "SAT-IDL-" ++ pad3 (length findings + 1)

-- `join(", ")`
unfoldable pub join : List Text → Text
join [] = []
join (x ∷ []) = x
join (x ∷ y ∷ ys) = x ++ (codes ", " ++ join (y ∷ ys))

unfoldable pub is_read_only : InstructionRole → Bool
is_read_only read_only = true
is_read_only _ = false

unfoldable pub is_terminator : InstructionRole → Bool
is_terminator terminator = true
is_terminator _ = false

unfoldable pub is_mutator : InstructionRole → Bool
is_mutator mutator = true
is_mutator _ = false

-- The last arm is unreachable in the source.
unfoldable pub role_label : InstructionRole → Text
role_label initializer = codes "initializes"
role_label mutator = codes "modifies"
role_label terminator = codes "terminates"
role_label read_only = []

unfoldable pub missing_access : InstructionInfo → Text → Finding
unfolding role_label join is_terminator
missing_access ix id = record {
  id = id;
  title =
      codes "Missing Access Control: `"
      ++ (ix.name
          ++ (codes "` " ++ (role_label ix.role ++ codes " state without signer authorization")));
  severity = if is_terminator ix.role then Severity.critical else Severity.high;
  description =
      codes "The instruction `"
      ++ (ix.name
          ++ (codes "` "
              ++ (role_label ix.role
                  ++ (codes " state accounts ("
                      ++ (join ix.writable_states
                          ++ (codes
                                ") but has no signer requirement. Without a signer, any caller can invoke this instruction — potentially allowing unauthorized state modification, fund theft, "
                              ++ ((if is_terminator ix.role
                                    then codes "or denial-of-service via premature account closure"
                                    else codes "or privilege escalation")
                                  ++ codes ".")))))));
  location = some (codes "Instruction: " ++ ix.name);
  suggestion = some (
      codes "Add a signer requirement. In the `#[derive(Accounts)]` struct for `"
      ++ (ix.name
          ++ codes
              "`, ensure at least one account has `#[account(signer)]` or `Signer` type, representing the authorized caller."));
}

unfoldable pub unconstrained_writable : InstructionInfo → Text → Text → Finding
unconstrained_writable ix state id = record {
  id = id;
  title =
      codes "Unconstrained Writable: `"
      ++ (ix.name ++ (codes "` writes to `" ++ (state ++ codes "` without PDA or signer gate")));
  severity = Severity.medium;
  description =
      codes "The instruction `"
      ++ (ix.name
          ++ (codes "` writes to `"
              ++ (state
                  ++ codes
                      "` without requiring either a signer or PDA derivation. This state can potentially be modified by anyone who can construct a valid instruction call.")));
  location = some (codes "Instruction: " ++ (ix.name ++ (codes " → Account: " ++ state)));
  suggestion = some (
      codes
        "Consider requiring the state account to be a PDA derived from authorized seeds, or add a signer-based ownership check.");
}

unfoldable pub has_pda_target : InstructionInfo → Bool
has_pda_target ix = any (λ (a : InstructionAccountInfo). a.is_pda) ix.target_accounts

-- What the body of the loop pushes for one instruction that is neither read-only nor without
-- writable states.
unfoldable pub push_access : InstructionInfo → List Finding → List Finding
unfolding missing_access unconstrained_writable has_pda_target is_mutator is_terminator next_id
push_access ix findings =
    let reported =
      if not ix.has_signer
      then findings ++ (missing_access ix (next_id findings) ∷ [])
      else findings in
    if not ix.has_signer
      && (not (has_pda_target ix)
          && ((length ix.writable_states == 1) && (is_mutator ix.role || is_terminator ix.role)))
    then reported
      ++ (unconstrained_writable ix (unwrap_or (first ix.writable_states) []) (next_id reported)
          ∷ [])
    else reported

unfoldable pub check_access_from : List InstructionInfo → List Finding → List Finding
unfolding push_access is_read_only
check_access_from [] findings = findings
check_access_from (ix ∷ ixs) findings = check_access_from ixs (
    if is_read_only ix.role || is_empty ix.writable_states
    then findings
    else push_access ix findings)

unfoldable pub check_access_control : List InstructionInfo → List Finding
unfolding check_access_from
check_access_control instructions = check_access_from instructions []
