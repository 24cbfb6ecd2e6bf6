-- ===== src/Sat/Anchor/Owner.antt =====
-- crates/sat/src/analyzer.rs: `check_missing_owner`.
use mathlib.Core.List.{flatten}
use solana_audit_toolkit.Prelude.{
  Text, codes, not, ◌&&◌, ◌||◌, Option, none, some, List, [], ◌∷◌, ◌++◌, if◌then◌else◌,
}
use solana_audit_toolkit.Sat.Types.{Severity, Finding}
use solana_audit_toolkit.Sat.TxReport.Types.{AccountField, AccountsStruct}
use solana_audit_toolkit.Sat.Anchor.{each_struct, field_location}

unfoldable pub raw_type : AccountField → Text
raw_type field =
    if field.is_unchecked_account then codes "UncheckedAccount" else codes "AccountInfo"

unfoldable pub owner_finding : AccountsStruct → AccountField → Finding
unfolding raw_type field_location
owner_finding accts field = record {
  id = [];
  title = flatten (
      codes "Missing Owner Constraint: `"
      ∷ accts.name
      ∷ codes "::"
      ∷ field.name
      ∷ codes "` is "
      ∷ raw_type field
      ∷ codes " without `#[account(owner = ...)]`"
      ∷ []);
  severity = if field.has_check_comment then Severity.low else Severity.high;
  description =
      flatten (
        codes "The field `"
        ∷ field.name
        ∷ codes "` in `"
        ∷ accts.name
        ∷ codes "` is typed as `"
        ∷ raw_type field
        ∷ codes
            "` without an explicit `#[account(owner = ...)]` constraint. Any account owned by any program can be passed here, enabling account substitution attacks where a malicious actor provides an account owned by a program they control."
        ∷ [])
      ++ (if field.has_check_comment
          then codes
              " This field carries a `CHECK:` doc comment — the Anchor-ecosystem convention for a deliberately reviewed account. Confirm the documented manual validation actually exists before treating this as exploitable."
          else []);
  location = some (field_location accts field);
  suggestion = some (
      flatten (
        codes
          "Add `#[account(owner = <PROGRAM_ID>)]` to restrict this account to the expected program owner, or use a typed `Account<'info, T>` wrapper instead of raw `"
        ∷ raw_type field
        ∷ codes "`."
        ∷ []));
}

-- The body of the loop over the fields, with its three `continue`s.
unfoldable pub missing_owner : AccountsStruct → AccountField → Option Finding
unfolding owner_finding
missing_owner accts field =
    if not field.is_account_info && not field.is_unchecked_account
    then none
    else if field.has_init || (field.has_signer || field.has_seeds)
    then none
    else if not field.has_mut
    then none
    else if not field.has_owner
    then some (owner_finding accts field)
    else none

unfoldable pub check_missing_owner : List AccountsStruct → List Finding
unfolding missing_owner
check_missing_owner = each_struct missing_owner
