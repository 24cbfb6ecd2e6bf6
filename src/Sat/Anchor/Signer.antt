-- ===== src/Sat/Anchor/Signer.antt =====
-- crates/sat/src/analyzer.rs: `check_missing_signer`.
use mathlib.Core.List.{flatten}
use solana_audit_toolkit.Prelude.{
  Text, codes, to_lowercase, Bool, not, ◌&&◌, ◌||◌, Option, none, some, List, [], ◌∷◌, ◌++◌,
  if◌then◌else◌,
}
use solana_audit_toolkit.Sat.Types.{Severity, Finding}
use solana_audit_toolkit.Sat.TxReport.Types.{AccountField, AccountsStruct}
use solana_audit_toolkit.Sat.Anchor.{each_struct, field_location, has_authority_suffix, among}

abbrev pub authority_names : List Text
authority_names =
    codes "authority"
    ∷ codes "admin"
    ∷ codes "owner"
    ∷ codes "signer"
    ∷ codes "governor"
    ∷ codes "governance_authority"
    ∷ codes "vault_authority"
    ∷ codes "pool_admin"
    ∷ codes "creator"
    ∷ codes "manager"
    ∷ codes "operator"
    ∷ codes "upgrade_authority"
    ∷ codes "mint_authority"
    ∷ codes "freeze_authority"
    ∷ []

unfoldable pub looks_like_authority : AccountField → Bool
unfolding to_lowercase has_authority_suffix
looks_like_authority field =
    let name_lower = to_lowercase field.name in
    among authority_names name_lower || has_authority_suffix name_lower

unfoldable pub signer_severity : AccountField → Severity × Text
signer_severity field =
    if field.has_check_comment
    then (Severity.low, codes "authority field is unconstrained but carries a `CHECK:` doc comment")
    else if field.has_mut
    then (Severity.high, codes "authority field is mutable but not marked as signer")
    else (Severity.medium, codes "authority field is missing signer constraint")

unfoldable pub signer_finding : AccountsStruct → AccountField → Finding
unfolding signer_severity field_location
signer_finding accts field =
    let (severity, title_suffix) = signer_severity field in
    record {
      id = [];
      title = flatten (
          codes "Missing Signer: `"
          ∷ accts.name
          ∷ codes "::"
          ∷ field.name
          ∷ codes "` "
          ∷ title_suffix
          ∷ []);
      severity = severity;
      description =
          flatten (
            codes "The field `"
            ∷ field.name
            ∷ codes "` in `"
            ∷ accts.name
            ∷ codes
                "` appears to represent an authority but is not constrained with `#[account(signer)]` and is not of type `Signer<'info>`. Without signer verification, this account's signature is not enforced, allowing unauthorized callers to supply arbitrary public keys for this account."
            ∷ [])
          ++ (if field.has_check_comment
              then codes
                  " This field carries a `CHECK:` doc comment — the Anchor-ecosystem convention for a deliberately reviewed account. Confirm the documented manual validation (Validate impl, handler key-equality guard, or fixed address check) actually exists before treating this as exploitable."
              else []);
      location = some (field_location accts field);
      suggestion = some (
          flatten (
            codes "Add `#[account(signer)]` to the `"
            ∷ field.name
            ∷ codes "` field or change its type to `Signer<'info>`."
            ∷ []));
    }

-- The body of the loop over the fields.
unfoldable pub missing_signer : AccountsStruct → AccountField → Option Finding
unfolding looks_like_authority signer_finding
missing_signer accts field =
    if looks_like_authority field
      && (not field.has_signer && (not field.is_signer_type && not field.has_seeds))
    then some (signer_finding accts field)
    else none

unfoldable pub check_missing_signer : List AccountsStruct → List Finding
unfolding missing_signer
check_missing_signer = each_struct missing_signer
