-- ===== src/Sat/Anchor/HasOne.antt =====
-- crates/sat/src/analyzer.rs: `check_missing_has_one`. The storage structs are the entries of a hash map that
-- is only read: the name of a struct and the names of its fields.
use mathlib.Core.List.{flatten}
use solana_audit_toolkit.Prelude.{
  Text, codes, text_eq, to_lowercase, starts_with, Bool, false, not, ◌&&◌, ◌||◌, Option, none, some,
  List, [], ◌∷◌, ◌++◌, any, find, retain, is_some, is_empty, first, if◌then◌else◌,
}
use solana_audit_toolkit.Sat.Types.{Severity, Finding}
use solana_audit_toolkit.Sat.TxReport.Types.{AccountField, AccountsStruct}
use solana_audit_toolkit.Sat.Anchor.{
  each_field, field_location, has_authority_suffix, among, field_inner_account_type,
}

abbrev pub StorageFieldMap : Type 0
StorageFieldMap = List (Text × List Text)

abbrev pub authority_signer_names : List Text
authority_signer_names =
    codes "authority"
    ∷ codes "admin"
    ∷ codes "owner"
    ∷ codes "creator"
    ∷ codes "manager"
    ∷ codes "operator"
    ∷ codes "governor"
    ∷ []

abbrev pub stored_names : List Text
stored_names =
    codes "authority"
    ∷ codes "admin"
    ∷ codes "owner"
    ∷ codes "governor"
    ∷ codes "manager"
    ∷ codes "operator"
    ∷ []

-- `storage_fields.get(name)`
unfoldable pub get_storage : StorageFieldMap → Text → Option (List Text)
get_storage storage_fields name =
    elim (find (λ (entry : Text × List Text). text_eq entry.0 name) storage_fields) [
      | none ↦ none
      | some (key, fields) ↦ some fields
    ]

-- The filter of `typed_mut_fields`.
unfoldable pub is_typed_mut : StorageFieldMap → AccountField → Bool
unfolding starts_with field_inner_account_type get_storage
is_typed_mut storage_fields f =
    not f.is_account_info
    && (not f.is_unchecked_account
        && (not f.is_signer_type
            && (starts_with f.ty_name (codes "Account<")
                && (f.has_mut && elim (field_inner_account_type f) [
                  | none ↦ false
                  | some inner ↦ is_some (get_storage storage_fields inner)
                ]))))

-- The filter of `authority_signers`.
unfoldable pub is_authority_signer : AccountField → Bool
unfolding to_lowercase has_authority_suffix
is_authority_signer f =
    (f.is_signer_type || f.has_signer)
    && (among authority_signer_names (to_lowercase f.name)
        || has_authority_suffix (to_lowercase f.name))

unfoldable pub mutable_account_stores_authority :
    AccountField → AccountField → StorageFieldMap → Bool
unfolding field_inner_account_type get_storage to_lowercase
mutable_account_stores_authority account_field signer storage_fields =
    elim (field_inner_account_type account_field) [
      | none ↦ false
      | some inner_type ↦ elim (get_storage storage_fields inner_type) [
        | none ↦ false
        | some fields ↦ any (among fields) (to_lowercase signer.name ∷ stored_names)
      ]
    ]

-- A field has `has_one` for the signer.
unfoldable pub links : AccountField → AccountField → Bool
unfolding to_lowercase
links signer f = any (λ v. text_eq (to_lowercase v) (to_lowercase signer.name)) f.has_one_values

unfoldable pub has_one_finding : AccountsStruct → AccountField → Option AccountField → Finding
unfolding field_location
has_one_finding accts signer likely_field = record {
  id = [];
  title = flatten (
      codes "Missing `has_one` Constraint: signer `"
      ∷ signer.name
      ∷ codes "` in `"
      ∷ accts.name
      ∷ codes "` is not linked to any Account field"
      ∷ []);
  severity = Severity.high;
  description = flatten (
      codes "The `Signer<'info>` field `"
      ∷ signer.name
      ∷ codes "` in `"
      ∷ accts.name
      ∷ codes
          "` appears to be an authority (based on its name), but no `Account<'info, T>` field in this struct has `has_one = "
      ∷ signer.name
      ∷ codes
          "` to verify that the stored authority matches the signer. A program that accepts a signer without linking it to the stored authority via `has_one` cannot guarantee that the caller owns the account they are modifying. This enables privilege escalation and account substitution attacks."
      ∷ []);
  location = some (field_location accts signer);
  suggestion = some (
      flatten (
        codes "Add `#[account(mut, has_one = "
        ∷ signer.name
        ∷ codes ")]` to the Account field that stores the authority pubkey (likely `"
        ∷ elim likely_field [ none ↦ codes "<account-field>" | some f ↦ f.name ]
        ∷ codes
            "`). Or add `#[account(signer)]` if the field is meant to be a standalone signer without a stored authority."
        ∷ []));
}

-- The body of the loop over the authority signers, for the typed mutable fields of the struct.
unfoldable pub missing_has_one :
    StorageFieldMap → List AccountField → AccountsStruct → AccountField → Option Finding
unfolding mutable_account_stores_authority links has_one_finding
missing_has_one storage_fields typed_mut_fields accts signer =
    let relevant =
      retain (λ field. mutable_account_stores_authority field signer storage_fields)
        typed_mut_fields in
    if is_empty relevant
    then none
    else if not (any (links signer) typed_mut_fields)
    then some (has_one_finding accts signer (first relevant))
    else none

-- The body of the loop over the structs.
unfoldable pub has_one_struct : StorageFieldMap → AccountsStruct → List Finding
unfolding is_typed_mut is_authority_signer missing_has_one
has_one_struct storage_fields accts =
    let typed_mut_fields = retain (is_typed_mut storage_fields) accts.fields in
    if is_empty typed_mut_fields
    then []
    else each_field (missing_has_one storage_fields typed_mut_fields) accts
        (retain is_authority_signer accts.fields)

unfoldable pub check_missing_has_one : StorageFieldMap → List AccountsStruct → List Finding
unfolding has_one_struct
check_missing_has_one storage_fields [] = []
check_missing_has_one storage_fields (a ∷ rest) =
    has_one_struct storage_fields a ++ check_missing_has_one storage_fields rest
