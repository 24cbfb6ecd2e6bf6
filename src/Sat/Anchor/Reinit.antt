-- ===== src/Sat/Anchor/Reinit.antt =====
-- crates/sat/src/analyzer.rs: `check_reinit_risk`.
use mathlib.Core.List.{flatten}
use solana_audit_toolkit.Prelude.{
  Text, codes, to_lowercase, starts_with, contains, remove_char, ℕ, Bool, true, false, not, ◌&&◌,
  ◌||◌, Option, none, some, List, [], ◌∷◌, ◌++◌, any, find, is_empty, if◌then◌else◌,
}
use solana_audit_toolkit.Sat.Types.{Severity, Finding}
use solana_audit_toolkit.Sat.TxReport.Types.{AccountField, AccountsStruct}
use solana_audit_toolkit.Sat.Anchor.{each_field, field_location, among, field_inner_account_type}

pub record SourceInstruction : Type 0 where
  pub name : Text
  pub program_name : Text
  pub file : Text
  pub line : ℕ

-- The filter of `init_instructions`.
unfoldable pub is_init_name : Text → Bool
unfolding to_lowercase starts_with
is_init_name name =
    let lower_name = to_lowercase name in
    starts_with lower_name (codes "initialize")
    || (starts_with lower_name (codes "init_") || starts_with lower_name (codes "create_"))

unfoldable pub init_instructions : List SourceInstruction → List Text
unfolding is_init_name
init_instructions [] = []
init_instructions (ix ∷ rest) =
    let later = init_instructions rest in if is_init_name ix.name then ix.name ∷ later else later

abbrev pub excluded_inner_types : List Text
excluded_inner_types = codes "tokenaccount" ∷ codes "mint" ∷ codes "systemaccount" ∷ []

unfoldable pub names_storage : Text → Bool
unfolding contains
names_storage s =
    contains s (codes "state")
    || (contains s (codes "config") || (contains s (codes "vault") || contains s (codes "pool")))

unfoldable pub is_reinit_sensitive_field : AccountField → Bool
unfolding field_inner_account_type to_lowercase names_storage
is_reinit_sensitive_field field =
    if field.is_account_info || field.is_unchecked_account
    then true
    else elim (field_inner_account_type field) [
      | none ↦ false
      | some inner_type ↦
          if among excluded_inner_types (to_lowercase inner_type)
          then false
          else names_storage (to_lowercase field.name) || names_storage (to_lowercase inner_type)
    ]

-- The struct's name has the name of an initialising instruction, both without case and underscores.
unfoldable pub instruction_matches : List Text → AccountsStruct → Bool
unfolding contains to_lowercase remove_char
instruction_matches init_names accts =
    any
      (λ ix_name.
        contains (remove_char b'_' (to_lowercase accts.name))
          (remove_char b'_' (to_lowercase ix_name)))
      init_names

-- `#[account(init, payer = ...)]` names the first signer.
unfoldable pub payer_name : List AccountField → Text
payer_name fields = elim (find (λ (f : AccountField). f.is_signer_type || f.has_signer) fields) [
  | none ↦ codes "<signer>"
  | some f ↦ f.name
]

unfoldable pub reinit_finding : AccountsStruct → AccountField → Finding
unfolding field_location payer_name
reinit_finding accts field = record {
  id = [];
  title = flatten (
      codes "Reinitialization Risk: `"
      ∷ accts.name
      ∷ codes "::"
      ∷ field.name
      ∷ codes "` uses `mut` instead of `init`"
      ∷ []);
  severity = Severity.high;
  description = flatten (
      codes "The field `"
      ∷ field.name
      ∷ codes "` in `"
      ∷ accts.name
      ∷ codes
          "` is marked with `#[account(mut)]` but NOT `#[account(init)]`, even though this accounts struct appears to be used for initialization. Without Anchor's `init` constraint, the program does not check whether the account already exists. An attacker can call the initialization instruction multiple times, overwriting existing account data and resetting state (e.g., changing the admin to their own pubkey). This is the vulnerability class behind the Cashio $50M hack."
      ∷ []);
  location = some (field_location accts field);
  suggestion = some (
      flatten (
        codes "Change `#[account(mut)]` to `#[account(init, payer = "
        ∷ payer_name accts.fields
        ∷ codes ", space = 8 + ...)]` on the `"
        ∷ field.name
        ∷ codes "` field, or add an explicit `is_initialized` check before any state writes."
        ∷ []));
}

-- The body of the loop over the fields.
unfoldable pub reinit_field : List Text → AccountsStruct → AccountField → Option Finding
unfolding is_reinit_sensitive_field instruction_matches reinit_finding
reinit_field init_names accts field =
    if field.has_mut
      && (not field.has_init
          && (not field.has_signer
              && (not field.is_signer_type && is_reinit_sensitive_field field)))
    then (if not (instruction_matches init_names accts)
        then none
        else some (reinit_finding accts field))
    else none

-- The body of the loop over the structs, with its two `continue`s.
unfoldable pub reinit_struct : List Text → AccountsStruct → List Finding
unfolding to_lowercase contains reinit_field
reinit_struct init_names accts =
    let accts_lower = to_lowercase accts.name in
    if not (contains accts_lower (codes "init") || contains accts_lower (codes "create"))
    then []
    else if not (any (λ (f : AccountField). f.has_init) accts.fields)
    then []
    else each_field (reinit_field init_names) accts accts.fields

unfoldable pub reinit_structs : List Text → List AccountsStruct → List Finding
unfolding reinit_struct
reinit_structs init_names [] = []
reinit_structs init_names (a ∷ rest) = reinit_struct init_names a ++ reinit_structs init_names rest

unfoldable pub check_reinit_risk : List AccountsStruct → List SourceInstruction → List Finding
unfolding init_instructions reinit_structs
check_reinit_risk accounts instructions =
    let init_names = init_instructions instructions in
    if is_empty init_names then [] else reinit_structs init_names accounts
