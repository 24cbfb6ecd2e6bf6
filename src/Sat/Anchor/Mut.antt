-- ===== src/Sat/Anchor/Mut.antt =====
-- crates/sat/src/analyzer.rs: `check_missing_mut`. The hash map from instructions to the accounts that they
-- write is the list of its entries, and the order in which they are visited is a parameter.
use mathlib.Core.List.{flatten}
use solana_audit_toolkit.Prelude.{
  Text, codes, text_eq, to_lowercase, not, ◌&&◌, ◌||◌, Option, none, some, List, [], ◌∷◌, is_empty,
  if◌then◌else◌,
}
use solana_audit_toolkit.Sat.Types.{Severity, Finding}
use solana_audit_toolkit.Sat.Idl.{IdlInstruction, IdlAccountItem}
use solana_audit_toolkit.Sat.TxReport.Types.{AccountField, AccountsStruct}
use solana_audit_toolkit.Sat.Anchor.{each_struct, field_location, among}
use solana_audit_toolkit.Sat.Cpi.{join}

abbrev pub WritableMap : Type 0
WritableMap = List (Text × List Text)

-- `map.entry(ix).or_default().insert(account)`
unfoldable pub insert_writable : Text → Text → WritableMap → WritableMap
insert_writable ix account [] = (ix, account ∷ []) ∷ []
insert_writable ix account ((key, names) ∷ rest) =
    let later = insert_writable ix account rest in
    if text_eq key ix then (key, account ∷ names) ∷ rest else (key, names) ∷ later

unfoldable pub add_accounts : Text → List IdlAccountItem → WritableMap → WritableMap
unfolding insert_writable to_lowercase
add_accounts ix [] map = map
add_accounts ix (acct ∷ rest) map =
    add_accounts ix rest
      (if acct.is_mut then insert_writable ix (to_lowercase acct.name) map else map)

unfoldable pub add_instructions : List IdlInstruction → WritableMap → WritableMap
unfolding add_accounts
add_instructions [] map = map
add_instructions (ix ∷ rest) map = add_instructions rest (add_accounts ix.name ix.accounts map)

-- `writing_instructions`, of the entries in the order visited.
unfoldable pub writing_instructions : WritableMap → Text → List Text
writing_instructions [] field_lower = []
writing_instructions ((ix, names) ∷ rest) field_lower =
    let later = writing_instructions rest field_lower in
    if among names field_lower then ix ∷ later else later

unfoldable pub mut_finding : AccountsStruct → AccountField → List Text → Finding
unfolding field_location join
mut_finding accts field writing = record {
  id = [];
  title = flatten (
      codes "Missing `mut` Constraint: `"
      ∷ accts.name
      ∷ codes "::"
      ∷ field.name
      ∷ codes "` is written to but not declared `#[account(mut)]`"
      ∷ []);
  severity = Severity.high;
  description = flatten (
      codes "The field `"
      ∷ field.name
      ∷ codes "` in `"
      ∷ accts.name
      ∷ codes "` appears to be written to by instruction(s) ["
      ∷ join (codes ", ") writing
      ∷ codes
          "] (from the IDL), but is not marked with `#[account(mut)]`. Anchor requires the `mut` constraint to deserialize the account for writing. Without it, writes will fail at runtime or the account will be deserialized read-only."
      ∷ []);
  location = some (field_location accts field);
  suggestion = some (
      flatten (
        codes "Add `#[account(mut)]` to the `"
        ∷ field.name
        ∷ codes "` field in `"
        ∷ accts.name
        ∷ codes "`."
        ∷ []));
}

-- The body of the loop over the fields, for the entries in the order visited.
unfoldable pub missing_mut : WritableMap → AccountsStruct → AccountField → Option Finding
unfolding to_lowercase writing_instructions mut_finding
missing_mut entries accts field =
    let writing = writing_instructions entries (to_lowercase field.name) in
    if not (is_empty writing) && (not field.has_mut && not field.has_init)
    then (if field.is_signer_type || field.is_account_info
        then none
        else some (mut_finding accts field writing))
    else none

-- `instructions` are those of the IDL, if there is one.
unfoldable pub check_missing_mut :
    (WritableMap → WritableMap) → List AccountsStruct → Option (List IdlInstruction) → List Finding
unfolding add_instructions missing_mut
check_missing_mut order accounts none = []
check_missing_mut order accounts (some instructions) =
    each_struct (missing_mut (order (add_instructions instructions []))) accounts
