-- ===== src/Sat/TxReport/Anchor.antt =====
-- crates/sat/src/tx_report.rs: a report against the account structs of Anchor programs. A hash map is
-- the list of its entries, and the order in which its values are visited is a parameter.
use mathlib.Core.List.{flatten, flat_map}
use solana_audit_toolkit.Prelude.{
  Text, codes, text_eq, ends_with, Bool, not, ◌&&◌, ◌||◌, Option, none, some, List, [], ◌∷◌, ◌++◌,
  Result, ok, err, find, retain, is_empty, if◌then◌else◌,
}
use solana_audit_toolkit.Sat.Types.{Finding, Severity}
use solana_audit_toolkit.Sat.TxReport.Types.{
  TxReport, TxReportInstruction, TxReportAccount, AccountField, AccountsStruct, normalize_name,
  load_tx_report,
}

unfoldable pub signer_mismatch : AccountsStruct → TxReportInstruction → AccountField → Finding
signer_mismatch accts tx_ix field = record {
  id = [];
  title = flatten (
      codes "Tx-Report Mismatch: `"
      ∷ accts.name
      ∷ codes "::"
      ∷ field.name
      ∷ codes "` declared with `#[account(signer)]` but `is_signer = false` in transaction"
      ∷ []);
  severity = Severity.critical;
  description = flatten (
      codes "At runtime, the account `"
      ∷ field.name
      ∷ codes "` in instruction `"
      ∷ tx_ix.name
      ∷ codes "` was NOT a signer, but it is declared with `#[account(signer)]` in `"
      ∷ accts.name
      ∷ codes
          "`. This means the signer constraint was either bypassed or the transaction was crafted to exploit a missing runtime check."
      ∷ []);
  location = some (flatten (codes "Tx-report: " ∷ tx_ix.name ∷ codes " / " ∷ field.name ∷ []));
  suggestion = some (
      codes
        "Verify that the `#[account(signer)]` constraint is correctly enforced at the Anchor framework level and that the runtime account substitution is not possible.");
}

unfoldable pub writable_mismatch : AccountsStruct → TxReportInstruction → AccountField → Finding
writable_mismatch accts tx_ix field = record {
  id = [];
  title = flatten (
      codes "Tx-Report Mismatch: `"
      ∷ accts.name
      ∷ codes "::"
      ∷ field.name
      ∷ codes "` declared with `#[account(mut)]` but `is_writable = false` in transaction"
      ∷ []);
  severity = Severity.high;
  description = flatten (
      codes "At runtime, the account `"
      ∷ field.name
      ∷ codes "` in instruction `"
      ∷ tx_ix.name
      ∷ codes "` was NOT writable, but it is declared with `#[account(mut)]` in `"
      ∷ accts.name
      ∷ codes "`. This may cause runtime failures or indicate a deserialization mismatch."
      ∷ []);
  location = some (flatten (codes "Tx-report: " ∷ tx_ix.name ∷ codes " / " ∷ field.name ∷ []));
  suggestion = some (codes "Ensure the account at runtime has the expected writable permissions.");
}

-- The two tests on a field.
unfoldable pub compare_field :
    AccountsStruct → TxReportInstruction → TxReportAccount → AccountField → List Finding
compare_field accts tx_ix tx_acct field =
    (if field.has_signer && not tx_acct.is_signer
      then signer_mismatch accts tx_ix field ∷ []
      else [])
    ++ (if field.has_mut && not tx_acct.is_writable
        then writable_mismatch accts tx_ix field ∷ []
        else [])

-- The field with the name of an account of the transaction.
unfoldable pub find_field : AccountsStruct → TxReportAccount → Option AccountField
find_field accts tx_acct =
    let tx_name = normalize_name tx_acct.name in
    if is_empty tx_name
    then none
    else find (λ f. text_eq (normalize_name f.name) tx_name) accts.fields

-- The body of the innermost loop.
unfoldable pub check_account : AccountsStruct → TxReportInstruction → TxReportAccount → List Finding
check_account accts tx_ix tx_acct = elim (find_field accts tx_acct) [
  | none ↦ []
  | some field ↦ compare_field accts tx_ix tx_acct field
]

-- The filter on the account structs.
unfoldable pub names_match : Text → AccountsStruct → Bool
names_match ix_name accts =
    let accts_name = normalize_name accts.name in
    text_eq accts_name ix_name || (ends_with ix_name accts_name || ends_with accts_name ix_name)

-- The map from the normalized names: a later struct takes the place of an earlier one.
unfoldable pub accounts_map : List AccountsStruct → List AccountsStruct
accounts_map [] = []
accounts_map (a ∷ accounts) =
    let rest = accounts_map accounts in
    elim (find (λ b. text_eq (normalize_name b.name) (normalize_name a.name)) accounts) [
      | none ↦ a ∷ rest
      | some _ ↦ rest
    ]

-- The body of the outer loop, with the values in the order in which the map gives them.
unfoldable pub check_instruction : List AccountsStruct → TxReportInstruction → List Finding
check_instruction values tx_ix =
    let ix_name = normalize_name tx_ix.name in
    if is_empty ix_name
    then []
    else flat_map (λ accts. flat_map (check_account accts tx_ix) tx_ix.accounts)
        (retain (names_match ix_name) values)

module _ (read : Text → Result Text Text) (from_str : Text → Result TxReport Text)
    (visit : List AccountsStruct → List AccountsStruct) where
  unfoldable pub check_tx_report_correlation : List AccountsStruct → Text → List Finding
  check_tx_report_correlation accounts path = elim (load_tx_report read from_str path) [
    | err finding ↦ finding ∷ []
    | ok report ↦ flat_map (check_instruction (visit (accounts_map accounts))) report.instructions
  ]
