-- ===== src/Sat/TxReport/Native.antt =====
-- crates/sat/src/tx_report.rs: a report against the model of a native program.
use mathlib.Core.List.{flatten, flat_map}
use solana_audit_toolkit.Prelude.{
  Text, codes, text_eq, not, ◌&&◌, Option, none, some, List, [], ◌∷◌, ◌++◌, Result, ok, err, find,
  get_elem?, or_else, is_empty, if◌then◌else◌,
}
use solana_audit_toolkit.Sat.Types.{Finding, Severity}
use solana_audit_toolkit.Sat.Native.Model.{
  ResolvedAccount, NativeInstruction, NativeProgram, is_signer_expected,
}
use solana_audit_toolkit.Sat.TxReport.Types.{
  TxReport, TxReportInstruction, TxReportAccount, normalize_name, load_tx_report,
}

-- `location` of both findings
unfoldable pub tx_location : TxReportInstruction → Text → Option Text
tx_location tx_ix account = some (codes "Tx-report: " ++ (tx_ix.name ++ (codes " / " ++ account)))

unfoldable pub unsigned_finding :
    NativeInstruction → TxReportInstruction → ResolvedAccount → Finding
unfolding tx_location
unsigned_finding native_ix tx_ix account = record {
  id = [];
  title = flatten (
      codes "Tx-Report Mismatch: `"
      ∷ native_ix.name
      ∷ codes "` account `"
      ∷ account.name
      ∷ codes "` requires a signature (source signer guard) but `is_signer = false` in transaction"
      ∷ []);
  severity = Severity.critical;
  description = flatten (
      codes "At runtime, the account `"
      ∷ account.name
      ∷ codes "` in instruction `"
      ∷ tx_ix.name
      ∷ codes
          "` was NOT a signer, but the native source guards it with a signer check. This means the signer constraint was either bypassed or the transaction was crafted to exploit a missing runtime check."
      ∷ []);
  location = tx_location tx_ix account.name;
  suggestion = some (
      codes
        "Verify that the signer guard is correctly enforced at runtime and that account substitution is not possible.");
}

unfoldable pub unwritable_finding :
    NativeInstruction → TxReportInstruction → ResolvedAccount → Finding
unfolding tx_location
unwritable_finding native_ix tx_ix account = record {
  id = [];
  title = flatten (
      codes "Tx-Report Mismatch: `"
      ∷ native_ix.name
      ∷ codes "` account `"
      ∷ account.name
      ∷ codes "` is written by the program but `is_writable = false` in transaction"
      ∷ []);
  severity = Severity.high;
  description = flatten (
      codes "At runtime, the account `"
      ∷ account.name
      ∷ codes "` in instruction `"
      ∷ tx_ix.name
      ∷ codes
          "` was NOT writable, but the program source writes to it. This may cause runtime failures or indicate a deserialization mismatch."
      ∷ []);
  location = tx_location tx_ix account.name;
  suggestion = some (codes "Ensure the account at runtime has the expected writable permissions.");
}

-- The account of the transaction that stands for a resolved one: by name, else by position.
unfoldable pub find_tx_account : TxReportInstruction → ResolvedAccount → Option TxReportAccount
find_tx_account tx_ix native_account =
    or_else
      (find
        (λ a.
          not (is_empty a.name)
          && text_eq (normalize_name a.name) (normalize_name native_account.name))
        tx_ix.accounts)
      (get_elem? tx_ix.accounts native_account.index)

-- The two tests of the inner loop.
unfoldable pub compare_account :
    NativeInstruction → TxReportInstruction → ResolvedAccount → TxReportAccount → List Finding
compare_account native_ix tx_ix native_account tx_acct =
    (if is_signer_expected native_account && not tx_acct.is_signer
      then unsigned_finding native_ix tx_ix native_account ∷ []
      else [])
    ++ (if native_account.written && not tx_acct.is_writable
        then unwritable_finding native_ix tx_ix native_account ∷ []
        else [])

-- The body of the inner loop.
unfoldable pub check_native_account :
    NativeInstruction → TxReportInstruction → ResolvedAccount → List Finding
check_native_account native_ix tx_ix native_account = elim (find_tx_account tx_ix native_account) [
  | none ↦ []
  | some tx_acct ↦ compare_account native_ix tx_ix native_account tx_acct
]

-- The instruction of the program that one of the report is compared with.
unfoldable pub find_native : NativeProgram → TxReportInstruction → Option NativeInstruction
find_native program tx_ix =
    let ix_name = normalize_name tx_ix.name in
    if is_empty ix_name
    then none
    else find (λ ix. text_eq (normalize_name ix.name) ix_name) program.instructions

-- The body of the outer loop.
unfoldable pub check_native_instruction : NativeProgram → TxReportInstruction → List Finding
check_native_instruction program tx_ix = elim (find_native program tx_ix) [
  | none ↦ []
  | some native_ix ↦ flat_map (check_native_account native_ix tx_ix) native_ix.accounts
]

module _ (read : Text → Result Text Text) (from_str : Text → Result TxReport Text) where
  unfoldable pub check_native_tx_report_correlation : NativeProgram → Text → List Finding
  check_native_tx_report_correlation program path = elim (load_tx_report read from_str path) [
    | err finding ↦ finding ∷ []
    | ok report ↦ flat_map (check_native_instruction program) report.instructions
  ]
