-- ===== src/Sat/TxReport/Types.antt =====
-- crates/sat/src/tx_report.rs: the report, how it is loaded, and names made comparable; and the account
-- structs of crates/sat/src/analyzer.rs.
use solana_audit_toolkit.Prelude.{
  Text, codes, ℕ, Bool, Option, some, List, [], ◌++◌, Result, ok, err, to_lowercase, remove_char,
}
use solana_audit_toolkit.Sat.Types.{Finding, Severity}

pub record TxReportPda : Type 0 where
  pub seeds_declared : List Text
  pub bump : Option ℕ

pub record TxReportAccount : Type 0 where
  pub name : Text
  pub is_signer : Bool
  pub is_writable : Bool
  pub pda_info : Option TxReportPda

pub record TxReportInstruction : Type 0 where
  pub name : Text
  pub accounts : List TxReportAccount

pub record TxReport : Type 0 where
  pub schema_version : Text
  pub program_name : Text
  pub instructions : List TxReportInstruction

pub record AccountField : Type 0 where
  pub name : Text
  pub ty_name : Text
  pub line : ℕ
  pub has_signer : Bool
  pub has_mut : Bool
  pub has_init : Bool
  pub has_owner : Bool
  pub has_seeds : Bool
  pub has_close : Bool
  pub has_one_values : List Text
  pub owner_value : Option Text
  pub is_account_info : Bool
  pub is_unchecked_account : Bool
  pub is_signer_type : Bool
  pub has_check_comment : Bool

pub record AccountsStruct : Type 0 where
  pub name : Text
  pub file : Text
  pub line : ℕ
  pub fields : List AccountField

unfoldable pub normalize_name : Text → Text
normalize_name s = remove_char b'_' (to_lowercase s)

-- `read` is `read_to_string` and `from_str` the JSON parser, with their errors as displayed.
module _ (read : Text → Result Text Text) (from_str : Text → Result TxReport Text) where
  unfoldable pub parse_report : Text → Text → Result TxReport Finding
  parse_report path content = elim (from_str content) [
    | ok report ↦ ok report
    | err e ↦ err (record {
      id = [];
      title = codes "Failed to parse tx-report: " ++ e;
      severity = Severity.informational;
      description = codes "Transaction report JSON is invalid: " ++ path;
      location = some path;
      suggestion = some (codes "Ensure the report was generated by the `rts` tool.");
    })
  ]

  unfoldable pub load_tx_report : Text → Result TxReport Finding
  unfolding parse_report
  load_tx_report path = elim (read path) [
    | ok content ↦ parse_report path content
    | err e ↦ err (record {
      id = [];
      title = codes "Failed to read tx-report: " ++ e;
      severity = Severity.informational;
      description = codes "Could not read transaction report file: " ++ path;
      location = some path;
      suggestion = some (codes "Verify the file path and permissions.");
    })
  ]
