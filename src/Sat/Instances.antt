-- ===== src/Sat/Instances.antt =====
-- Instances of the theorems on crates/sat: native programs, reports, seeds, chains and locations.
use mathlib.Core.List.{Memᴰ, Mem, mem-cons_self}
use solana_audit_toolkit.Prelude.{
  IsFirst, ◌++◌, ◌≢◌, Text, text_eq, remove_char, to_lowercase, codes, ◌+◌, ◌≤◌, ◌≡◌, refl, Bool,
  true, false, none, some, List, [], ◌∷◌, Result, ok, err, arith,
}
use solana_audit_toolkit.Sat.Types.{Finding, Severity}
use solana_audit_toolkit.Sat.Cpi.{CpiCall, calls_of, visits, depth_of, compute_max_depth}
use solana_audit_toolkit.Sat.Cpi.Depth.{compute_max_depth_fuel}
use solana_audit_toolkit.Sat.Cpi.Chains.{Chain, SimpleChain, depth_of-Chain, depth_of-SimpleChain}
use solana_audit_toolkit.Sat.TxReport.Types.{
  TxReport, TxReportInstruction, TxReportAccount, normalize_name, load_tx_report, parse_report,
}
use solana_audit_toolkit.Sat.TxReport.Native.{check_native_tx_report_correlation, unsigned_finding}
use solana_audit_toolkit.Sat.TxReport.Anchor.{check_tx_report_correlation}
use solana_audit_toolkit.Sat.TxReport.Quiet.{
  IsUnloadable, correlation-IsUnloadable, correlation-IsPermissive,
}
use solana_audit_toolkit.Sat.TxReport.Found.{correlation_finds_unsigned}
use solana_audit_toolkit.Sat.TxReport.Names.{SameName, normalize_name_iff}
use solana_audit_toolkit.Sat.TxReport.Stands.{NamesInstruction, StandsFor, MustSign}
use solana_audit_toolkit.Sat.Native.Model.{
  AccountKind, ResolvedAccount, NativeInstruction, NativeProgram,
}

abbrev call_to : Text → CpiCall
call_to name = record { caller = []; callee = name; depth = 0; is_internal = true; resolved = true }

-- `a` invokes `b`, and `b` invokes `c`.
abbrev chain_graph : List (Text × List CpiCall)
chain_graph =
    (codes "a", call_to (codes "b") ∷ [])
    ∷ (codes "b", call_to (codes "c") ∷ [])
    ∷ (codes "c", [])
    ∷ []

depth_of-chain_graph : depth_of chain_graph (codes "a") ≡ 2
unfolding depth_of text_eq
depth_of-chain_graph = refl

two_invocations : SimpleChain chain_graph [] (codes "a") 2
unfolding visits calls_of text_eq
two_invocations =
    SimpleChain.invokes [] (codes "a") (call_to (codes "b")) 1 refl (Memᴰ.head refl) refl (
      SimpleChain.invokes (codes "a" ∷ []) (codes "b") (call_to (codes "c")) 0 refl (Memᴰ.head refl)
        refl (SimpleChain.stays (codes "b" ∷ codes "a" ∷ []) (codes "c")))

depth_of-SimpleChain_example : 2 ≤ depth_of chain_graph (codes "a")
depth_of-SimpleChain_example =
    depth_of-SimpleChain chain_graph (codes "a") 2 two_invocations (omega arith)

depth_of-Chain_example : Chain chain_graph (codes "a") (depth_of chain_graph (codes "a"))
depth_of-Chain_example = depth_of-Chain chain_graph (codes "a")

compute_max_depth_fuel_example :
    compute_max_depth (5 + 11) (codes "a") chain_graph 0 []
    ≡ compute_max_depth 11 (codes "a") chain_graph 0 []
compute_max_depth_fuel_example =
    compute_max_depth_fuel 5 11 (codes "a") chain_graph 0 [] (omega arith)

-- A program whose only instruction has an account that must sign.
abbrev owner_account : ResolvedAccount
owner_account = record {
  name = codes "owner";
  index = 0;
  kind = AccountKind.signer;
  is_signer_checked = true;
  owner_checked = false;
  key_checked = false;
  written = false;
  seeds = [];
  is_pda = false;
}

abbrev withdraw_ix : NativeInstruction
withdraw_ix = record {
  name = codes "withdraw";
  discriminator = none;
  handler = codes "process_withdraw";
  file = codes "src/processor.rs";
  line = 10;
  accounts = owner_account ∷ [];
}

abbrev vault_program : NativeProgram
vault_program = record {
  program_id = none;
  entrypoint_file = codes "src/entrypoint.rs";
  entrypoint_line = 1;
  instructions = withdraw_ix ∷ [];
}

abbrev tx_owner : Bool → TxReportAccount
tx_owner signs = record {
  name = codes "Owner";
  is_signer = signs;
  is_writable = true;
  pda_info = none;
}

abbrev tx_withdraw : Bool → TxReportInstruction
tx_withdraw signs = record { name = codes "Withdraw"; accounts = tx_owner signs ∷ [] }

abbrev report_of_owner : Bool → TxReport
report_of_owner signs = record {
  schema_version = [];
  program_name = [];
  instructions = tx_withdraw signs ∷ [];
}

abbrev read_empty : Text → Result Text Text
read_empty path = ok []

abbrev read_denied : Text → Result Text Text
read_denied path = err (codes "denied")

abbrev parse_as : Bool → Text → Result TxReport Text
parse_as signs content = ok (report_of_owner signs)

loaded :
    (signs : Bool)
    → load_tx_report read_empty (parse_as signs) (codes "tx.json") ≡ ok (report_of_owner signs)
unfolding load_tx_report parse_report
loaded signs = refl

correlation-IsUnloadable_example :
    (finding : Finding) × (check_native_tx_report_correlation read_denied
        (parse_as true)
        vault_program
        (codes "tx.json")
      ≡ finding ∷ [])
    × (check_tx_report_correlation read_denied (parse_as true) (λ as_is. as_is) [] (codes "tx.json")
        ≡ finding ∷ [])
    × (finding.severity ≡ Severity.informational)
    × (finding.location ≡ some (codes "tx.json"))
correlation-IsUnloadable_example =
    correlation-IsUnloadable read_denied (parse_as true) (λ as_is. as_is) vault_program []
      (codes "tx.json") (IsUnloadable.unreadable (codes "denied") refl)

correlation-IsPermissive_example :
    (check_native_tx_report_correlation read_empty (parse_as true) vault_program (codes "tx.json")
      ≡ [])
    × (check_tx_report_correlation read_empty (parse_as true) (λ as_is. as_is) [] (codes "tx.json")
        ≡ [])
correlation-IsPermissive_example =
    correlation-IsPermissive read_empty (parse_as true) (λ as_is. as_is) vault_program []
      (codes "tx.json") (report_of_owner true) (loaded true)
      ((record { signs = refl; writes = refl }, tt), tt)

-- The transaction names the account and the instruction in another case.
owner_named : StandsFor owner_account (tx_owner false ∷ []) (tx_owner false)
unfolding normalize_name remove_char to_lowercase
owner_named = StandsFor.by_name (
    IsFirst.here (tx_owner false) [] (record {
      named = λ e. absurd (cc);
      same_name = (normalize_name_iff (codes "Owner") (codes "owner")).0 refl;
    }))

withdraw_named : NamesInstruction (tx_withdraw false) withdraw_ix
unfolding normalize_name remove_char to_lowercase
withdraw_named = (normalize_name_iff (codes "withdraw") (codes "Withdraw")).0 refl

withdraw_has_name : ¬ SameName (codes "Withdraw") []
unfolding normalize_name remove_char to_lowercase
withdraw_has_name h = absurd (filled ((normalize_name_iff (codes "Withdraw") []).1 h))
  where
    filled : normalize_name (codes "Withdraw") ≢ normalize_name []
    filled e = cc

correlation_finds_unsigned_example :
    Mem (unsigned_finding withdraw_ix (tx_withdraw false) owner_account) (
      check_native_tx_report_correlation read_empty
        (parse_as false)
        vault_program
        (codes "tx.json"))
    × ((unsigned_finding withdraw_ix (tx_withdraw false) owner_account).severity
        ≡ Severity.critical)
    × ((unsigned_finding withdraw_ix (tx_withdraw false) owner_account).location
        ≡ some (codes "Tx-report: " ++ (codes "Withdraw" ++ (codes " / " ++ codes "owner"))))
correlation_finds_unsigned_example =
    correlation_finds_unsigned read_empty (parse_as false) vault_program (codes "tx.json")
      (report_of_owner false) (tx_withdraw false) withdraw_ix owner_account (tx_owner false) [] refl
      refl mem-cons_self withdraw_has_name (IsFirst.here withdraw_ix [] withdraw_named)
      mem-cons_self owner_named (MustSign.checked refl) refl
