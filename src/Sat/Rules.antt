-- ===== src/Sat/Rules.antt =====
-- crates/sat/src/sarif.rs: the rule table, and the classification of a finding by its title.
pub mod Table
use solana_audit_toolkit.Prelude.{
  Text, codes, contains, ◌||◌, List, [], ◌∷◌, if◌then◌else◌, ◌≡◌, ◌≢◌, arith, Bool, true, false,
  any, text_eq, ℕ, suc, Option, none, some, unwrap_or,
}
use mathlib.Core.Option
use solana_audit_toolkit.Sat.Types.{Severity, Finding}

-- The ids of `RULES`, in its order; the descriptions are not modelled.
abbrev pub rule_ids : List Text
rule_ids =
    codes "SAT001"
    ∷ codes "SAT002"
    ∷ codes "SAT003"
    ∷ codes "SAT004"
    ∷ codes "SAT005"
    ∷ codes "SAT006"
    ∷ codes "SAT007"
    ∷ codes "SAT008"
    ∷ codes "SAT009"
    ∷ codes "SAT010"
    ∷ codes "SAT011"
    ∷ codes "SAT012"
    ∷ codes "SAT013"
    ∷ codes "SAT014"
    ∷ codes "SAT015"
    ∷ codes "SAT016"
    ∷ codes "SAT017"
    ∷ codes "SAT018"
    ∷ codes "SAT019"
    ∷ codes "SAT020"
    ∷ codes "SAT021"
    ∷ codes "SAT022"
    ∷ codes "SAT023"
    ∷ codes "SAT024"
    ∷ codes "SAT025"
    ∷ codes "SAT026"
    ∷ codes "SAT027"
    ∷ codes "SAT028"
    ∷ codes "SAT029"
    ∷ codes "SAT030"
    ∷ codes "SAT031"
    ∷ codes "SAT032"
    ∷ codes "SAT033"
    ∷ codes "SAT034"
    ∷ codes "SAT035"
    ∷ codes "SAT036"
    ∷ codes "SAT041"
    ∷ codes "SAT037"
    ∷ codes "SAT038"
    ∷ codes "SAT039"
    ∷ []

unfoldable pub classify_title : Text → Text
classify_title title =
    if contains title (codes "Sysvar-Introspection")
    then codes "SAT037"
    else if contains title (codes "Unvalidated Flow")
    then codes "SAT038"
    else if contains title (codes "Accounting Drift")
    then codes "SAT039"
    else if contains title (codes "Self-Referential Validation")
    then codes "SAT031"
    else if contains title (codes "Permissionless State Creation")
    then codes "SAT032"
    else if contains title (codes "Unanchored Token Mint")
    then codes "SAT033"
    else if contains title (codes "Stale Oracle Price")
    then codes "SAT034"
    else if contains title (codes "Oracle Confidence")
    then codes "SAT035"
    else if contains title (codes "Oracle Decimals")
    then codes "SAT036"
    else if contains title (codes "Oracle Value Flow")
    then codes "SAT041"
    else if contains title (codes "Unverified Signer Account")
    then codes "SAT019"
    else if contains title (codes "Unverified Owner Account")
    then codes "SAT020"
    else if contains title (codes "Unchecked Authority Key")
    then codes "SAT021"
    else if contains title (codes "Seed Derivation Mismatch")
    then codes "SAT022"
    else if contains title (codes "State Write After CPI")
    then codes "SAT023"
    else if contains title (codes "Account Reinit After Close")
    then codes "SAT024"
    else if contains title (codes "Unchecked Deserialization")
    then codes "SAT025"
    else if contains title (codes "Writable Builtin Account")
    then codes "SAT027"
    else if contains title (codes "Token CPI Unverified Authority")
    then codes "SAT028"
    else if contains title (codes "Self-Invocation")
    then codes "SAT029"
    else if contains title (codes "Cross-Instruction State Reuse")
    then codes "SAT030"
    else if contains title (codes "init_if_needed")
    then codes "SAT016"
    else if contains title (codes "Token Transfer CPI")
    then codes "SAT017"
    else if contains title (codes "Manual Deserialization")
    then codes "SAT018"
    else if contains title (codes "Missing Signer")
    then codes "SAT001"
    else if contains title (codes "Missing Owner")
    then codes "SAT002"
    else if contains title (codes "Missing `mut`")
    then codes "SAT003"
    else if contains title (codes "Discriminator Collision")
    then codes "SAT004"
    else if contains title (codes "Reinitialization")
    then codes "SAT005"
    else if contains title (codes "Lockout") || (contains title (codes "No outgoing"))
    then codes "SAT006"
    else if contains title (codes "Missing Access")
    then codes "SAT007"
    else if contains title (codes "CPI Depth")
    then codes "SAT008"
    else if contains title (codes "Sysvar")
    then codes "SAT009"
    else if contains title (codes "CEI Violation")
    then codes "SAT014"
    else if contains title (codes "PDA Seed") || (contains title (codes "Seed Mismatch"))
    then codes "SAT015"
    else if contains title (codes "Serialization Mismatch") || (contains title (codes "Mismatch"))
    then codes "SAT010"
    else if contains title (codes "Tx-Report") || (contains title (codes "Transaction"))
    then codes "SAT011"
    else if contains title (codes "Unsafe Arithmetic")
        || (contains title (codes "Unsafe Multiplication"))
    then codes "SAT012"
    else if contains title (codes "Token-2022")
        || (contains title (codes "Transfer Fee")
            || (contains title (codes "Permanent Delegate")
                || (contains title (codes "Interest-Bearing"))))
    then codes "SAT013"
    else codes "SAT001"

unfoldable pub classify_finding_rule : Finding → Text
unfolding classify_title
classify_finding_rule finding = classify_title finding.title

-- `RULES.iter().position(|(id, _, _)| *id == rule_id)`
unfoldable pub position : Text → List Text → Option ℕ
position x [] = none
position x (y ∷ ys) = if text_eq y x then some 0 else Option.map suc (position x ys)

-- The `ruleIndex` of a SARIF result.
unfoldable pub rule_index : Text → ℕ
unfolding position
rule_index rule_id = unwrap_or (position rule_id rule_ids) 0

unfoldable pub severity_to_sarif_level : Severity → Text
severity_to_sarif_level Severity.critical = codes "error"
severity_to_sarif_level Severity.high = codes "error"
severity_to_sarif_level Severity.medium = codes "warning"
severity_to_sarif_level Severity.low = codes "note"
severity_to_sarif_level Severity.informational = codes "note"
