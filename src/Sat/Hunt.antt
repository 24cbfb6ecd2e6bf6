-- ===== src/Sat/Hunt.antt =====
-- crates/sat/src/hunt.rs: leads, their payout class and their ranking. The brief that is rendered
-- from them is not modelled.
pub mod Ranking
use Prim.Native.Nat.Ordering.{lt, eq, gt}
use solana_audit_toolkit.Prelude.{
  Text, codes, text_eq, text_cmp, ℕ, ◌*◌, Bool, true, false, not, ◌||◌, Option, none, some, List,
  [], ◌∷◌, map, compare, Ordering, then_with, sort_by, unwrap_or, if◌then◌else◌,
}
use solana_audit_toolkit.Sat.Types.{Severity, ordinal, Confidence, confidence, Finding}
use solana_audit_toolkit.Sat.Rules.{classify_finding_rule}

pub record PayoutClass : Type 0 where
  pub class : Text
  pub impact : Text
  pub precedent : Text
  pub weight : ℕ

abbrev payout : Text → Text → Text → ℕ → Option PayoutClass
payout class impact precedent weight =
    some (record { class = class; impact = impact; precedent = precedent; weight = weight })

unfoldable pub payout_class : Text → Option PayoutClass
payout_class rule =
    if text_eq rule (codes "SAT001") || (text_eq rule (codes "SAT019"))
    then payout (codes "Authorization bypass") (codes "Privileged action without a signer")
        (codes "Amulet class") 3
    else if text_eq rule (codes "SAT028") || (text_eq rule (codes "SAT017"))
    then payout (codes "Token-CPI authority") (codes "Unauthorized token transfer/mint/burn")
        (codes "class") 3
    else if text_eq rule (codes "SAT021")
    then payout (codes "Impersonation") (codes "Authority key never pinned") (codes "Amulet class")
        2
    else if text_eq rule (codes "SAT002") || (text_eq rule (codes "SAT020"))
    then payout (codes "Account confusion") (codes "Substitute an attacker-owned account")
        (codes "Wormhole / Cashio") 3
    else if text_eq rule (codes "SAT025") || (text_eq rule (codes "SAT018"))
    then payout (codes "Type confusion") (codes "Parse attacker bytes as trusted state")
        (codes "class") 2
    else if text_eq rule (codes "SAT004")
    then payout (codes "Type confusion") (codes "Discriminator collision across instructions")
        (codes "class") 2
    else if text_eq rule (codes "SAT022") || (text_eq rule (codes "SAT015"))
    then payout (codes "Account substitution") (codes "PDA seed mismatch enables swap")
        (codes "class") 3
    else if text_eq rule (codes "SAT023") || (text_eq rule (codes "SAT014"))
    then payout (codes "Reentrancy / CEI") (codes "Stale state used across a CPI")
        (codes "Wormhole ($320M)") 3
    else if text_eq rule (codes "SAT005")
        || (text_eq rule (codes "SAT016") || (text_eq rule (codes "SAT024")))
    then payout (codes "Account takeover") (codes "Revive/re-init a closed account") (codes "class")
        2
    else if text_eq rule (codes "SAT026") || (text_eq rule (codes "SAT012"))
    then payout (codes "Arithmetic / precision") (codes "Overflow, underflow, or rounding error")
        (codes "class") 2
    else if text_eq rule (codes "SAT031")
    then payout (codes "Fake account chain") (codes "Self-consistent fake accounts accepted")
        (codes "Cashio ($48M)") 3
    else if text_eq rule (codes "SAT032")
    then payout (codes "Authority takeover") (codes "Caller chooses authority at state creation")
        (codes "class") 3
    else if text_eq rule (codes "SAT033")
    then payout (codes "Fake mint") (codes "Token mint never anchored to a real mint")
        (codes "Cashio ($48M)") 3
    else if text_eq rule (codes "SAT038")
    then payout (codes "Missing validation") (codes "Attacker value reaches a privileged sink")
        (codes "class") 2
    else if text_eq rule (codes "SAT034")
        || (text_eq rule (codes "SAT035")
            || (text_eq rule (codes "SAT036") || (text_eq rule (codes "SAT041"))))
    then payout (codes "Oracle manipulation")
        (codes "Stale/manipulable price drives a value decision") (codes "Mango ($114M)") 2
    else if text_eq rule (codes "SAT039")
    then payout (codes "Accounting drift") (codes "Internal balance desyncs from on-chain")
        (codes "class") 2
    else if text_eq rule (codes "SAT013")
    then payout (codes "Token-2022 extension") (codes "Unhandled transfer-fee/delegate/interest")
        (codes "class") 2
    else if text_eq rule (codes "SAT037")
    then payout (codes "Instruction introspection") (codes "Unchecked sysvar introspection")
        (codes "Wormhole ($320M)") 3
    else if text_eq rule (codes "SAT027")
    then payout (codes "Account tampering") (codes "Writable builtin account") (codes "class") 1
    else if text_eq rule (codes "SAT010")
    then payout (codes "Serialization mismatch") (codes "Field width mismatch in serialized state")
        (codes "class") 1
    else if text_eq rule (codes "SAT011")
    then payout (codes "Runtime mismatch") (codes "Declared vs observed account mismatch")
        (codes "class") 1
    else if text_eq rule (codes "SAT006") || (text_eq rule (codes "SAT007"))
    then payout (codes "Access control") (codes "State lockout / missing access guard")
        (codes "class") 2
    else if text_eq rule (codes "SAT008")
    then payout (codes "CPI depth") (codes "CPI beyond depth 4") (codes "class") 1
    else if text_eq rule (codes "SAT009")
    then payout (codes "Sysvar misuse") (codes "Sysvar used without declaring the account")
        (codes "class") 1
    else if text_eq rule (codes "SAT003")
    then payout (codes "State not mut") (codes "Account written without `mut`") (codes "class") 1
    else none

unfoldable pub severity_rank : Severity → ℕ
severity_rank Severity.critical = 5
severity_rank Severity.high = 4
severity_rank Severity.medium = 3
severity_rank Severity.low = 2
severity_rank Severity.informational = 1

unfoldable pub confidence_rank : Confidence → ℕ
confidence_rank Confidence.high = 3
confidence_rank Confidence.medium = 2
confidence_rank Confidence.low = 1

pub record Lead : Type 0 where
  pub finding : Finding
  pub rule : Text
  pub class : PayoutClass
  pub score : ℕ

-- The class of a rule that `payout_class` does not know.
abbrev pub unclassified : PayoutClass
unclassified = record {
  class = codes "Unclassified";
  impact = codes "—";
  precedent = codes "—";
  weight = 1;
}

unfoldable pub class_of : Text → PayoutClass
unfolding payout_class
class_of rule = unwrap_or (payout_class rule) unclassified

-- `Lead::new`. A product of these ranks fits 32 bits.
unfoldable pub new_lead : Finding → Lead
unfolding class_of severity_rank confidence_rank
new_lead finding =
    let rule = classify_finding_rule finding in
    let class = class_of rule in
    record {
      finding = finding;
      rule = rule;
      class = class;
      score = class.weight * severity_rank finding.severity * confidence_rank (confidence finding);
    }

unfoldable pub is_primary : Lead → Bool
is_primary l = elim (confidence l.finding) [ Confidence.low ↦ false | _ ↦ true ]

-- The comparison of `build_leads`.
unfoldable pub lead_cmp : Lead → Lead → Ordering
unfolding ordinal
lead_cmp a b = then_with (compare b.score a.score) (
    then_with (compare (ordinal b.finding.severity) (ordinal a.finding.severity))
      (text_cmp a.finding.title b.finding.title))

unfoldable pub build_leads : List Finding → List Lead
unfolding lead_cmp
build_leads findings = sort_by lead_cmp (map new_lead findings)
