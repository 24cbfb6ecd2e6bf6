-- ===== src/Sat/Types.antt =====
-- crates/sat/src/types.rs: severities, findings and their confidence.
pub mod Review
use solana_audit_toolkit.Prelude.{
  Text, codes, text_eq, to_lowercase, trim, contains, ℕ, Bool, ◌||◌, Option, none, some, List, [],
  ◌∷◌, any, if◌then◌else◌, ◌++◌, not,
}

pub data Severity : Type 0 where
  critical high medium low informational : Severity

-- The derived order: `Critical` is the least.
unfoldable pub ordinal : Severity → ℕ
ordinal critical = 0
ordinal high = 1
ordinal medium = 2
ordinal low = 3
ordinal informational = 4

-- `Display`
unfoldable pub display : Severity → Text
display critical = codes "CRITICAL"
display high = codes "HIGH"
display medium = codes "MEDIUM"
display low = codes "LOW"
display informational = codes "INFO"

-- The names that `parse` compares with.
unfoldable pub parse_name : Text → Option Severity
parse_name s =
    if text_eq s (codes "critical") || text_eq s (codes "crit")
    then some Severity.critical
    else if text_eq s (codes "high")
    then some Severity.high
    else if text_eq s (codes "medium") || text_eq s (codes "med")
    then some Severity.medium
    else if text_eq s (codes "low")
    then some Severity.low
    else if text_eq s (codes "info") || text_eq s (codes "informational")
    then some Severity.informational
    else none

unfoldable pub parse : Text → Option Severity
unfolding parse_name
parse s = parse_name (to_lowercase (trim s))

unfoldable pub as_str : Severity → Text
as_str critical = codes "critical"
as_str high = codes "high"
as_str medium = codes "medium"
as_str low = codes "low"
as_str informational = codes "informational"

pub record Finding : Type 0 where
  pub id : Text
  pub title : Text
  pub severity : Severity
  pub description : Text
  pub location : Option Text
  pub suggestion : Option Text

pub data Confidence : Type 0 where
  high medium low : Confidence

-- The first disjunction of `confidence`, on the lower-case title.
unfoldable pub names_high : Text → Bool
names_high title =
    contains title (codes "tx-report mismatch")
    || (contains title (codes "discriminator collision")
        || (contains title (codes "writable sysvar")
            || (contains title (codes "missing owner constraint")
                || (contains title (codes "missing signer")
                    || (contains title (codes "token transfer cpi")
                        || contains title (codes "manual deserialization"))))))

-- The second disjunction.
unfoldable pub names_medium : Text → Bool
names_medium title =
    contains title (codes "unsafe arithmetic")
    || (contains title (codes "unsafe multiplication")
        || (contains title (codes "missing `has_one`")
            || (contains title (codes "missing `mut`")
                || (contains title (codes "serialization mismatch")
                    || (contains title (codes "reinitialization risk")
                        || (contains title (codes "init_if_needed")
                            || (contains title (codes "token-2022")
                                || (contains title (codes "transfer fee")
                                    || (contains title (codes "permanent delegate")
                                        || contains title (codes "interest-bearing"))))))))))

unfoldable pub confidence : Finding → Confidence
unfolding names_high names_medium
confidence f =
    let title = to_lowercase f.title in
    if names_high title
    then Confidence.high
    else if names_medium title
    then Confidence.medium
    else Confidence.low

unfoldable pub push_unique : List Text → Text → List Text
push_unique values value =
    if not (any (λ existing. text_eq existing value) values) then values ++ (value ∷ []) else values
