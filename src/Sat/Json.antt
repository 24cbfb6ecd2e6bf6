-- ===== src/Sat/Json.antt =====
-- crates/sat/src/json.rs: the counts of the findings by severity. The report itself is serde's.
use solana_audit_toolkit.Prelude.{ℕ, suc, ◌+◌, ◌≡◌, List, [], ◌∷◌, length, arith}
use solana_audit_toolkit.Sat.Types.{Finding, Severity}

pub record Counts : Type 0 where
  pub criticals : ℕ
  pub highs : ℕ
  pub mediums : ℕ
  pub lows : ℕ
  pub informationals : ℕ

-- The `match` of the loop.
unfoldable pub count_severity : Severity → Counts → Counts
count_severity Severity.critical c = record c { criticals = suc c.criticals }
count_severity Severity.high c = record c { highs = suc c.highs }
count_severity Severity.medium c = record c { mediums = suc c.mediums }
count_severity Severity.low c = record c { lows = suc c.lows }
count_severity Severity.informational c = record c { informationals = suc c.informationals }

unfoldable pub counts_from : Counts → List Finding → Counts
unfolding count_severity
counts_from c [] = c
counts_from c (f ∷ findings) = counts_from (count_severity f.severity c) findings

unfoldable pub counts : List Finding → Counts
unfolding counts_from
counts =
    counts_from (record { criticals = 0; highs = 0; mediums = 0; lows = 0; informationals = 0 })

abbrev pub total : Counts → ℕ
total c = c.criticals + c.highs + c.mediums + c.lows + c.informationals

total-count_severity : (s : Severity) (c : Counts) → total (count_severity s c) ≡ suc (total c)
unfolding count_severity
total-count_severity Severity.critical c = omega arith
total-count_severity Severity.high c = omega arith
total-count_severity Severity.medium c = omega arith
total-count_severity Severity.low c = omega arith
total-count_severity Severity.informational c = omega arith

total-counts_from :
    (c : Counts) (findings : List Finding)
    → total (counts_from c findings) ≡ total c + length findings
unfolding counts_from
total-counts_from c [] = omega arith
total-counts_from c (f ∷ findings) =
    let one = total-count_severity f.severity c in
    let others = total-counts_from (count_severity f.severity c) findings in omega arith

-- The counts add up to the number of the findings.
pub total-counts : (findings : List Finding) → total (counts findings) ≡ length findings
unfolding counts
total-counts findings =
    let from_zero =
      total-counts_from
        (record { criticals = 0; highs = 0; mediums = 0; lows = 0; informationals = 0 }) findings in
    omega arith
