-- ===== src/Sat/Config.antt =====
-- crates/sat/src/config.rs: the configuration `sat.toml` applied to a finding set, and the gate on
-- severities. Reading the file is not modelled; the map of overrides is an association list.
pub mod Applied
pub mod Outcome
use solana_audit_toolkit.Prelude.{
  Text, text_eq, contains, ℕ, Bool, not, Option, none, some, List, [], ◌∷◌, map, any, retain,
  is_empty, unwrap_or, or_else, leb, if◌then◌else◌,
}
use mathlib.Core.Option
use solana_audit_toolkit.Sat.Types.{Severity, ordinal, parse, Finding}
use solana_audit_toolkit.Sat.Rules.{classify_finding_rule}

pub record Config : Type 0 where
  pub fail_on : Option Text
  pub exclude : List Text
  pub disabled_rules : List Text
  pub severity_overrides : List (Text × Text)

unfoldable pub override_of : Text → List (Text × Text) → Option Text
override_of rule [] = none
override_of rule ((r, name) ∷ rest) = if text_eq r rule then some name else override_of rule rest

unfoldable pub is_disabled : Config → Finding → Bool
is_disabled c f = any (λ r. text_eq r (classify_finding_rule f)) c.disabled_rules

unfoldable pub is_excluded : Config → Finding → Bool
is_excluded c f =
    let loc : Text = unwrap_or f.location [] in any (λ pat. contains loc pat) c.exclude

-- The loop body over `severity_overrides`.
unfoldable pub override_severity : Config → Finding → Finding
unfolding override_of
override_severity c f = elim (override_of (classify_finding_rule f) c.severity_overrides) [
  | none ↦ f
  | some name ↦ elim (parse name) [ none ↦ f | some sev ↦ record f { severity = sev } ]
]

unfoldable pub apply : Config → List Finding → List Finding
apply c findings =
    let enabled =
      if not (is_empty c.disabled_rules)
      then retain (λ f. not (is_disabled c f)) findings
      else findings in
    let included =
      if not (is_empty c.exclude) then retain (λ f. not (is_excluded c f)) enabled else enabled in
    if not (is_empty c.severity_overrides) then map (override_severity c) included else included

-- `fail_on`: the command line wins over the file.
unfoldable pub fail_threshold : Config → Option Text → Option Severity
fail_threshold c cli = Option.bind (or_else cli c.fail_on) parse

unfoldable pub fails : List Finding → Severity → Bool
unfolding ordinal
fails findings threshold = any (λ f. leb (ordinal f.severity) (ordinal threshold)) findings
