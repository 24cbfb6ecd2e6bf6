-- ===== src/Sat/Accounting.antt =====
-- crates/sat/src/accounting.rs: the checks over the ordered events of an instruction. Collecting the events
-- from the syntax tree is not modelled; hash sets are lists.
pub mod Drift
pub mod Uses
use mathlib.Core.List.{flatten, flat_map}
use solana_audit_toolkit.Prelude.{
  Text, codes, text_eq, decimal, ℕ, Bool, true, false, not, ◌&&◌, Option, none, some, List, [], ◌∷◌,
  ◌++◌, map, any, find, is_empty, if◌then◌else◌,
}
use solana_audit_toolkit.Sat.Types.{Finding, Severity}
use solana_audit_toolkit.Sat.Native.Model.{NativeInstruction}

pub data Event : Type 0 where
  balance_read : (local account : Text) → Event
  token_cpi : (accounts amount_idents : List Text) → Event
  use_of : Event
  ledger_write : (field : Text) → Event

abbrev sat039_title : Text
sat039_title = codes "Accounting Drift:"

unfoldable pub location : NativeInstruction → Text
location ix =
    flatten (ix.file ∷ codes ":" ∷ decimal ix.line ∷ codes " (" ∷ ix.name ∷ codes ")" ∷ [])

-- The local that a balance read of the account is bound to.
unfoldable pub read_of : Text → Event → Option Text
read_of account (balance_read local a) = if text_eq a account then some local else none
read_of account _ = none

-- `find` of a balance read of the account
unfoldable pub pre_read : Text → List Event → Option Text
unfolding read_of
pre_read account [] = none
pre_read account (e ∷ events) =
    let rest = pre_read account events in
    elim (read_of account e) [ some local ↦ some local | none ↦ rest ]

unfoldable pub stale_finding : NativeInstruction → Text → Text → Finding
unfolding location
stale_finding ix account local = record {
  id = [];
  title = flatten (sat039_title ∷ codes " `" ∷ account ∷ codes "`" ∷ []);
  severity = Severity.medium;
  description = flatten (
      codes "Instruction `"
      ∷ ix.name
      ∷ codes "` reads `"
      ∷ account
      ∷ codes "`.amount into `"
      ∷ local
      ∷ codes "`, then performs a token transfer touching `"
      ∷ account
      ∷ codes
          "` — and never re-reads the balance afterwards. Fee-on-transfer, transfer-hook and Token-2022 extension accounting change the actual balance delta versus the assumed one, so `"
      ∷ local
      ∷ codes
          "` is stale the moment the CPI lands. Confirm the exact token program semantics before escalating."
      ∷ []);
  location = some (location ix);
  suggestion = some (
      flatten (
        codes "Re-read `"
        ∷ account
        ∷ codes "`.amount after the CPI (or use the CPI return value) instead of carrying `"
        ∷ local
        ∷ codes "` across it."
        ∷ []));
}

-- The loop over the accounts of a token CPI: the first that was read before it and is not read after it.
unfoldable pub stale_account : List Event → List Event → List Text → Option (Text × Text)
unfolding pre_read
stale_account before after [] = none
stale_account before after (account ∷ accounts) =
    let rest = stale_account before after accounts in
    elim (pre_read account before) [
      | none ↦ rest
      | some local ↦ elim (pre_read account after) [ some _ ↦ rest | none ↦ some (account, local) ]
    ]

unfoldable pub stale_at : List Event → Event → List Event → Option (Text × Text)
unfolding stale_account
stale_at before (token_cpi accounts amount_idents) after = stale_account before after accounts
stale_at before _ after = none

-- The loop over the events, with those before the current one.
unfoldable pub stale_from : List Event → List Event → Option (Text × Text)
unfolding stale_at
stale_from before [] = none
stale_from before (e ∷ after) =
    let rest = stale_from (before ++ (e ∷ [])) after in
    elim (stale_at before e after) [ some found ↦ some found | none ↦ rest ]

unfoldable pub stale_balance_findings : NativeInstruction → List Event → Option Finding
unfolding stale_from stale_finding
stale_balance_findings ix events = elim (stale_from [] events) [
  | none ↦ none
  | some (account, local) ↦ some (stale_finding ix account local)
]

unfoldable pub amounts_of : Event → List Text
amounts_of (token_cpi accounts amount_idents) = amount_idents
amounts_of _ = []

-- `seen_fields.insert` and `cpi_amounts.contains_key`: the fields that are reported.
unfoldable pub mirrored : List Text → List Text → List Event → List Text
mirrored cpi_amounts seen_fields [] = []
mirrored cpi_amounts seen_fields (ledger_write field ∷ events) =
    let seen = any (text_eq field) seen_fields in
    let rest = mirrored cpi_amounts (if seen then seen_fields else field ∷ seen_fields) events in
    if not seen && any (text_eq field) cpi_amounts then field ∷ rest else rest
mirrored cpi_amounts seen_fields (_ ∷ events) = mirrored cpi_amounts seen_fields events

unfoldable pub mirror_finding : NativeInstruction → Text → Finding
unfolding location
mirror_finding ix field = record {
  id = [];
  title = flatten (sat039_title ∷ codes " `" ∷ field ∷ codes "`" ∷ []);
  severity = Severity.high;
  description = flatten (
      codes "Instruction `"
      ∷ ix.name
      ∷ codes "` updates the internal ledger field `"
      ∷ field
      ∷ codes
          "` using the same value that feeds a token-program transfer/mint/burn. If the token program applies fees, hooks or extension accounting, the on-chain delta diverges from `"
      ∷ field
      ∷ codes "` by design — internal accounting silently drifts from real balances."
      ∷ []);
  location = some (location ix);
  suggestion = some (
      flatten (
        codes "Re-read the actual post-CPI balance and reconcile `"
        ∷ field
        ∷ codes "` against it, or use `transfer_checked` with explicit decimals and fee-aware math."
        ∷ []));
}

unfoldable pub ledger_mirror_findings : NativeInstruction → List Event → List Finding
unfolding mirrored mirror_finding amounts_of
ledger_mirror_findings ix events =
    let cpi_amounts = flat_map amounts_of events in
    if is_empty cpi_amounts then [] else map (mirror_finding ix) (mirrored cpi_amounts [] events)

unfoldable pub option_list {ℓ} : {A : Type ℓ} → Option A → List A
option_list none = []
option_list (some a) = a ∷ []

-- `analyze_instruction`, once the events are collected.
unfoldable pub analyze_events : NativeInstruction → List Event → List Finding
unfolding stale_balance_findings ledger_mirror_findings option_list
analyze_events ix events =
    option_list (stale_balance_findings ix events) ++ ledger_mirror_findings ix events
