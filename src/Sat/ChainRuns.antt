-- ===== src/Sat/ChainRuns.antt =====
-- Instances of the theorems on the chains of crates/sat/src/native/rules/validate.rs, and runs of them.
use mathlib.Core.Path.{subst}
use mathlib.Core.Logic.{◌↔◌}
use mathlib.Core.List.{Memᴰ}
use solana_audit_toolkit.Prelude.{
  codes, text_eq, ℕ, ◌≡◌, refl, sym, none, List, [], ◌∷◌, length, IsPairwise,
}
use solana_audit_toolkit.Sat.Native.Model.{NativeInstruction}
use solana_audit_toolkit.Sat.Native.Validate.{is_anchor, account_field, Comparison, comparison}
use solana_audit_toolkit.Sat.Native.Validate.UnionFind.{parent_of}
use solana_audit_toolkit.Sat.Native.Validate.Forest.{Linked}
use solana_audit_toolkit.Sat.Native.Validate.Start.{chain_steps}
use solana_audit_toolkit.Sat.Native.Validate.Risk.{AtRisk, reported}
use solana_audit_toolkit.Sat.Native.Validate.Parents.{parents, flattened_lem}
use solana_audit_toolkit.Sat.Native.Validate.Reports.{
  reported-AtRisk, AtRisk-reported, reported_once,
}
use solana_audit_toolkit.Sat.Native.Validate.Report.{flattened, forest_of}

-- The mint of one account against that of two others, and the owners of two more accounts.
abbrev mints : List Comparison
mints =
    comparison (account_field 0 (codes "mint")) (account_field 1 (codes "mint"))
    ∷ comparison (account_field 3 (codes "owner")) (account_field 4 (codes "owner"))
    ∷ comparison (account_field 2 (codes "mint")) (account_field 1 (codes "mint"))
    ∷ []

-- With the fourth account canonical, one chain is reported, under the root that the joins leave.
reported-mints : reported (3 ∷ []) mints ≡ 4 ∷ []
unfolding reported comparison is_anchor text_eq
reported-mints = refl

-- With a canonical account in each chain, none is.
reported_canonical : reported (3 ∷ 1 ∷ []) mints ≡ []
unfolding reported comparison is_anchor text_eq
reported_canonical = refl

reported_root : Memᴰ 4 (reported (3 ∷ []) mints)
reported_root = subst (Memᴰ 4) (sym reported-mints) (Memᴰ.head refl)

at_risk : AtRisk (3 ∷ []) mints 4
at_risk = reported-AtRisk (3 ∷ []) mints 4 reported_root

abbrev vault_ix : NativeInstruction
vault_ix = record {
  name = codes "withdraw";
  discriminator = none;
  handler = codes "process_withdraw";
  file = codes "processor.rs";
  line = 10;
  accounts = [];
}

AtRisk-reported_example :
    (r : ℕ) × Memᴰ r (reported (3 ∷ []) mints) × Linked (chain_steps (3 ∷ []) mints) 4 r
AtRisk-reported_example = AtRisk-reported (3 ∷ []) mints 4 at_risk

reported_once_example :
    IsPairwise (λ r s. ¬ Linked (chain_steps (3 ∷ []) mints) r s) (reported (3 ∷ []) mints)
reported_once_example = reported_once (3 ∷ []) mints

flattened_lem_example :
    (parents (3 ∷ []) mints ≡ (flattened (length mints) (forest_of (3 ∷ []) mints)).1)
    × (parent_of (parents (3 ∷ []) mints) (parent_of (parents (3 ∷ []) mints) 0)
        ≡ parent_of (parents (3 ∷ []) mints) 0)
    × ((parent_of (parents (3 ∷ []) mints) 0 ≡ parent_of (parents (3 ∷ []) mints) 4)
        ↔ Linked (chain_steps (3 ∷ []) mints) 0 4)
flattened_lem_example = flattened_lem (3 ∷ []) mints 0 4
