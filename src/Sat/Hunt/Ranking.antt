-- ===== src/Sat/Hunt/Ranking.antt =====
-- The ranking of leads (crates/sat/src/hunt.rs).
use Prim.Native.Nat.Ordering.{gt}
use solana_audit_toolkit.Prelude.{
  Text, ℕ, ◌*◌, ◌≤◌, ◌<◌, ◌≡◌, ◌≢◌, ◌⊎◌, ap, List, map, arith, IsPairwise, Perm, sort_by-perm,
  sort_by-IsPairwise,
}
use solana_audit_toolkit.Sat.Types.{Severity, ordinal, Confidence, confidence, Finding}
use solana_audit_toolkit.Sat.Rules.{classify_finding_rule}
use solana_audit_toolkit.Sat.Hunt.{
  Lead, payout_class, class_of, severity_rank, confidence_rank, new_lead, lead_cmp, build_leads,
}

-- `a` may stand before `b`: it has the higher score, or the same score and a severity that is not
-- graver.
abbrev pub RanksBefore : Lead → Lead → Type 0
RanksBefore a b =
    (b.score < a.score)
    ⊎ (a.score ≡ b.score) × (ordinal b.finding.severity ≤ ordinal a.finding.severity)

RanksBefore-of_le : (a b : Lead) → lead_cmp a b ≢ gt → RanksBefore a b
unfolding lead_cmp
RanksBefore-of_le a b h = ground arith

RanksBefore-of_gt : (a b : Lead) → lead_cmp a b ≡ gt → RanksBefore b a
unfolding lead_cmp
RanksBefore-of_gt a b h = ground arith

RanksBefore-trans : (a b c : Lead) → RanksBefore a b → RanksBefore b c → RanksBefore a c
RanksBefore-trans a b c h k = ground arith

-- `build_leads` ranks the leads of the findings, each once, by falling score; among leads of one
-- score the less grave severities come first.
pub build_leads_lem :
    (fs : List Finding)
    → IsPairwise RanksBefore (build_leads fs) × Perm (build_leads fs) (map new_lead fs)
unfolding build_leads
build_leads_lem fs = (
  sort_by-IsPairwise lead_cmp RanksBefore RanksBefore-of_le RanksBefore-of_gt RanksBefore-trans
      (map new_lead fs),
  sort_by-perm lead_cmp (map new_lead fs),
)

weight_bounds : (rule : Text) → (1 ≤ (class_of rule).weight) × ((class_of rule).weight ≤ 3)
unfolding class_of payout_class
weight_bounds rule = ground arith

score_bounds_of :
    (w s c : ℕ) → 1 ≤ w → w ≤ 3 → 1 ≤ s → s ≤ 5 → 1 ≤ c → c ≤ 3 → (1 ≤ w * s * c) × (w * s * c ≤ 45)
score_bounds_of w s c h1 h2 h3 h4 h5 h6 = grind arith

severity_rank_bounds : (s : Severity) → (1 ≤ severity_rank s) × (severity_rank s ≤ 5)
unfolding severity_rank
severity_rank_bounds s = ground arith

confidence_rank_bounds : (c : Confidence) → (1 ≤ confidence_rank c) × (confidence_rank c ≤ 3)
unfolding confidence_rank
confidence_rank_bounds c = ground arith

-- A score lies between 1 and 45, so no product of ranks overflows 32 bits.
pub score_bounds : (f : Finding) → (1 ≤ (new_lead f).score) × ((new_lead f).score ≤ 45)
unfolding new_lead
score_bounds f =
    let w = weight_bounds (classify_finding_rule f) in
    let s = severity_rank_bounds f.severity in
    let c = confidence_rank_bounds (confidence f) in score_bounds_of _ _ _ w.0 w.1 s.0 s.1 c.0 c.1

outranks_of :
    {v w s t c d : ℕ} → v ≡ w → s ≡ 5 → c ≡ 1 → t ≡ 1 → d ≡ 3 → 1 ≤ w → w * t * d < v * s * c
outranks_of h k l m n p = rw (h, k, l, m, n) omega arith

-- Of two findings of one rule, a critical one of low confidence outranks an informational one of
-- high confidence.
pub low_confidence_outranks :
    (a b : Finding)
    → classify_finding_rule a ≡ classify_finding_rule b
    → a.severity ≡ Severity.critical
    → confidence a ≡ Confidence.low
    → b.severity ≡ Severity.informational
    → confidence b ≡ Confidence.high
    → (new_lead b).score < (new_lead a).score
unfolding new_lead severity_rank confidence_rank
low_confidence_outranks a b r s c t d =
    outranks_of (ap (λ rule. (class_of rule).weight) r) (ap severity_rank s) (ap confidence_rank c)
      (ap severity_rank t) (ap confidence_rank d) (weight_bounds (classify_finding_rule b)).0
