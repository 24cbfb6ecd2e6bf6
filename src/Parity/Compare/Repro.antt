-- ===== src/Parity/Compare/Repro.antt =====
-- `minimal_repro` of crates/parity/src/engine.rs reproduces what `compare` found, and no shorter
-- beginning of the scenario diverges.
use solana_audit_toolkit.Prelude.{
  ℕ, suc, ◌+◌, ◌≤◌, ◌<◌, ◌≡◌, refl, sym, ◌∙◌, Option, none, some, List, [], ◌∷◌, ◌++◌, All, arith,
  length, take, length-take, min, first, codes,
}
use solana_audit_toolkit.Parity.Scenario.{Scenario}
use solana_audit_toolkit.Parity.Model.{ProgramModel}
use solana_audit_toolkit.Parity.Engine.{
  ComparisonReport, Divergence, Violation, minimal_repro, repro_cut,
}
use mathlib.Core.Option
use solana_audit_toolkit.Parity.Compare.{compare, report_of, effective_invariants}
use solana_audit_toolkit.Parity.Compare.Growth.{DivergesIn, ViolatesIn, first_index}
use solana_audit_toolkit.Parity.Compare.Prefix.{
  prefix, first_divergence_op_lem, compare-placed, compare-prefix,
}

-- The first of a list that is cut where its first element still belongs to the first part.
first_index_kept :
    (n k : ℕ) (part later whole : List Divergence)
    → whole ≡ part ++ later
    → All (λ (d : Divergence). n ≤ d.op_index) later
    → first_index whole ≡ some k
    → k < n
    → first_index part ≡ some k
first_index_kept n k (d ∷ part) later whole e h f lt = rw e at f
first_index_kept n k [] [] whole e h f lt = rw e at f
first_index_kept n k [] (d ∷ later) whole e h f lt = absurd (ground arith)

first_index_beyond :
    (n k : ℕ) (part later whole : List Divergence)
    → whole ≡ part ++ later
    → All (DivergesIn 0 n) part
    → first_index whole ≡ some k
    → n ≤ k
    → part ≡ []
first_index_beyond n k [] later whole e h f le = refl
first_index_beyond n k (d ∷ part) later whole e h f le = absurd (ground arith)

first_index_below :
    (n k : ℕ) (ds : List Divergence) → All (DivergesIn 0 n) ds → first_index ds ≡ some k → k < n
first_index_below n k [] h f = absurd (cc)
first_index_below n k (d ∷ ds) h f = ground arith

first_index-none : (ds : List Divergence) → first_index ds ≡ none → ds ≡ []
first_index-none [] h = refl
first_index-none (d ∷ ds) h = absurd (cc)

module _ {E A : Type 0} (em : ProgramModel E) (am : ProgramModel A) (s : Scenario) (e : E)
    (a : A) where
  first_below : (k : ℕ) → (compare em am s e a).first_divergence_op ≡ some k → k < length s.ops
  first_below k f =
      first_index_below (length s.ops) k (compare em am s e a).divergences
        (compare-placed em am s e a).0 (sym (first_divergence_op_lem em am s e a) ∙ f)

  -- No beginning of the scenario that ends at or before the first divergent operation diverges.
  pub prefix_clean :
      (k n : ℕ)
      → (compare em am s e a).first_divergence_op ≡ some k
      → n ≤ k
      → (compare em am (prefix n s) e a).divergences ≡ []
  prefix_clean k n f le =
      let c = compare-prefix em am s e a n (omega (arith, first_below k f)) in
      first_index_beyond n k _ c.later _ c.divergences_split c.divergences_before
        (sym (first_divergence_op_lem em am s e a) ∙ f) le

  -- Cut after its first divergent operation, the scenario diverges first at that operation.
  pub prefix_diverges :
      (k : ℕ)
      → (compare em am s e a).first_divergence_op ≡ some k
      → (compare em am (prefix (suc k) s) e a).first_divergence_op ≡ some k
  prefix_diverges k f =
      let c = compare-prefix em am s e a (suc k) (first_below k f) in
      first_divergence_op_lem em am (prefix (suc k) s) e a
      ∙ first_index_kept (suc k) k _ c.later _ c.divergences_split c.divergences_after
          (sym (first_divergence_op_lem em am s e a) ∙ f) (omega arith)

-- `op_index` of the first of some violations.
abbrev pub first_violation : List Violation → Option ℕ
first_violation vs = Option.map (λ (v : Violation). v.op_index) (first vs)

first_violation_kept :
    (n k : ℕ) (part later whole : List Violation)
    → whole ≡ part ++ later
    → All (λ (v : Violation). n ≤ v.op_index) later
    → first_violation whole ≡ some k
    → k < n
    → first_violation part ≡ some k
first_violation_kept n k (d ∷ part) later whole e h f lt = rw e at f
first_violation_kept n k [] [] whole e h f lt = rw e at f
first_violation_kept n k [] (d ∷ later) whole e h f lt = absurd (ground arith)

first_violation_below :
    (n k : ℕ) (vs : List Violation) → All (ViolatesIn 0 n) vs → first_violation vs ≡ some k → k < n
first_violation_below n k [] h f = absurd (cc)
first_violation_below n k (d ∷ ds) h f = ground arith

-- The scenario that `minimal_repro` builds where it keeps `suc k` operations.
ops-minimal_repro :
    (r : ComparisonReport) (s : Scenario) (k : ℕ)
    → repro_cut r s ≡ k + 1
    → k < length s.ops
    → minimal_repro r s ≡ record s { ops = take (suc k) s.ops; name = s.name ++ codes "-minimal" }
unfolding minimal_repro
ops-minimal_repro r s k c lt =
    let kept : min (k + 1) (length s.ops) ≡ suc k = omega arith in rw (c, kept)

module _ {E A : Type 0} (em : ProgramModel E) (am : ProgramModel A) (s : Scenario) (e : E)
    (a : A) where
  cut_scenario : ℕ → Scenario
  cut_scenario k = record s { ops = take (suc k) s.ops; name = s.name ++ codes "-minimal" }

  repro_of_divergence :
      (k : ℕ)
      → (compare em am s e a).first_divergence_op ≡ some k
      → minimal_repro (compare em am s e a) s ≡ cut_scenario k
  unfolding repro_cut cut_scenario
  repro_of_divergence k f =
      ops-minimal_repro (compare em am s e a) s k (rw f) (first_below em am s e a k f)

  cut_diverges :
      (k : ℕ)
      → (compare em am s e a).first_divergence_op ≡ some k
      → (compare em am (cut_scenario k) e a).first_divergence_op ≡ some k
  unfolding cut_scenario compare report_of effective_invariants prefix
  cut_diverges k f = prefix_diverges em am s e a k f

  repro_of_violation :
      (k : ℕ)
      → (compare em am s e a).first_divergence_op ≡ none
      → first_violation (compare em am s e a).violations ≡ some k
      → k < length s.ops
      → minimal_repro (compare em am s e a) s ≡ cut_scenario k
  unfolding repro_cut cut_scenario
  repro_of_violation k f v lt = ops-minimal_repro (compare em am s e a) s k (rw (f, v)) lt

  cut_violates :
      (k : ℕ)
      → first_violation (compare em am s e a).violations ≡ some k
      → k < length s.ops
      → first_violation (compare em am (cut_scenario k) e a).violations ≡ some k
  unfolding cut_scenario compare report_of effective_invariants prefix
  cut_violates k v lt =
      let c = compare-prefix em am s e a (suc k) lt in
      first_violation_kept (suc k) k _ c.later_violations _ c.violations_split c.violations_after v
        (omega arith)

  -- Where `compare` found no divergence, and a first violation at operation `k`, the minimal repro
  -- has the `k + 1` first operations and its first violation is at `k` again.
  pub minimal_repro_violates :
      (k : ℕ)
      → (compare em am s e a).first_divergence_op ≡ none
      → first_violation (compare em am s e a).violations ≡ some k
      → let repro = minimal_repro (compare em am s e a) s in
        (length repro.ops ≡ k + 1) × (first_violation (compare em am repro e a).violations ≡ some k)
  minimal_repro_violates k f v =
      let lt = first_violation_below (length s.ops) k _ (compare-placed em am s e a).1 v in
      rw (repro_of_violation k f v lt)
        (unfold cut_scenario in omega (arith, length-take (suc k) s.ops lt), cut_violates k v lt)

  -- Where `compare` found a first divergence at operation `k`, the minimal repro has the `k + 1`
  -- first operations, it diverges first at `k` again, and its first `n` operations, for an `n` that
  -- is at most `k`, do not diverge.
  pub minimal_repro_lem :
      (k n : ℕ)
      → (compare em am s e a).first_divergence_op ≡ some k
      → n ≤ k
      → let repro = minimal_repro (compare em am s e a) s in
        (length repro.ops ≡ k + 1)
        × ((compare em am repro e a).first_divergence_op ≡ some k)
        × ((compare em am (prefix n repro) e a).divergences ≡ [])
  minimal_repro_lem k n f le = rw (repro_of_divergence k f) (
    unfold cut_scenario in omega (arith, length-take (suc k) s.ops (first_below em am s e a k f)),
    cut_diverges k f,
    prefix_clean em am (cut_scenario k) e a k n (cut_diverges k f) le,
  )
