-- ===== src/Sat/Native/Validate/Reports.antt =====
-- crates/sat/src/native/rules/validate.rs: `sat031_findings` against the chains that the comparisons span.
use mathlib.Core.Path.{subst}
use mathlib.Core.List.Memᴰ
use mathlib.Core.List.{Memᴰ}
use solana_audit_toolkit.Prelude.{
  ℕ, ◌≡◌, ◌≢◌, refl, sym, ◌∙◌, List, [], ◌∷◌, IsPairwise, All, members-All, inl, inr,
}
use solana_audit_toolkit.Sat.Native.Validate.{Comparison}
use solana_audit_toolkit.Sat.Native.Validate.Forest.{Linked}
use solana_audit_toolkit.Sat.Native.Validate.Start.{chain_steps}
use solana_audit_toolkit.Sat.Native.Validate.Reported.{
  reported_from-Loud, Loud-reported_from, reported_from-different,
}
use solana_audit_toolkit.Sat.Native.Validate.Risk.{
  size, AtRisk, reported, after, roots, h, root_among, among_root, same_chain, loud-AtRisk,
  AtRisk-Tests, Tests-is_quiet,
}
use solana_audit_toolkit.Sat.Native.Validate.Report.{
  forest_of, flattened, reported_from, reported_roots,
}

IsPairwise-imp :
    (R S : ℕ → ℕ → Type 0) (xs : List ℕ)
    → IsPairwise R xs
    → ((x y : ℕ) → Memᴰ x xs → Memᴰ y xs → R x y → S x y)
    → IsPairwise S xs
IsPairwise-imp R S [] p h = tt
IsPairwise-imp R S (x ∷ xs) p h = (
  members-All (S x) xs (λ y m. h x y (Memᴰ.head refl) (Memᴰ.tail m) (All-member (R x) xs p.0 y m)),
  IsPairwise-imp R S xs p.1 (λ y z m n. h y z (Memᴰ.tail m) (Memᴰ.tail n)),
)
  where
    All-member : (P : ℕ → Type 0) (xs : List ℕ) → All P xs → (x : ℕ) → Memᴰ x xs → P x
    All-member P [] a x m = absurd (Memᴰ.not-nil m)
    All-member P (y ∷ ys) a x m = elim (Memᴰ.cases_cons m) [
      | inl e ↦ subst P (sym e) a.0
      | inr t ↦ All-member P ys a.1 x t
    ]

module _ (canonical : List ℕ) (comparisons : List Comparison) where
  reported_lem :
      reported canonical comparisons
      ≡ reported_from
          (after canonical comparisons)
          (roots canonical comparisons)
          []
          (roots canonical comparisons)
  unfolding reported after roots flattened forest_of reported_roots
  reported_lem = refl

  pub reported-AtRisk :
      (r : ℕ) → Memᴰ r (reported canonical comparisons) → AtRisk canonical comparisons r
  reported-AtRisk r m =
      let l =
        reported_from-Loud (after canonical comparisons) (roots canonical comparisons) []
          (roots canonical comparisons) r (subst (Memᴰ r) reported_lem m) in
      loud-AtRisk canonical comparisons r l.among l.loud

  -- Every node of a chain at risk is in the chain of a root that is reported.
  pub AtRisk-reported :
      (i : ℕ)
      → AtRisk canonical comparisons i
      → (r : ℕ) × Memᴰ r (reported canonical comparisons)
        × Linked (chain_steps canonical comparisons) i r
  unfolding size
  AtRisk-reported i v =
      let r = (h canonical comparisons).root i in
      (
        r,
        subst (Memᴰ r) (sym reported_lem) (
            Loud-reported_from (after canonical comparisons) (roots canonical comparisons) []
              (roots canonical comparisons) r
              (record {
                among = among_root canonical comparisons i v.in_range;
                unseen = refl;
                loud =
                    Tests-is_quiet canonical comparisons r (AtRisk-Tests canonical comparisons i v);
              })),
        (h canonical comparisons).linked i,
      )

  is_root : (r : ℕ) → Memᴰ r (reported canonical comparisons) → (h canonical comparisons).root r ≡ r
  is_root r m =
      (root_among canonical comparisons r
        (reported_from-Loud (after canonical comparisons) (roots canonical comparisons) []
          (roots canonical comparisons) r (subst (Memᴰ r) reported_lem m)).among).0

  -- No chain is reported twice: no two of the roots that are reported are linked.
  pub reported_once :
      IsPairwise
        (λ r s. ¬ Linked (chain_steps canonical comparisons) r s)
        (reported canonical comparisons)
  reported_once =
      IsPairwise-imp (λ r s. r ≢ s) (λ r s. ¬ Linked (chain_steps canonical comparisons) r s)
        (reported canonical comparisons)
        (subst (IsPairwise (λ r s. r ≢ s)) (sym reported_lem) (
          reported_from-different (after canonical comparisons) (roots canonical comparisons) []
            (roots canonical comparisons)))
        (λ r s m n differ l.
          differ (sym (is_root r m) ∙ (same_chain canonical comparisons l ∙ is_root s n)))
