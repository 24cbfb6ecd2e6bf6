-- ===== src/Sat/Native/Validate/Moves.antt =====
-- crates/sat/src/native/rules/validate.rs: the root of each node after `union` links two roots.
use mathlib.Core.Path.{subst}
use solana_audit_toolkit.Prelude.{
  ℕ, suc, ◌<◌, ◌==◌, ==_iff, ◌≡◌, ◌≢◌, ◌⊎◌, inl, inr, refl, sym, ◌∙◌, false, List, length, set,
  if◌then◌else◌, Bool-cases, false_ne_true,
}
use solana_audit_toolkit.Sat.Native.Validate.UnionFind.{UnionFind}
use solana_audit_toolkit.Sat.Native.Validate.Roots.{chase, IsRoot, chase-parent_of}
use solana_audit_toolkit.Sat.Native.Validate.Links.{IsRoot-other, chase_other, chase_joined}
use solana_audit_toolkit.Sat.Native.Validate.Forest.{Step, Holds, Holds-IsShallow}

module _ {steps : List Step} {d : ℕ} {uf : UnionFind} (h : Holds steps d uf) (a b : ℕ) where
  -- The root of a node afterwards.
  unfoldable pub new_root : ℕ → ℕ
  new_root i = if h.root i == h.root b then h.root a else h.root i

  pub moved : (i : ℕ) → h.root i ≡ h.root b → new_root i ≡ h.root a
  unfolding new_root
  moved i e = rw ((==_iff (h.root i) (h.root b)).1 e) refl

  pub kept : (i : ℕ) → h.root i ≢ h.root b → new_root i ≡ h.root i
  unfolding new_root
  kept i n = elim (Bool-cases (h.root i == h.root b)) [
    | inl e ↦ absurd (n ((==_iff (h.root i) (h.root b)).0 e))
    | inr e ↦ rw e refl
  ]

  -- Either way a node goes.
  pub new_root_cases :
      (i : ℕ)
      → ((h.root i ≡ h.root b) × (new_root i ≡ h.root a))
        ⊎ ((h.root i ≢ h.root b) × (new_root i ≡ h.root i))
  new_root_cases i = elim (Bool-cases (h.root i == h.root b)) [
    | inl e ↦ inl ((==_iff (h.root i) (h.root b)).0 e, moved i ((==_iff (h.root i) (h.root b)).0 e))
    | inr e ↦ inr (differs e, kept i (differs e))
  ]
    where
      differs : (h.root i == h.root b) ≡ false → h.root i ≢ h.root b
      differs e q = false_ne_true (sym e ∙ (==_iff (h.root i) (h.root b)).1 q)

  module _ (a_in : a < length uf.parent) (b_in : b < length uf.parent)
      (apart : h.root a ≢ h.root b) where
    in_range : h.root b < length uf.parent
    in_range = h.bounded b b_in

    pub new_root-IsRoot : (i : ℕ) → IsRoot (set uf.parent (h.root b) (h.root a)) (new_root i)
    new_root-IsRoot i = elim (new_root_cases i) [
      | inl (e, q) ↦
          subst (IsRoot (set uf.parent (h.root b) (h.root a))) (sym q)
            (IsRoot-other uf.parent (h.root a) (h.root b) in_range (h.root a) (h.stays a) apart)
      | inr (n, q) ↦
          subst (IsRoot (set uf.parent (h.root b) (h.root a))) (sym q)
            (IsRoot-other uf.parent (h.root a) (h.root b) in_range (h.root i) (h.stays i) n)
    ]

    pub chase_linked : (i : ℕ) → chase (suc d) (set uf.parent (h.root b) (h.root a)) i ≡ new_root i
    unfolding chase
    chase_linked i = elim (new_root_cases i) [
      | inl (e, q) ↦
          chase_joined uf.parent (h.root a) (h.root b) in_range d i (h.stays a) apart
            (h.rooted i ∙ e)
          ∙ sym q
      | inr (n, q) ↦
          chase_other uf.parent (h.root a) (h.root b) in_range (suc d) i (h.root i) (h.stays b) n
            (h.stays i) (chase-parent_of d uf.parent i (Holds-IsShallow h) ∙ h.rooted i)
          ∙ sym q
    ]
