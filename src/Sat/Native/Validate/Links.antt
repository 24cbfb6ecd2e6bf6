-- ===== src/Sat/Native/Validate/Links.antt =====
-- crates/sat/src/native/rules/validate.rs: the parents after one root is put below another, as `union` does.
use solana_audit_toolkit.Prelude.{
  ℕ, zero, suc, ◌<◌, ◌==◌, ==_iff, ◌≡◌, ◌≢◌, inl, inr, refl, sym, ap, ◌∙◌, true, false, List,
  length, set, get_or-set, Bool-cases,
}
use solana_audit_toolkit.Sat.Native.Validate.UnionFind.{parent_of}
use solana_audit_toolkit.Sat.Native.Validate.Roots.{chase, IsRoot, chase-IsRoot}

module _ (p : List ℕ) (ra rb : ℕ) (in_range : rb < length p) where
  pub at_joined : (j : ℕ) → (rb == j) ≡ true → parent_of (set p rb ra) j ≡ ra
  at_joined j e = get_or-set p rb ra j j in_range ∙ (rw e refl)

  pub at_other : (j : ℕ) → (rb == j) ≡ false → parent_of (set p rb ra) j ≡ parent_of p j
  at_other j e = get_or-set p rb ra j j in_range ∙ (rw e refl)

  not-joined : (j : ℕ) → j ≢ rb → (rb == j) ≡ false
  not-joined j h = elim (Bool-cases (rb == j)) [
    | inl e ↦ absurd (h (sym ((==_iff rb j).0 e)))
    | inr e ↦ e
  ]

  -- The other roots stay roots.
  pub IsRoot-other : (r : ℕ) → IsRoot p r → r ≢ rb → IsRoot (set p rb ra) r
  IsRoot-other r h n = at_other r (not-joined r n) ∙ h

  pub chase_other :
      (k j r : ℕ)
      → IsRoot p rb
      → r ≢ rb
      → IsRoot p r
      → chase k p j ≡ r
      → chase k (set p rb ra) j ≡ r
  unfolding chase
  chase_other zero j r b n h e = e
  chase_other (suc k) j r b n h e = elim (Bool-cases (rb == j)) [
    | inl t ↦
        absurd (
          n (
            sym e ∙ (ap (chase (suc k) p) (sym ((==_iff rb j).0 t)) ∙ chase-IsRoot (suc k) p rb b)))
    | inr t ↦ ap (chase k (set p rb ra)) (at_other j t) ∙ chase_other k (parent_of p j) r b n h e
  ]

  pub chase_joined :
      (k j : ℕ) → IsRoot p ra → ra ≢ rb → chase k p j ≡ rb → chase (suc k) (set p rb ra) j ≡ ra
  unfolding chase
  chase_joined zero j a n e = at_joined j ((==_iff rb j).1 (sym e))
  chase_joined (suc k) j a n e = elim (Bool-cases (rb == j)) [
    | inl t ↦
        ap (chase (suc k) (set p rb ra)) (at_joined j t)
        ∙ chase-IsRoot (suc k) (set p rb ra) ra (IsRoot-other ra a n)
    | inr t ↦ ap (chase (suc k) (set p rb ra)) (at_other j t) ∙ chase_joined k (parent_of p j) a n e
  ]
