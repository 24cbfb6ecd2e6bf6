-- ===== src/Sat/Native/Validate/Flatten.antt =====
-- crates/sat/src/native/rules/validate.rs: what `find` on every node gives.
use mathlib.Core.Path.{subst}
use mathlib.Core.List.Memᴰ
use mathlib.Core.List.{Memᴰ}
use solana_audit_toolkit.Prelude.{
  ℕ, zero, suc, ◌≤◌, ◌<◌, ◌==◌, ==_iff, ==_same, ◌≡◌, inl, inr, refl, sym, ◌∙◌, List, [], ◌∷◌, map,
  get_or-set, Bool-cases,
}
use solana_audit_toolkit.Sat.Native.Validate.UnionFind.{UnionFind, parent_of, find_root}
use solana_audit_toolkit.Sat.Native.Validate.Roots.{
  chase, IsRoot, IsShallow, chase-parent_of, chase_unique, find_root-Finds, not_in_place,
}
use solana_audit_toolkit.Sat.Native.Validate.Forest.{Step, Holds, Holds-IsShallow, Holds-flatter}
use solana_audit_toolkit.Sat.Native.Validate.Steps.{
  IsShallow-le, find_root-Holds, after_find, found_root,
}
use solana_audit_toolkit.Sat.Native.Validate.Report.{find_each}

-- After `find` a node is right below its root.
find_root_flat :
    (n d : ℕ) (p : List ℕ) (i : ℕ)
    → IsShallow d p
    → IsRoot p (chase n p i)
    → parent_of (find_root n p i).0 i ≡ chase d p i
unfolding find_root chase
find_root_flat zero d p i s h = h ∙ chase_unique d 0 p i s h
find_root_flat (suc n) d p i s h = elim (Bool-cases (parent_of p i == i)) [
  | inl e ↦
      rw (find_root, e) (let r = (==_iff (parent_of p i) i).0 e in r ∙ chase_unique d 0 p i s r)
  | inr e ↦
      rw (find_root, e)
        (let v = find_root-Finds n d p (parent_of p i) s h in
          get_or-set (find_root n p (parent_of p i)).0 i (find_root n p (parent_of p i)).1 i i
            (subst (λ m. i < m) (sym v.same_length) (not_in_place p i e))
          ∙ ((rw (==_same i) v.root) ∙ chase-parent_of d p i s))
]

module _ {steps : List Step} {d : ℕ} (fuel : ℕ) (enough : d ≤ fuel) where
  -- What `find` on some nodes in turn gives.
  pub record FindsEach {uf : UnionFind} (h : Holds steps d uf) (is : List ℕ) : Type 0 where
    pub holds : Holds steps d (record uf { parent = (find_each fuel uf.parent is).0 })
    pub same_roots : (i : ℕ) → holds.root i ≡ h.root i
    pub roots : (find_each fuel uf.parent is).1 ≡ map h.root is
    pub stays_flat :
        (i : ℕ)
        → parent_of uf.parent i ≡ h.root i
        → parent_of (find_each fuel uf.parent is).0 i ≡ h.root i
    pub flat : (i : ℕ) → Memᴰ i is → parent_of (find_each fuel uf.parent is).0 i ≡ h.root i

  stays_below :
      {uf : UnionFind} (h : Holds steps d uf) (k i : ℕ)
      → parent_of uf.parent i ≡ h.root i
      → parent_of (find_root fuel uf.parent k).0 i ≡ h.root i
  stays_below {uf} h k i e = elim ((find_root-Holds fuel enough h k).flatter i) [
    | inl t ↦ t ∙ e
    | inr t ↦ t ∙ h.rooted i
  ]

  below_root :
      {uf : UnionFind} (h : Holds steps d uf) (i : ℕ)
      → parent_of (find_root fuel uf.parent i).0 i ≡ h.root i
  below_root {uf} h i =
      find_root_flat fuel d uf.parent i (Holds-IsShallow h)
        (IsShallow-le fuel d uf.parent enough (Holds-IsShallow h) i)
      ∙ h.rooted i

  pub find_each-FindsEach : (is : List ℕ) {uf : UnionFind} (h : Holds steps d uf) → FindsEach h is
  unfolding find_each after_find Holds-flatter
  find_each-FindsEach [] h = record {
    holds = h;
    same_roots = λ i. refl;
    roots = refl;
    stays_flat = λ i e. e;
    flat = λ i m. absurd (Memᴰ.not-nil m);
  }
  find_each-FindsEach (k ∷ is) {uf} h =
      let later = find_each-FindsEach is (after_find fuel enough h k) in
      record {
        holds = later.holds;
        same_roots = later.same_roots;
        roots = rw (found_root fuel enough h k, later.roots) refl;
        stays_flat = λ i e. later.stays_flat i (stays_below h k i e);
        flat = λ i m. elim (Memᴰ.cases_cons m) [
          | inl e ↦ later.stays_flat i (
              subst (λ x. parent_of (find_root fuel uf.parent k).0 x ≡ h.root x) (sym e)
                (below_root h k))
          | inr l ↦ later.flat i l
        ];
      }
