-- ===== src/Sat/Native/Validate/Steps.antt =====
-- crates/sat/src/native/rules/validate.rs: what the union-find holds after `union` and `mark_anchored`, with
-- fuel that reaches the roots.
use mathlib.Core.Path.{subst}
use solana_audit_toolkit.Prelude.{
  ℕ, zero, suc, ◌≤◌, ◌<◌, ◌≡◌, inl, inr, sym, ◌∙◌, List, [], ◌∷◌, ◌++◌, length, lt_or_le, arith,
}
use solana_audit_toolkit.Sat.Native.Validate.UnionFind.{UnionFind, find_root, link, join_nodes}
use solana_audit_toolkit.Sat.Native.Validate.Roots.{
  chase, IsRoot, IsShallow, chase-parent_of, Finds, find_root-Finds,
}
use solana_audit_toolkit.Sat.Native.Validate.Forest.{
  Step, links, Holds, Holds-IsShallow, Holds-flatter,
}
use solana_audit_toolkit.Sat.Native.Validate.Joins.{link-Holds}

IsShallow-deeper : (d : ℕ) (p : List ℕ) → IsShallow d p → IsShallow (suc d) p
unfolding chase
IsShallow-deeper d p s i = subst (IsRoot p) (sym (chase-parent_of d p i s)) (s i)

pub IsShallow-le : (n d : ℕ) (p : List ℕ) → d ≤ n → IsShallow d p → IsShallow n p
IsShallow-le zero d p l s = subst (λ k. IsShallow k p) (omega arith) s
IsShallow-le (suc n) d p l s = elim (lt_or_le n d) [
  | inl g ↦ subst (λ k. IsShallow k p) (omega arith) s
  | inr g ↦ IsShallow-deeper n p (IsShallow-le n d p g s)
]

module _ {steps : List Step} {d : ℕ} (fuel : ℕ) (enough : d ≤ fuel) where
  pub find_root-Holds :
      {uf : UnionFind} (h : Holds steps d uf) (i : ℕ)
      → Finds d uf.parent i (find_root fuel uf.parent i)
  find_root-Holds {uf} h i =
      find_root-Finds fuel d uf.parent i (Holds-IsShallow h)
        (IsShallow-le fuel d uf.parent enough (Holds-IsShallow h) i)

  -- What holds after a `find`, which keeps the roots.
  unfoldable pub after_find :
      {uf : UnionFind} (h : Holds steps d uf) (i : ℕ)
      → Holds steps d (record uf { parent = (find_root fuel uf.parent i).0 })
  unfolding Holds-flatter
  after_find {uf} h i =
      Holds-flatter (find_root fuel uf.parent i).0 h (find_root-Holds h i).flatter
        (find_root-Holds h i).same_length

  pub found_root :
      {uf : UnionFind} (h : Holds steps d uf) (i : ℕ) → (find_root fuel uf.parent i).1 ≡ h.root i
  found_root h i = (find_root-Holds h i).root ∙ h.rooted i

  pub join_nodes-Holds :
      {uf : UnionFind} (h : Holds steps d uf) (a b : ℕ)
      → a < length uf.parent
      → b < length uf.parent
      → Holds (steps ++ links a b ∷ []) (suc d) (join_nodes fuel a b uf)
  unfolding join_nodes after_find Holds-flatter
  join_nodes-Holds {uf} h a b a_in b_in =
      subst (λ r. Holds (steps ++ links a b ∷ []) (suc d) (link r rb after)) (sym (found_root h a))
        (subst (λ r. Holds (steps ++ links a b ∷ []) (suc d) (link (h.root a) r after))
          (sym (found_root h1 b))
          (link-Holds h2 a b (subst (λ n. a < n) (sym same) a_in)
            (subst (λ n. b < n) (sym same) b_in)))
    where
      h1 : Holds steps d (record uf { parent = (find_root fuel uf.parent a).0 })
      h1 = after_find h a

      rb : ℕ
      rb = (find_root fuel (find_root fuel uf.parent a).0 b).1

      after : UnionFind
      after = record uf { parent = (find_root fuel (find_root fuel uf.parent a).0 b).0 }

      h2 : Holds steps d after
      h2 = after_find h1 b

      same : length after.parent ≡ length uf.parent
      same = (find_root-Holds h1 b).same_length ∙ (find_root-Holds h a).same_length
