-- ===== src/Sat/Native/Validate/Run.antt =====
-- crates/sat/src/native/rules/validate.rs: what the union-find holds after the comparisons of an instruction.
use mathlib.Core.Path.{subst}
use solana_audit_toolkit.Prelude.{
  ℕ, zero, suc, ◌+◌, ◌≤◌, ◌<◌, ◌==◌, ◌≡◌, inl, inr, refl, sym, ◌∙◌, some, List, [], ◌∷◌, ◌++◌,
  append-nil, append_assoc, length, length-set, Bool-cases, arith,
}
use solana_audit_toolkit.Sat.Native.Validate.{Node, Comparison}
use solana_audit_toolkit.Sat.Native.Validate.Chains.{ChainStep, skips, anchors, joins, chain_step}
use solana_audit_toolkit.Sat.Native.Validate.UnionFind.{
  UnionFind, parent_of, find_root, link, join_nodes, mark_anchored,
}
use solana_audit_toolkit.Sat.Native.Validate.Forest.{Step, links, marks, Holds, Holds-deeper}
use solana_audit_toolkit.Sat.Native.Validate.Steps.{join_nodes-Holds}
use solana_audit_toolkit.Sat.Native.Validate.Anchors.{mark_anchored-Holds}
use solana_audit_toolkit.Sat.Native.Validate.Nodes.{
  node_index-lt, StepKnown, chain_step-StepKnown, IsKnown, AllKnown,
}
use solana_audit_toolkit.Sat.Native.Validate.Report.{node_index, take_step, take_steps}

-- The steps that a comparison asks for, by the positions of its nodes.
unfoldable pub steps_of_one : List Node → ChainStep → List Step
unfolding node_index
steps_of_one nodes skips = []
steps_of_one nodes (anchors l r) = marks (node_index nodes l) ∷ marks (node_index nodes r) ∷ []
steps_of_one nodes (joins l r) = links (node_index nodes l) (node_index nodes r) ∷ []

unfoldable pub steps_of : List Node → List ℕ → List Comparison → List Step
unfolding steps_of_one chain_step
steps_of nodes canonical [] = []
steps_of nodes canonical (c ∷ cs) =
    steps_of_one nodes (chain_step canonical c) ++ steps_of nodes canonical cs

pub find_root-length : (n : ℕ) (p : List ℕ) (i : ℕ) → length (find_root n p i).0 ≡ length p
unfolding find_root
find_root-length zero p i = refl
find_root-length (suc n) p i = elim (Bool-cases (parent_of p i == i)) [
  | inl e ↦ rw (find_root, e) refl
  | inr e ↦
      rw (find_root, e)
        (length-set (find_root n p (parent_of p i)).0 i (find_root n p (parent_of p i)).1
          ∙ find_root-length n p (parent_of p i))
]

link-length : (ra rb : ℕ) (uf : UnionFind) → length (link ra rb uf).parent ≡ length uf.parent
unfolding link
link-length ra rb uf = elim (Bool-cases (ra == rb)) [
  | inl e ↦ rw (link, e) refl
  | inr e ↦ rw (link, e) (length-set uf.parent rb ra)
]

module _ (nodes : List Node) (fuel : ℕ) where
  -- After some steps, with the list of nodes as it was.
  pub record Reached (steps : List Step) (d : ℕ) (uf : UnionFind) : Type 0 where
    pub sized : length uf.parent ≡ length nodes
    pub holds : Holds steps d uf

  module _ {past : List Step} {d : ℕ} {uf : UnionFind} (enough : d ≤ fuel)
      (v : Reached past d uf) where
    in_range : (n : Node) → IsKnown nodes (some n) → node_index nodes n < length uf.parent
    in_range n k = subst (λ m. node_index nodes n < m) (sym v.sized) (node_index-lt n nodes k)

    joins-Reached :
        (l r : Node)
        → IsKnown nodes (some l)
        → IsKnown nodes (some r)
        → Reached
            (past ++ steps_of_one nodes (joins l r))
            (suc d)
            (take_step fuel nodes (joins l r) uf)
    unfolding steps_of_one take_step join_nodes
    joins-Reached l r kl kr = record {
      sized =
          link-length (find_root fuel uf.parent (node_index nodes l)).1
            (find_root fuel (find_root fuel uf.parent (node_index nodes l)).0
              (node_index nodes r)).1
            (record uf {
              parent =
                  (find_root fuel (find_root fuel uf.parent (node_index nodes l)).0
                    (node_index nodes r)).0;
            })
          ∙ (find_root-length fuel (find_root fuel uf.parent (node_index nodes l)).0
                (node_index nodes r)
              ∙ (find_root-length fuel uf.parent (node_index nodes l) ∙ v.sized));
      holds =
          join_nodes-Holds fuel enough v.holds (node_index nodes l) (node_index nodes r)
            (in_range l kl) (in_range r kr);
    }

    mark-Reached :
        (n : Node)
        → IsKnown nodes (some n)
        → Reached
            (past ++ marks (node_index nodes n) ∷ [])
            d
            (mark_anchored fuel (node_index nodes n) uf)
    unfolding mark_anchored
    mark-Reached n k = record {
      sized = find_root-length fuel uf.parent (node_index nodes n) ∙ v.sized;
      holds = mark_anchored-Holds fuel enough v.holds (node_index nodes n) (in_range n k);
    }

    deeper-Reached : Reached past (suc d) uf
    deeper-Reached = record { sized = v.sized; holds = Holds-deeper v.holds }

  module _ {past : List Step} {d : ℕ} {uf : UnionFind} (enough : d ≤ fuel)
      (v : Reached past d uf) where
    anchors-Reached :
        (l r : Node)
        → IsKnown nodes (some l)
        → IsKnown nodes (some r)
        → Reached
            (past ++ steps_of_one nodes (anchors l r))
            (suc d)
            (take_step fuel nodes (anchors l r) uf)
    unfolding steps_of_one take_step
    anchors-Reached l r kl kr =
        subst
          (λ s.
            Reached s (suc d) (
              mark_anchored fuel (node_index nodes r) (mark_anchored fuel (node_index nodes l) uf)))
          (append_assoc past (marks (node_index nodes l) ∷ []) (marks (node_index nodes r) ∷ []))
          (deeper-Reached enough (mark-Reached enough (mark-Reached enough v l kl) r kr))

    take_step-Reached :
        (s : ChainStep)
        → StepKnown nodes s
        → Reached (past ++ steps_of_one nodes s) (suc d) (take_step fuel nodes s uf)
    unfolding steps_of_one take_step
    take_step-Reached skips k =
        subst (λ s. Reached s (suc d) uf) (sym (append-nil past)) (deeper-Reached enough v)
    take_step-Reached (anchors l r) k = anchors-Reached l r k.0 k.1
    take_step-Reached (joins l r) k = joins-Reached enough v l r k.0 k.1

  pub take_steps-Reached :
      (canonical : List ℕ) (cs : List Comparison) (past : List Step) (d : ℕ) (uf : UnionFind)
      → AllKnown nodes cs
      → d + length cs ≤ fuel
      → Reached past d uf
      → Reached
          (past ++ steps_of nodes canonical cs)
          (d + length cs)
          (take_steps fuel nodes canonical cs uf)
  unfolding take_steps steps_of
  take_steps-Reached canonical [] past d uf k enough v =
      subst (λ n. Reached (past ++ []) n uf) (omega arith)
        (subst (λ s. Reached s d uf) (sym (append-nil past)) v)
  take_steps-Reached canonical (c ∷ cs) past d uf k enough v =
      subst
        (λ n.
          Reached (past ++ steps_of nodes canonical (c ∷ cs)) n
            (take_steps fuel nodes canonical (c ∷ cs) uf))
        (omega arith)
        (subst (λ s. Reached s (suc d + length cs) (take_steps fuel nodes canonical (c ∷ cs) uf))
          (append_assoc past (steps_of_one nodes (chain_step canonical c))
            (steps_of nodes canonical cs))
          (take_steps-Reached canonical cs (past ++ steps_of_one nodes (chain_step canonical c))
            (suc d) (take_step fuel nodes (chain_step canonical c) uf) k.1 (omega arith)
            (take_step-Reached (omega arith) v (chain_step canonical c)
              (chain_step-StepKnown nodes canonical c k.0.0 k.0.1))))
