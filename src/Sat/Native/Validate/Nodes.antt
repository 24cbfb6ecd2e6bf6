-- ===== src/Sat/Native/Validate/Nodes.antt =====
-- crates/sat/src/native/rules/validate.rs: the nodes of the comparisons of an instruction.
use solana_audit_toolkit.Prelude.{
  text_eq_refl, ℕ, ◌<◌, ==_same, ◌≡◌, inl, inr, refl, sym, ◌∙◌, true, false, ◌||◌, Option, none,
  some, List, [], ◌∷◌, any-append, All, length, Bool-cases, Option-cases, or_right, false_ne_true,
  arith,
}
use solana_audit_toolkit.Sat.Native.Validate.{Node, Comparison, has, is_anchor}
use solana_audit_toolkit.Sat.Native.Validate.Chains.{ChainStep, skips, anchors, joins, chain_step}
use solana_audit_toolkit.Sat.Native.Validate.Report.{
  same_node, contains_node, add_node, add_nodes, node_index,
}

module _ (n : Node) where
  same_node_self : same_node n n ≡ true
  unfolding same_node
  same_node_self = rw (==_same (n.0), text_eq_refl (n.1)) refl

  pub node_index-lt :
      (nodes : List Node) → contains_node nodes n ≡ true → node_index nodes n < length nodes
  unfolding node_index
  node_index-lt [] h = absurd (false_ne_true h)
  node_index-lt (m ∷ ms) h = elim (Bool-cases (same_node n m)) [
    | inl e ↦ rw (e, node_index) (omega arith)
    | inr e ↦ rw (e, node_index) (omega (arith, node_index-lt ms (sym (rw e refl) ∙ h)))
  ]

-- A comparison's node is in the list.
abbrev pub IsKnown : List Node → Option Node → Type 0
IsKnown nodes none = Unit
IsKnown nodes (some n) = contains_node nodes n ≡ true

add_node-keeps :
    (nodes : List Node) (o p : Option Node) → IsKnown nodes p → IsKnown (add_node nodes o) p
unfolding add_node
add_node-keeps nodes o none h = h
add_node-keeps nodes none (some n) h = h
add_node-keeps nodes (some m) (some n) h = elim (Bool-cases (contains_node nodes m)) [
  | inl e ↦ rw (e, add_node) h
  | inr e ↦ rw (e, add_node) (any-append (same_node n) nodes (m ∷ []) ∙ (rw h refl))
]

add_node-IsKnown : (nodes : List Node) (o : Option Node) → IsKnown (add_node nodes o) o
unfolding add_node
add_node-IsKnown nodes none = tt
add_node-IsKnown nodes (some n) = elim (Bool-cases (contains_node nodes n)) [
  | inl e ↦ rw (e, add_node) e
  | inr e ↦
      rw (e, add_node)
        (any-append (same_node n) nodes (n ∷ [])
          ∙ or_right (contains_node nodes n) (same_node n n || false) (rw (same_node_self n) refl))
]

add_nodes-keeps :
    (nodes : List Node) (cs : List Comparison) (p : Option Node)
    → IsKnown nodes p
    → IsKnown (add_nodes nodes cs) p
unfolding add_nodes
add_nodes-keeps nodes [] p h = h
add_nodes-keeps nodes (c ∷ cs) p h =
    add_nodes-keeps (add_node (add_node nodes c.left_node) c.right_node) cs p (
      add_node-keeps (add_node nodes c.left_node) c.right_node p
        (add_node-keeps nodes c.left_node p h))

abbrev pub AllKnown : List Node → List Comparison → Type 0
AllKnown nodes = All (λ c. IsKnown nodes c.left_node × IsKnown nodes c.right_node)

pub add_nodes-AllKnown :
    (nodes : List Node) (cs : List Comparison) → AllKnown (add_nodes nodes cs) cs
unfolding add_nodes
add_nodes-AllKnown nodes [] = tt
add_nodes-AllKnown nodes (c ∷ cs) =
    let l = add_node nodes c.left_node in
    let r = add_node l c.right_node in
    (
      (
        add_nodes-keeps r cs c.left_node
            (add_node-keeps l c.right_node c.left_node (add_node-IsKnown nodes c.left_node)),
        add_nodes-keeps r cs c.right_node (add_node-IsKnown l c.right_node),
      ),
      add_nodes-AllKnown r cs,
    )

abbrev pub StepKnown : List Node → ChainStep → Type 0
StepKnown nodes skips = Unit
StepKnown nodes (anchors l r) = IsKnown nodes (some l) × IsKnown nodes (some r)
StepKnown nodes (joins l r) = IsKnown nodes (some l) × IsKnown nodes (some r)

pub chain_step-StepKnown :
    (nodes : List Node) (canonical : List ℕ) (c : Comparison)
    → IsKnown nodes c.left_node
    → IsKnown nodes c.right_node
    → StepKnown nodes (chain_step canonical c)
unfolding chain_step
chain_step-StepKnown nodes canonical c kl kr = elim (Option-cases c.left_node) [
  | inl e ↦ rw (chain_step, e) tt
  | inr (l, e) ↦ elim (Option-cases c.right_node) [
    | inl f ↦ rw (chain_step, e, f) tt
    | inr (r, f) ↦
        elim (Bool-cases
          (is_anchor c.left || (is_anchor c.right || (has canonical l.0 || has canonical r.0)))) [
            | inl t ↦ rw (chain_step, e, f, t) (rw (e) at kl, rw (f) at kr)
            | inr t ↦ rw (chain_step, e, f, t) (rw (e) at kl, rw (f) at kr)
          ]
  ]
]
