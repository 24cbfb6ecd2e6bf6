-- ===== src/Sat/Native/Validate/Chains.antt =====
-- crates/sat/src/native/rules/validate.rs: what one comparison does to the chains of SAT031.
use solana_audit_toolkit.Prelude.{ℕ, ◌≡◌, refl, ◌||◌, Option, none, some, List, if◌then◌else◌}
use solana_audit_toolkit.Sat.Native.Validate.{
  Node, Side, anchor, unknown, account_field, Comparison, comparison, node_of, is_anchor, has,
}

-- Nothing, marking the components of two nodes as anchored, or joining them.
pub data ChainStep : Type 0 where
  skips : ChainStep
  anchors : Node → Node → ChainStep
  joins : Node → Node → ChainStep

-- The body of the loop of `sat031_findings` over the comparisons.
unfoldable pub chain_step : List ℕ → Comparison → ChainStep
chain_step canonical c = elim c.left_node [
  | none ↦ skips
  | some l ↦ elim c.right_node [
    | none ↦ skips
    | some r ↦
        if is_anchor c.left || (is_anchor c.right || (has canonical l.0 || has canonical r.0))
        then anchors l r
        else joins l r
  ]
]

-- The step without a look at constants, the program id and the like.
abbrev pub canonical_step : List ℕ → Option Node → Option Node → ChainStep
canonical_step canonical none r = skips
canonical_step canonical (some l) none = skips
canonical_step canonical (some l) (some r) =
    if has canonical l.0 || has canonical r.0 then anchors l r else joins l r

-- A comparison that the scan of an instruction pushes anchors a chain only through a canonical account: the
-- step is that of the two nodes alone, so that a comparison with a constant or the program id is skipped.
pub chain_step-comparison :
    (canonical : List ℕ) (left right : Side)
    → chain_step canonical (comparison left right)
      ≡ canonical_step canonical (node_of left) (node_of right)
unfolding chain_step comparison node_of is_anchor
chain_step-comparison canonical anchor right = refl
chain_step-comparison canonical unknown right = refl
chain_step-comparison canonical (account_field l f) anchor = refl
chain_step-comparison canonical (account_field l f) unknown = refl
chain_step-comparison canonical (account_field l f) (account_field r g) = refl
