-- ===== src/Sat/Native/Validate/UnionFind.antt =====
-- crates/sat/src/native/rules/validate.rs: the union-find over the nodes of the comparison graph. A node
-- that is out of range, at which the source would panic, is its own parent. `find` follows the parents
-- with fuel.
use solana_audit_toolkit.Prelude.{
  Text, ℕ, zero, suc, ◌+◌, ◌==◌, Bool, true, false, ◌||◌, List, [], ◌∷◌, map, length, get_or, set,
}
use solana_audit_toolkit.Sat.Native.Validate.{Node}

pub record UnionFind : Type 0 where
  pub parent : List ℕ
  pub node_count : List ℕ
  pub anchored : List Bool
  pub account : List ℕ
  pub field : List Text

-- `(i..i + n).collect()`
unfoldable pub positions_from : ℕ → ℕ → List ℕ
positions_from zero i = []
positions_from (suc n) i = i ∷ positions_from n (suc i)

unfoldable pub new_forest : List Node → UnionFind
unfolding positions_from
new_forest nodes = record {
  parent = positions_from (length nodes) 0;
  node_count = map (λ _. 1) nodes;
  anchored = map (λ _. false) nodes;
  account = map (λ (n : Node). n.0) nodes;
  field = map (λ (n : Node). n.1) nodes;
}

abbrev pub parent_of : List ℕ → ℕ → ℕ
parent_of parent i = get_or parent i i

-- The parents after `find`, and the root.
unfoldable pub find_root : ℕ → List ℕ → ℕ → List ℕ × ℕ
find_root zero parent i = (parent, i)
find_root (suc fuel) parent i = elim (parent_of parent i == i) [
  | true ↦ (parent, i)
  | false ↦
      let (flatter, root) = find_root fuel parent (parent_of parent i) in (set flatter i root, root)
]

-- The part of `union` behind the two finds.
unfoldable pub link : ℕ → ℕ → UnionFind → UnionFind
link ra rb uf = elim (ra == rb) [
  | true ↦ uf
  | false ↦ record uf {
    parent = set uf.parent rb ra;
    node_count = set uf.node_count ra (get_or uf.node_count ra 0 + get_or uf.node_count rb 0);
    anchored = set uf.anchored ra (get_or uf.anchored ra false || get_or uf.anchored rb false);
  }
]

unfoldable pub join_nodes : ℕ → ℕ → ℕ → UnionFind → UnionFind
unfolding find_root link
join_nodes fuel a b uf =
    let (parent_a, ra) = find_root fuel uf.parent a in
    let (parent_b, rb) = find_root fuel parent_a b in link ra rb (record uf { parent = parent_b })

unfoldable pub mark_anchored : ℕ → ℕ → UnionFind → UnionFind
unfolding find_root
mark_anchored fuel i uf =
    let (parent, r) = find_root fuel uf.parent i in
    record uf { parent = parent; anchored = set uf.anchored r true }
