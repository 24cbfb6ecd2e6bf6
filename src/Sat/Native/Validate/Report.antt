-- ===== src/Sat/Native/Validate/Report.antt =====
-- crates/sat/src/native/rules/validate.rs: `sat031_findings`. The hash map from nodes to indices is the
-- position in the list of nodes, a hash set of roots is the list of its elements, and a lookup out of range,
-- at which the source would panic, gives a default.
use solana_audit_toolkit.Prelude.{
  Text, codes, text_eq, decimal, ltb, ℕ, suc, ◌==◌, Bool, true, false, not, ◌&&◌, ◌||◌, Option,
  none, some, List, [], ◌∷◌, ◌++◌, map, any, length, get_elem?, get_or, if◌then◌else◌,
}
use solana_audit_toolkit.Sat.Cpi.{join}
use solana_audit_toolkit.Sat.Types.{Severity, Finding}
use solana_audit_toolkit.Sat.Native.Model.{NativeInstruction}
use solana_audit_toolkit.Sat.Native.Validate.{Node, Comparison, has}
use solana_audit_toolkit.Sat.Native.Validate.Chains.{ChainStep, skips, anchors, joins, chain_step}
use solana_audit_toolkit.Sat.Native.Validate.UnionFind.{
  UnionFind, positions_from, new_forest, find_root, join_nodes, mark_anchored,
}

unfoldable pub same_node : Node → Node → Bool
same_node n m = (n.0 == m.0) && text_eq n.1 m.1

-- `node_index.contains_key(n)`
abbrev pub contains_node : List Node → Node → Bool
contains_node nodes n = any (same_node n) nodes

unfoldable pub add_node : List Node → Option Node → List Node
unfolding same_node
add_node nodes none = nodes
add_node nodes (some n) = if contains_node nodes n then nodes else nodes ++ n ∷ []

-- The nodes, in the order in which the comparisons name them first.
unfoldable pub add_nodes : List Node → List Comparison → List Node
unfolding add_node
add_nodes nodes [] = nodes
add_nodes nodes (c ∷ cs) = add_nodes (add_node (add_node nodes c.left_node) c.right_node) cs

unfoldable pub node_index : List Node → Node → ℕ
unfolding same_node
node_index [] n = 0
node_index (m ∷ ms) n = let later = node_index ms n in if same_node n m then 0 else suc later

-- The effect of one comparison on the union-find.
unfoldable pub take_step : ℕ → List Node → ChainStep → UnionFind → UnionFind
unfolding join_nodes mark_anchored node_index
take_step fuel nodes skips uf = uf
take_step fuel nodes (anchors l r) uf =
    mark_anchored fuel (node_index nodes r) (mark_anchored fuel (node_index nodes l) uf)
take_step fuel nodes (joins l r) uf = join_nodes fuel (node_index nodes l) (node_index nodes r) uf

unfoldable pub take_steps : ℕ → List Node → List ℕ → List Comparison → UnionFind → UnionFind
unfolding take_step chain_step
take_steps fuel nodes canonical [] uf = uf
take_steps fuel nodes canonical (c ∷ cs) uf =
    take_steps fuel nodes canonical cs (take_step fuel nodes (chain_step canonical c) uf)

-- `(0..uf.parent.len()).map(|i| uf.find(i)).collect()`: the parents, and the roots.
unfoldable pub find_each : ℕ → List ℕ → List ℕ → List ℕ × List ℕ
unfolding find_root
find_each fuel parent [] = (parent, [])
find_each fuel parent (i ∷ is) =
    let (flatter, root) = find_root fuel parent i in
    let (flat, roots) = find_each fuel flatter is in (flat, root ∷ roots)

-- The loop of `component_is_all_keys` from position `i` on.
unfoldable pub all_keys_from : List Text → ℕ → List ℕ → ℕ → Bool
all_keys_from fields i [] root = true
all_keys_from fields i (r ∷ rs) root =
    let later = all_keys_from fields (suc i) rs root in
    if (r == root) && not (text_eq (get_or fields i []) (codes "key")) then false else later

unfoldable pub component_is_all_keys : UnionFind → List ℕ → ℕ → Bool
unfolding all_keys_from
component_is_all_keys uf roots root = all_keys_from uf.field 0 roots root

-- The second `continue` of the loop over the roots.
unfoldable pub is_quiet : UnionFind → List ℕ → ℕ → Bool
unfolding component_is_all_keys
is_quiet uf roots root =
    get_or uf.anchored root false
    || (ltb (get_or uf.node_count root 0) 2 || component_is_all_keys uf roots root)

-- The roots that the loop reports; `seen` are the roots before.
unfoldable pub reported_from : UnionFind → List ℕ → List ℕ → List ℕ → List ℕ
unfolding is_quiet
reported_from uf roots seen [] = []
reported_from uf roots seen (root ∷ rest) = elim (has seen root) [
  | true ↦ reported_from uf roots seen rest
  | false ↦
      let later = reported_from uf roots (root ∷ seen) rest in
      if is_quiet uf roots root then later else root ∷ later
]

-- The union-find after the comparisons, the roots of its nodes, and the roots to report. A node has at most
-- as many ancestors as there are comparisons.
unfoldable pub forest_of : List ℕ → List Comparison → UnionFind
unfolding take_steps add_nodes new_forest
forest_of canonical comparisons =
    let nodes = add_nodes [] comparisons in
    take_steps (length comparisons) nodes canonical comparisons (new_forest nodes)

unfoldable pub flattened : ℕ → UnionFind → UnionFind × List ℕ
unfolding find_each positions_from
flattened fuel uf =
    let (parent, roots) = find_each fuel uf.parent (positions_from (length uf.parent) 0) in
    (record uf { parent = parent }, roots)

unfoldable pub reported_roots : UnionFind → List ℕ → List ℕ
unfolding reported_from
reported_roots uf roots = reported_from uf roots [] roots

unfoldable pub account_name : NativeInstruction → ℕ → Text
account_name ix i = elim (get_elem? ix.accounts i) [ none ↦ [] | some account ↦ account.name ]

-- The loop of `chain_summary` from position `i` on.
unfoldable pub parts_from : NativeInstruction → UnionFind → ℕ → List ℕ → ℕ → List Text
unfolding account_name
parts_from ix uf i [] root = []
parts_from ix uf i (p ∷ ps) root =
    let later = parts_from ix uf (suc i) ps root in
    if p == root
    then (codes "`"
        ++ (account_name ix (get_or uf.account i 0) ++ (codes "`." ++ get_or uf.field i [])))
      ∷ later
    else later

unfoldable pub chain_summary : NativeInstruction → UnionFind → ℕ → Text
unfolding parts_from join
chain_summary ix uf root = join (codes ", ") (parts_from ix uf 0 uf.parent root)

unfoldable pub location : NativeInstruction → Text
unfolding decimal
location ix = ix.file ++ (codes ":" ++ (decimal ix.line ++ (codes " (" ++ (ix.name ++ codes ")"))))

unfoldable pub chain_finding : NativeInstruction → UnionFind → ℕ → Finding
unfolding account_name chain_summary location
chain_finding ix uf root =
    let name = account_name ix (get_or uf.account root 0) in
    record {
      id = [];
      title = codes "Self-Referential Validation: `" ++ (name ++ codes "`");
      severity = Severity.high;
      description =
          codes "Validation in instruction `"
          ++ (ix.name
              ++ (codes "` compares only caller-supplied accounts to each other ("
                  ++ (chain_summary ix uf root
                      ++ codes
                          ") and never anchors the chain to canonical program state (program id, constants, owner checks, or literal-seed PDAs). An attacker who controls every account in the chain can make the validation self-consistent with fabricated data — the Cashio class (EXPLOIT_CORPUS.md). Manually confirm whether one of the compared fields is the load-bearing identity check.")));
      location = some (location ix);
      suggestion = some (
          codes
            "Anchor the validation to canonical state: compare at least one field in the chain against a constant / the program id / a registry or authority account whose owner is verified, e.g. `if "
          ++ (name ++ codes ".owner != program_id { return Err(...) }`."));
    }

unfoldable pub sat031_findings : NativeInstruction → List ℕ → List Comparison → List Finding
unfolding forest_of flattened reported_roots chain_finding
sat031_findings ix canonical comparisons =
    let (uf, roots) = flattened (length comparisons) (forest_of canonical comparisons) in
    map (chain_finding ix uf) (reported_roots uf roots)
