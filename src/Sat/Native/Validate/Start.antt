-- ===== src/Sat/Native/Validate/Start.antt =====
-- crates/sat/src/native/rules/validate.rs: the union-find at its start, and after all comparisons.
use mathlib.Core.Path.{subst}
use mathlib.Core.List.Memᴰ
use solana_audit_toolkit.Prelude.{
  ℕ, zero, suc, ◌+◌, ◌≤◌, ◌<◌, ◌≡◌, refl, sym, ap, ◌∙◌, false, List, [], ◌∷◌, map, length,
  length-map, get_or, false_ne_true, ◌==◌, inl, inr, Bool-cases, arith,
}
use solana_audit_toolkit.Sat.Native.Validate.{Node, Comparison}
use solana_audit_toolkit.Sat.Native.Validate.UnionFind.{
  UnionFind, positions_from, new_forest, link, join_nodes, mark_anchored,
}
use solana_audit_toolkit.Sat.Native.Validate.Roots.{chase}
use solana_audit_toolkit.Sat.Native.Validate.Forest.{Step, itself, Holds}
use solana_audit_toolkit.Sat.Native.Validate.Nodes.{add_nodes-AllKnown}
use solana_audit_toolkit.Sat.Native.Validate.Run.{steps_of, Reached, take_steps-Reached}
use solana_audit_toolkit.Sat.Native.Validate.Report.{add_nodes, take_step, take_steps, forest_of}
use solana_audit_toolkit.Sat.Native.Validate.Chains.{ChainStep, skips, anchors, joins, chain_step}

pub length-positions_from : (n i : ℕ) → length (positions_from n i) ≡ n
unfolding positions_from
length-positions_from zero i = refl
length-positions_from (suc n) i = ap suc (length-positions_from n (suc i))

-- Each position holds itself; out of range it is the default.
get_or-positions_from : (n i k : ℕ) → get_or (positions_from n i) k (i + k) ≡ i + k
unfolding positions_from
get_or-positions_from zero i k = refl
get_or-positions_from (suc n) i zero = omega arith
get_or-positions_from (suc n) i (suc k) =
    ap (get_or (positions_from n (suc i)) k) (plus i k)
    ∙ (get_or-positions_from n (suc i) k ∙ sym (plus i k))
  where
    plus : (i k : ℕ) → i + suc k ≡ suc i + k
    plus i k = omega arith

module _ {ℓ κ} {A : Type ℓ} {B : Type κ} (b : B) where
  get_or-map : (xs : List A) (i : ℕ) (d : B) → i < length xs → get_or (map (λ _. b) xs) i d ≡ b
  get_or-map [] i d h = absurd (omega arith)
  get_or-map (x ∷ xs) zero d h = refl
  get_or-map (x ∷ xs) (suc i) d h = get_or-map xs i d (omega arith)

  get_or-map_default : (xs : List A) (i : ℕ) → get_or (map (λ _. b) xs) i b ≡ b
  get_or-map_default [] i = refl
  get_or-map_default (x ∷ xs) zero = refl
  get_or-map_default (x ∷ xs) (suc i) = get_or-map_default xs i

at_most_one : (nodes : List Node) (i : ℕ) → get_or (map (λ _. 1) nodes) i 0 ≤ 1
at_most_one [] i = omega arith
at_most_one (x ∷ xs) zero = omega arith
at_most_one (x ∷ xs) (suc i) = at_most_one xs i

new_forest-Holds : (nodes : List Node) → Holds [] 0 (new_forest nodes)
unfolding new_forest chase
new_forest-Holds nodes = record {
  root = λ i. i;
  rooted = λ i. refl;
  stays = λ i.
      subst (λ x. get_or (positions_from (length nodes) 0) i x ≡ x) (plus_zero i)
        (get_or-positions_from (length nodes) 0 i);
  bounded = λ i l. l;
  counts_sized = length-map (λ _. 1) nodes ∙ sym (length-positions_from (length nodes) 0);
  anchored_sized = length-map (λ _. false) nodes ∙ sym (length-positions_from (length nodes) 0);
  same_root = λ i j m. absurd (Memᴰ.not-nil m);
  linked = itself;
  flagged = λ i m. absurd (Memᴰ.not-nil m);
  marked = λ r e f. absurd (false_ne_true (sym (get_or-map_default false nodes r) ∙ f));
  counted = λ r e l.
      subst (λ x. 1 ≤ x)
        (sym
          (get_or-map 1 nodes r 0 (subst (λ n. r < n) (length-positions_from (length nodes) 0) l)))
        (omega arith);
  many = λ i n. absurd (n refl);
  several = λ r e c. absurd (omega (arith, c, at_most_one nodes r));
}
  where
    plus_zero : (i : ℕ) → 0 + i ≡ i
    plus_zero i = omega arith

-- No step changes the fields of the nodes.
link_field : (ra rb : ℕ) (uf : UnionFind) → (link ra rb uf).field ≡ uf.field
unfolding link
link_field ra rb uf = elim (Bool-cases (ra == rb)) [
  | inl e ↦ rw (link, e) refl
  | inr e ↦ rw (link, e) refl
]

take_step_field :
    (fuel : ℕ) (nodes : List Node) (s : ChainStep) (uf : UnionFind)
    → (take_step fuel nodes s uf).field ≡ uf.field
unfolding take_step join_nodes mark_anchored
take_step_field fuel nodes skips uf = refl
take_step_field fuel nodes (anchors l r) uf = refl
take_step_field fuel nodes (joins l r) uf = link_field _ _ _

pub take_steps_field :
    (fuel : ℕ) (nodes : List Node) (canonical : List ℕ) (cs : List Comparison) (uf : UnionFind)
    → (take_steps fuel nodes canonical cs uf).field ≡ uf.field
unfolding take_steps
take_steps_field fuel nodes canonical [] uf = refl
take_steps_field fuel nodes canonical (c ∷ cs) uf =
    take_steps_field fuel nodes canonical cs (take_step fuel nodes (chain_step canonical c) uf)
    ∙ take_step_field fuel nodes (chain_step canonical c) uf

-- The steps of the comparisons, by the positions of their nodes.
unfoldable pub chain_steps : List ℕ → List Comparison → List Step
unfolding steps_of add_nodes
chain_steps canonical comparisons = steps_of (add_nodes [] comparisons) canonical comparisons

pub forest_of-Reached :
    (canonical : List ℕ) (cs : List Comparison)
    → Reached
        (add_nodes [] cs)
        (length cs)
        (chain_steps canonical cs)
        (length cs)
        (forest_of canonical cs)
unfolding chain_steps forest_of
forest_of-Reached canonical cs =
    subst
      (λ n.
        Reached (add_nodes [] cs) (length cs) (chain_steps canonical cs) n (forest_of canonical cs))
      (omega arith)
      (take_steps-Reached (add_nodes [] cs) (length cs) canonical cs [] 0
        (new_forest (add_nodes [] cs)) (add_nodes-AllKnown [] cs) (omega arith)
        (record {
          sized = length-positions_from (length (add_nodes [] cs)) 0;
          holds = new_forest-Holds (add_nodes [] cs);
        }))
