-- ===== src/Sat/Native/Validate/Parents.antt =====
-- crates/sat/src/native/rules/validate.rs: the parents after `find` on every node, which `chain_summary` reads.
use mathlib.Core.Path.{subst}
use mathlib.Core.Logic.{◌↔◌}
use solana_audit_toolkit.Prelude.{
  ℕ, zero, suc, ◌+◌, ◌<◌, ◌≡◌, refl, sym, ap, ◌∙◌, List, [], ◌∷◌, map, length, length-map, get_or,
  arith, lt_or_le, inl, inr, ◌≤◌, get_or_beyond,
}
use solana_audit_toolkit.Sat.Native.Validate.{Comparison}
use solana_audit_toolkit.Sat.Native.Validate.UnionFind.{positions_from, find_root, parent_of}
use solana_audit_toolkit.Sat.Native.Validate.Roots.{chase-IsRoot}
use solana_audit_toolkit.Sat.Native.Validate.Forest.{Linked, root-root}
use solana_audit_toolkit.Sat.Native.Validate.Run.{find_root-length}
use solana_audit_toolkit.Sat.Native.Validate.Start.{length-positions_from, chain_steps}
use solana_audit_toolkit.Sat.Native.Validate.Flatten.{find_each-FindsEach}
use solana_audit_toolkit.Sat.Native.Validate.Reported.{positions_from-all}
use solana_audit_toolkit.Sat.Native.Validate.Risk.{
  uf, h, size, uf_sized, roots, roots_lem, same_chain, chain_of,
}
use solana_audit_toolkit.Sat.Native.Validate.Report.{forest_of, find_each, flattened}

module _ {ℓ} {A : Type ℓ} where
  get_or_within : (xs : List A) (i : ℕ) (d e : A) → i < length xs → get_or xs i d ≡ get_or xs i e
  get_or_within [] i d e l = absurd (omega arith)
  get_or_within (x ∷ xs) zero d e l = refl
  get_or_within (x ∷ xs) (suc i) d e l = get_or_within xs i d e (omega arith)

  -- Lists of one length with the same entries.
  same_entries :
      (xs ys : List A) (d : A)
      → length xs ≡ length ys
      → ((i : ℕ) → i < length xs → get_or xs i d ≡ get_or ys i d)
      → xs ≡ ys
  same_entries [] [] d l h = refl
  same_entries [] (y ∷ ys) d l h = absurd (omega arith)
  same_entries (x ∷ xs) [] d l h = absurd (omega arith)
  same_entries (x ∷ xs) (y ∷ ys) d l h =
      rw (h 0 (omega arith), same_entries xs ys d (omega arith) (λ i m. h (suc i) (omega arith)))
        refl

entry-map : (f : ℕ → ℕ) (n i k d : ℕ) → k < n → get_or (map f (positions_from n i)) k d ≡ f (i + k)
unfolding positions_from
entry-map f zero i k d l = absurd (omega arith)
entry-map f (suc n) i zero d l = ap f (omega arith)
entry-map f (suc n) i (suc k) d l = entry-map f n (suc i) k d (omega arith) ∙ ap f (omega arith)

find_each-length : (fuel : ℕ) (p is : List ℕ) → length (find_each fuel p is).0 ≡ length p
unfolding find_each
find_each-length fuel p [] = refl
find_each-length fuel p (i ∷ is) =
    find_each-length fuel (find_root fuel p i).0 is ∙ find_root-length fuel p i

flattened-roots :
    (canonical : List ℕ) (comparisons : List Comparison)
    → (flattened (length comparisons) (forest_of canonical comparisons)).0.parent
      ≡ (flattened (length comparisons) (forest_of canonical comparisons)).1
unfolding flattened roots uf size
flattened-roots canonical cs = same_entries parents (roots canonical cs) 0 same_length entry
  where
    parents : List ℕ
    parents = (flattened (length cs) (forest_of canonical cs)).0.parent

    same_length : length parents ≡ length (roots canonical cs)
    same_length =
        find_each-length (length cs) (forest_of canonical cs).parent
          (positions_from (length (forest_of canonical cs).parent) 0)
        ∙ sym (
            ap length (roots_lem canonical cs)
            ∙ (length-map (h canonical cs).root (positions_from (size canonical cs) 0)
                ∙ (length-positions_from (size canonical cs) 0 ∙ sym (uf_sized canonical cs))))

    below : (i : ℕ) → i < length parents → i < length (forest_of canonical cs).parent
    below i l =
        subst (λ n. i < n)
          (find_each-length (length cs) (forest_of canonical cs).parent
            (positions_from (length (forest_of canonical cs).parent) 0))
          l

    zero_plus : (i : ℕ) → 0 + i ≡ i
    zero_plus i = omega arith

    entry : (i : ℕ) → i < length parents → get_or parents i 0 ≡ get_or (roots canonical cs) i 0
    entry i l =
        get_or_within parents i 0 i l
        ∙ ((find_each-FindsEach (length cs) (omega arith)
                (positions_from (length (forest_of canonical cs).parent) 0) (h canonical cs)).flat
              i
              (positions_from-all (length (forest_of canonical cs).parent) 0 i (omega arith)
                (omega (arith, below i l)))
            ∙ sym (
                ap (λ rs. get_or rs i 0) (roots_lem canonical cs)
                ∙ (entry-map (h canonical cs).root (size canonical cs) 0 i 0
                      (subst (λ n. i < n) (uf_sized canonical cs) (below i l))
                    ∙ ap (h canonical cs).root (zero_plus i))))

-- The parents after `find` on every node.
abbrev pub parents : List ℕ → List Comparison → List ℕ
parents canonical comparisons =
    (flattened (length comparisons) (forest_of canonical comparisons)).0.parent

-- The parent of any node, of the forest or beyond it, is the root that `Holds` names.
parent_of-parents :
    (canonical : List ℕ) (cs : List Comparison) (i : ℕ)
    → parent_of (parents canonical cs) i ≡ (h canonical cs).root i
unfolding flattened uf
parent_of-parents canonical cs i = elim (lt_or_le i (length forest)) [
  | inl l ↦
      (find_each-FindsEach (length cs) (omega arith) (positions_from (length forest) 0)
          (h canonical cs)).flat
        i (positions_from-all (length forest) 0 i (omega arith) (omega (arith, l)))
  | inr l ↦
      get_or_beyond (parents canonical cs) i i (
        subst (λ n. n ≤ i)
          (sym (find_each-length (length cs) forest (positions_from (length forest) 0))) l)
      ∙ (sym (chase-IsRoot (length cs) forest i (get_or_beyond forest i i l))
          ∙ (h canonical cs).rooted i)
]
  where
    forest : List ℕ
    forest = (forest_of canonical cs).parent

-- After `find` on every node, with fuel for one step for each comparison, the parents are flat and tell the
-- chains: they are the list of roots that `find` returned, the parent of every node is its own parent, and
-- two nodes have one parent exactly if the comparisons link them.
pub flattened_lem :
    (canonical : List ℕ) (comparisons : List Comparison) (i j : ℕ)
    → (parents canonical comparisons
        ≡ (flattened (length comparisons) (forest_of canonical comparisons)).1)
      × (parent_of (parents canonical comparisons) (parent_of (parents canonical comparisons) i)
          ≡ parent_of (parents canonical comparisons) i)
      × ((parent_of (parents canonical comparisons) i ≡ parent_of (parents canonical comparisons) j)
          ↔ Linked (chain_steps canonical comparisons) i j)
flattened_lem canonical cs i j = (
  flattened-roots canonical cs,
  parent_of-parents canonical cs (parent_of (parents canonical cs) i)
      ∙ (ap (h canonical cs).root (parent_of-parents canonical cs i)
          ∙ (root-root (h canonical cs) i ∙ sym (parent_of-parents canonical cs i))),
  (
    λ e.
        chain_of canonical cs i j
          (sym (parent_of-parents canonical cs i) ∙ (e ∙ parent_of-parents canonical cs j)),
    λ l.
        parent_of-parents canonical cs i
        ∙ (same_chain canonical cs l ∙ sym (parent_of-parents canonical cs j)),
  ),
)
