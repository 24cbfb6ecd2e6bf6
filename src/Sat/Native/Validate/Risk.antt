-- ===== src/Sat/Native/Validate/Risk.antt =====
-- crates/sat/src/native/rules/validate.rs: the chains of validations that `sat031_findings` reports, told by
-- the comparisons alone, and that it reports these.
use mathlib.Core.Path.{subst}
use mathlib.Core.List.Memᴰ
use mathlib.Core.List.{Memᴰ}
use solana_audit_toolkit.Prelude.{
  Text, codes, text_eq, ltb, ℕ, ◌≤◌, ◌<◌, ◌==◌, ==_iff, ◌≡◌, ◌≢◌, inl, inr, refl, sym, ap, ◌∙◌,
  Bool, false, ◌||◌, List, [], map, length, get_or, Bool-cases, false_ne_true, arith,
}
use solana_audit_toolkit.Sat.Native.Validate.{Node, Comparison}
use solana_audit_toolkit.Sat.Native.Validate.UnionFind.{UnionFind, positions_from, new_forest}
use solana_audit_toolkit.Sat.Native.Validate.Forest.{
  marks, Linked, back, through, Linked-respects, Holds, root-root,
}
use solana_audit_toolkit.Sat.Native.Validate.Start.{
  chain_steps, forest_of-Reached, take_steps_field,
}
use solana_audit_toolkit.Sat.Native.Validate.Flatten.{find_each-FindsEach}
use solana_audit_toolkit.Sat.Native.Validate.Reported.{
  positions_from-bounds, positions_from-all, all_keys_from-Telling, Telling-all_keys_from,
}
use solana_audit_toolkit.Sat.Native.Validate.Report.{
  add_nodes, forest_of, flattened, all_keys_from, component_is_all_keys, is_quiet, reported_roots,
}

-- The fields of the nodes that the comparisons name.
abbrev pub fields_of : List Comparison → List Text
fields_of comparisons = map (λ (n : Node). n.1) (add_nodes [] comparisons)

-- A node whose chain has another node, none that an anchored comparison names, and one of another field than
-- `key`.
pub record AtRisk (canonical : List ℕ) (comparisons : List Comparison) (i : ℕ) : Type 0 where
  pub in_range : i < length (add_nodes [] comparisons)
  pub another : (j : ℕ) × Linked (chain_steps canonical comparisons) i j × (j ≢ i)
  pub unanchored :
      (j : ℕ)
      → Linked (chain_steps canonical comparisons) i j
      → ¬ Memᴰ (marks j) (chain_steps canonical comparisons)
  pub telling :
      (k : ℕ) × (k < length (add_nodes [] comparisons))
      × Linked (chain_steps canonical comparisons) i k
      × (text_eq (get_or (fields_of comparisons) k []) (codes "key") ≡ false)

loud_tests :
    (a : Bool) (n : ℕ) (k : Bool)
    → (a || (ltb n 2 || k)) ≡ false
    → (a ≡ false) × (2 ≤ n) × (k ≡ false)
loud_tests a n k e = (ground arith, ground arith, ground arith)

loud_if :
    (a : Bool) (n : ℕ) (k : Bool) → a ≡ false → 2 ≤ n → k ≡ false → (a || (ltb n 2 || k)) ≡ false
loud_if a n k e l f = ground arith

-- The roots that `sat031_findings` reports.
unfoldable pub reported : List ℕ → List Comparison → List ℕ
unfolding flattened forest_of reported_roots
reported canonical comparisons =
    let (uf, roots) = flattened (length comparisons) (forest_of canonical comparisons) in
    reported_roots uf roots

module _ (canonical : List ℕ) (cs : List Comparison) where
  unfoldable pub uf : UnionFind
  uf = forest_of canonical cs

  unfoldable pub after : UnionFind
  after = (flattened (length cs) (forest_of canonical cs)).0

  unfoldable pub roots : List ℕ
  roots = (flattened (length cs) (forest_of canonical cs)).1

  unfoldable pub size : ℕ
  size = length (add_nodes [] cs)

  unfoldable pub h : Holds (chain_steps canonical cs) (length cs) uf
  unfolding uf
  h = (forest_of-Reached canonical cs).holds

  pub uf_sized : length uf.parent ≡ size
  unfolding uf size
  uf_sized = (forest_of-Reached canonical cs).sized

  uf_field : after.field ≡ fields_of cs
  unfolding after flattened forest_of new_forest
  uf_field =
      take_steps_field (length cs) (add_nodes [] cs) canonical cs (new_forest (add_nodes [] cs))

  pub roots_lem : roots ≡ map h.root (positions_from size 0)
  unfolding roots flattened uf size
  roots_lem =
      (find_each-FindsEach (length cs) (omega arith) (positions_from (length uf.parent) 0) h).roots
      ∙ ap (λ n. map h.root (positions_from n 0)) uf_sized

  keys_lem :
      (r : ℕ)
      → component_is_all_keys after roots r
        ≡ all_keys_from (fields_of cs) 0 (map h.root (positions_from size 0)) r
  unfolding component_is_all_keys
  keys_lem r = rw (uf_field, roots_lem) refl

  pub same_chain : {i j : ℕ} → Linked (chain_steps canonical cs) i j → h.root i ≡ h.root j
  same_chain l = Linked-respects h.root h.same_root l

  pub chain_of : (i j : ℕ) → h.root i ≡ h.root j → Linked (chain_steps canonical cs) i j
  chain_of i j e =
      through (h.linked i) (back (subst (Linked (chain_steps canonical cs) j) (sym e) (h.linked j)))

  -- The three tests of a root that is reported.
  pub record Tests (r : ℕ) : Type 0 where
    pub unflagged : get_or uf.anchored r false ≡ false
    pub two : 2 ≤ get_or uf.node_count r 0
    pub keys : component_is_all_keys after roots r ≡ false

  is_quiet-Tests : (r : ℕ) → is_quiet after roots r ≡ false → Tests r
  unfolding is_quiet after flattened uf
  is_quiet-Tests r q =
      let (a, b, c) =
        loud_tests (get_or uf.anchored r false) (get_or uf.node_count r 0)
          (component_is_all_keys after roots r) q in
      record { unflagged = a; two = b; keys = c }

  pub Tests-is_quiet : (r : ℕ) → Tests r → is_quiet after roots r ≡ false
  unfolding is_quiet after flattened uf
  Tests-is_quiet r t =
      loud_if (get_or uf.anchored r false) (get_or uf.node_count r 0)
        (component_is_all_keys after roots r) t.unflagged t.two t.keys

  pub root_among : (r : ℕ) → Memᴰ r roots → (h.root r ≡ r) × (r < size)
  root_among r m =
      let (k, p, e) = Memᴰ.of_map h.root (positions_from size 0) (subst (Memᴰ r) roots_lem m) in
      let (a, b) = positions_from-bounds size 0 k p in
      (
        subst (λ x. h.root x ≡ x) e (root-root h k),
        subst (λ x. x < size) e
            (subst (λ n. h.root k < n) uf_sized
              (h.bounded k (subst (λ n. k < n) (sym uf_sized) (omega (arith, b))))),
      )

  pub among_root : (i : ℕ) → i < size → Memᴰ (h.root i) roots
  among_root i l =
      subst (Memᴰ (h.root i)) (sym roots_lem)
        (Memᴰ.map h.root (positions_from-all size 0 i (omega arith) (omega (arith, l))))

  pub loud-AtRisk : (r : ℕ) → Memᴰ r roots → is_quiet after roots r ≡ false → AtRisk canonical cs r
  unfolding size
  loud-AtRisk r m q =
      let (rr, below) = root_among r m in
      let t = is_quiet-Tests r q in
      let (j, e, n) = h.several r rr t.two in
      let (k, a, b, (f, g)) =
        all_keys_from-Telling (fields_of cs) h.root r size 0 (sym (keys_lem r) ∙ t.keys) in
      record {
        in_range = below;
        another = (j, chain_of r j (rr ∙ sym e), n);
        unanchored = λ i l m. false_ne_true (
            sym t.unflagged
            ∙ (ap (λ x. get_or uf.anchored x false) (sym rr ∙ same_chain l) ∙ h.flagged i m));
        telling = (k, omega (arith, b), chain_of r k (rr ∙ sym f), g);
      }

  pub AtRisk-Tests : (i : ℕ) → AtRisk canonical cs i → Tests (h.root i)
  unfolding size
  AtRisk-Tests i v = record {
    unflagged = elim (Bool-cases (get_or uf.anchored (h.root i) false)) [
      | inl e ↦
          let (j, f, m) = h.marked (h.root i) (root-root h i) e in
          absurd (v.unanchored j (chain_of i j (sym f)) m)
      | inr e ↦ e
    ];
    two = elim (Bool-cases (i == h.root i)) [
      | inl e ↦
          let (j, l, n) = v.another in
          subst (λ x. 2 ≤ get_or uf.node_count x 0) (sym (same_chain l))
            (h.many j (λ t. n (sym t ∙ (sym (same_chain l) ∙ sym ((==_iff i (h.root i)).0 e)))))
      | inr e ↦ h.many i (λ t. false_ne_true (sym e ∙ (==_iff i (h.root i)).1 (sym t)))
    ];
    keys =
        (let (k, b, l, g) = v.telling in
          keys_lem (h.root i)
          ∙ Telling-all_keys_from (fields_of cs) h.root (h.root i) size 0 k (omega arith)
              (omega (arith, b)) (sym (same_chain l), g));
  }
