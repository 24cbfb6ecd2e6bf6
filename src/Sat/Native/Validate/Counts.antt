-- ===== src/Sat/Native/Validate/Counts.antt =====
-- crates/sat/src/native/rules/validate.rs: the counts and flags of the roots after `union` links two roots.
use mathlib.Core.Path.{subst}
use mathlib.Core.List.{Memᴰ}
use solana_audit_toolkit.Prelude.{
  ℕ, ◌+◌, ◌≤◌, ◌<◌, ◌==◌, ==_iff, ==_same, ◌≡◌, ◌≢◌, ◌⊎◌, inl, inr, refl, sym, ap, ◌∙◌, Bool, true,
  false, ◌||◌, List, length, get_or, set, get_or-set, if◌then◌else◌, Bool-cases, false_ne_true,
  or_right, arith,
}
use solana_audit_toolkit.Sat.Native.Validate.UnionFind.{UnionFind}
use solana_audit_toolkit.Sat.Native.Validate.Forest.{Step, marks, Holds, root-root}
use solana_audit_toolkit.Sat.Native.Validate.Moves.{new_root, moved, kept, new_root_cases}

module _ {steps : List Step} {d : ℕ} {uf : UnionFind} (h : Holds steps d uf) (a b : ℕ) where
  module _ (a_in : a < length uf.parent) (b_in : b < length uf.parent)
      (apart : h.root a ≢ h.root b) where
    -- The count and the flag of a node afterwards.
    unfoldable pub sum : ℕ
    sum = get_or uf.node_count (h.root a) 0 + get_or uf.node_count (h.root b) 0

    unfoldable pub either : Bool
    either = get_or uf.anchored (h.root a) false || get_or uf.anchored (h.root b) false

    new_count :
        (x : ℕ)
        → get_or (set uf.node_count (h.root a) sum) x 0
          ≡ (if h.root a == x then sum else get_or uf.node_count x 0)
    new_count x =
        get_or-set uf.node_count (h.root a) sum x 0
          (subst (λ n. h.root a < n) (sym h.counts_sized) (h.bounded a a_in))

    new_flag :
        (x : ℕ)
        → get_or (set uf.anchored (h.root a) either) x false
          ≡ (if h.root a == x then either else get_or uf.anchored x false)
    new_flag x =
        get_or-set uf.anchored (h.root a) either x false
          (subst (λ n. h.root a < n) (sym h.anchored_sized) (h.bounded a a_in))

    two : 2 ≤ sum
    unfolding sum
    two = omega (
      arith,
      h.counted (h.root a) (root-root h a) (h.bounded a a_in),
      h.counted (h.root b) (root-root h b) (h.bounded b b_in),
    )

    -- A root afterwards that is not that of `a` was one before.
    root_before :
        (r : ℕ) → (new_root h a b) r ≡ r → (h.root a == r) ≡ false → (h.root r ≡ r) × (r ≢ h.root b)
    root_before r e n = elim ((new_root_cases h a b) r) [
      | inl (p, q) ↦ absurd (false_ne_true (sym n ∙ (==_iff (h.root a) r).1 (sym q ∙ e)))
      | inr (p, q) ↦ (sym q ∙ e, λ t. p ((sym q ∙ e) ∙ t))
    ]

    stays_at : (r i : ℕ) → h.root i ≡ r → r ≢ h.root b → (new_root h a b) i ≡ r
    stays_at r i e n = (kept h a b) i (λ t. n (sym e ∙ t)) ∙ e

    either_left : get_or uf.anchored (h.root a) false ≡ true → either ≡ true
    unfolding either
    either_left e = rw e refl

    either_right : get_or uf.anchored (h.root b) false ≡ true → either ≡ true
    unfolding either
    either_right e =
        or_right (get_or uf.anchored (h.root a) false) (get_or uf.anchored (h.root b) false) e

    either_cases :
        either ≡ true
        → (get_or uf.anchored (h.root a) false ≡ true)
          ⊎ (get_or uf.anchored (h.root b) false ≡ true)
    unfolding either
    either_cases e = elim (Bool-cases (get_or uf.anchored (h.root a) false)) [
      | inl t ↦ inl t
      | inr t ↦ inr (sym (rw t refl) ∙ e)
    ]

    flag_at :
        (x : ℕ)
        → get_or uf.anchored x false ≡ true
        → get_or (set uf.anchored (h.root a) either) x false ≡ true
    flag_at x e = new_flag x ∙ elim (Bool-cases (h.root a == x)) [
      | inl t ↦
          rw t (either_left (ap (λ y. get_or uf.anchored y false) ((==_iff (h.root a) x).0 t) ∙ e))
      | inr t ↦ rw t e
    ]

    pub new_flagged :
        (i : ℕ)
        → Memᴰ (marks i) steps
        → get_or (set uf.anchored (h.root a) either) ((new_root h a b) i) false ≡ true
    new_flagged i m = elim ((new_root_cases h a b) i) [
      | inl (p, q) ↦
          subst (λ x. get_or (set uf.anchored (h.root a) either) x false ≡ true) (sym q)
            (new_flag (h.root a)
              ∙ (rw (==_same (h.root a))
                  (either_right (ap (λ y. get_or uf.anchored y false) (sym p) ∙ h.flagged i m))))
      | inr (p, q) ↦
          subst (λ x. get_or (set uf.anchored (h.root a) either) x false ≡ true) (sym q)
            (flag_at (h.root i) (h.flagged i m))
    ]

    pub new_marked :
        (r : ℕ)
        → (new_root h a b) r ≡ r
        → get_or (set uf.anchored (h.root a) either) r false ≡ true
        → (i : ℕ) × ((new_root h a b) i ≡ r) × Memᴰ (marks i) steps
    new_marked r e f = elim (Bool-cases (h.root a == r)) [
      | inl t ↦ elim (either_cases (sym (new_flag r ∙ (rw t refl)) ∙ f)) [
        | inl u ↦
            let (i, s, m) = h.marked (h.root a) (root-root h a) u in
            (i, stays_at (h.root a) i s apart ∙ (==_iff (h.root a) r).0 t, m)
        | inr u ↦
            let (i, s, m) = h.marked (h.root b) (root-root h b) u in
            (i, (moved h a b) i s ∙ (==_iff (h.root a) r).0 t, m)
      ]
      | inr t ↦
          let (p, q) = root_before r e t in
          let (i, s, m) = h.marked r p (sym (new_flag r ∙ (rw t refl)) ∙ f) in
          (i, stays_at r i s q, m)
    ]

    pub new_counted :
        (r : ℕ)
        → (new_root h a b) r ≡ r
        → r < length uf.parent
        → 1 ≤ get_or (set uf.node_count (h.root a) sum) r 0
    new_counted r e l = rw (new_count r) (elim (Bool-cases (h.root a == r)) [
      | inl t ↦ rw t (omega (arith, two))
      | inr t ↦ rw t (h.counted r (root_before r e t).0 l)
    ])

    pub new_many :
        (i : ℕ)
        → (new_root h a b) i ≢ i
        → 2 ≤ get_or (set uf.node_count (h.root a) sum) ((new_root h a b) i) 0
    new_many i n =
        rw (new_count ((new_root h a b) i)) (elim (Bool-cases (h.root a == (new_root h a b) i)) [
          | inl t ↦ rw t two
          | inr t ↦ rw t (elim ((new_root_cases h a b) i) [
            | inl (p, q) ↦
                absurd (false_ne_true (sym t ∙ (==_iff (h.root a) ((new_root h a b) i)).1 (sym q)))
            | inr (p, q) ↦
                subst (λ x. 2 ≤ get_or uf.node_count x 0) (sym q) (h.many i (λ z. n (q ∙ z)))
          ])
        ])

    pub new_several :
        (r : ℕ)
        → (new_root h a b) r ≡ r
        → 2 ≤ get_or (set uf.node_count (h.root a) sum) r 0
        → (i : ℕ) × ((new_root h a b) i ≡ r) × (i ≢ r)
    new_several r e c = elim (Bool-cases (h.root a == r)) [
      | inl t ↦ (
        h.root b,
        (moved h a b) (h.root b) (root-root h b) ∙ (==_iff (h.root a) r).0 t,
        λ z. apart ((==_iff (h.root a) r).0 t ∙ sym z),
      )
      | inr t ↦
          let (p, q) = root_before r e t in
          let (i, s, u) = h.several r p (subst (λ x. 2 ≤ x) (new_count r ∙ (rw t refl)) c) in
          (i, stays_at r i s q, u)
    ]
