-- ===== src/Sat/Native/Validate/Joins.antt =====
-- crates/sat/src/native/rules/validate.rs: what the union-find holds after `union` links two roots.
use mathlib.Core.Path.{subst}
use mathlib.Core.List.Memᴰ
use mathlib.Core.List.{Memᴰ}
use solana_audit_toolkit.Prelude.{
  ℕ, suc, ◌<◌, ◌==◌, ==_iff, ◌≡◌, ◌≢◌, ◌⊎◌, inl, inr, refl, sym, ap, ◌∙◌, true, false, List, [],
  ◌∷◌, ◌++◌, length, length-set, set, if◌then◌else◌, Bool-cases, false_ne_true,
}
use solana_audit_toolkit.Sat.Native.Validate.UnionFind.{UnionFind, link}
use solana_audit_toolkit.Sat.Native.Validate.Forest.{
  Step, links, Linked, by_link, back, through, Linked-append, Holds, Holds-deeper,
}
use solana_audit_toolkit.Sat.Native.Validate.History.{links_cases, marks_before}
use solana_audit_toolkit.Sat.Native.Validate.Moves.{
  new_root, moved, kept, new_root_cases, new_root-IsRoot, chase_linked,
}
use solana_audit_toolkit.Sat.Native.Validate.Counts.{
  sum, either, new_flagged, new_marked, new_counted, new_many, new_several,
}

module _ {steps : List Step} {d : ℕ} {uf : UnionFind} (h : Holds steps d uf) (a b : ℕ) where
  -- A link within a component changes nothing.
  pub same_component : h.root a ≡ h.root b → Holds (steps ++ links a b ∷ []) d uf
  same_component e = record {
    root = h.root;
    rooted = h.rooted;
    stays = h.stays;
    bounded = h.bounded;
    counts_sized = h.counts_sized;
    anchored_sized = h.anchored_sized;
    same_root = λ i j m. elim (links_cases m) [
      | inl l ↦ h.same_root i j l
      | inr (p, q) ↦ ap h.root p ∙ (e ∙ ap h.root (sym q))
    ];
    linked = λ i. Linked-append (links a b ∷ []) (h.linked i);
    flagged = λ i m. h.flagged i (marks_before a b m);
    marked = λ r p q. let (i, s, m) = h.marked r p q in (i, s, Memᴰ.append_left (links a b ∷ []) m);
    counted = h.counted;
    many = h.many;
    several = h.several;
  }

  module _ (a_in : a < length uf.parent) (b_in : b < length uf.parent)
      (apart : h.root a ≢ h.root b) where
    node_to_root : (i : ℕ) → Linked (steps ++ links a b ∷ []) i ((new_root h a b) i)
    node_to_root i = elim ((new_root_cases h a b) i) [
      | inl (p, q) ↦ subst (Linked (steps ++ links a b ∷ []) i) (sym q) (
          through (Linked-append (links a b ∷ []) (subst (Linked steps i) p (h.linked i))) (
            through (back (Linked-append (links a b ∷ []) (h.linked b))) (
              through (back (by_link a b (Memᴰ.append_right steps (Memᴰ.head refl))))
                (Linked-append (links a b ∷ []) (h.linked a)))))
      | inr (p, q) ↦
          subst (Linked (steps ++ links a b ∷ []) i) (sym q)
            (Linked-append (links a b ∷ []) (h.linked i))
    ]

    new_same_root :
        (i j : ℕ)
        → Memᴰ (links i j) (steps ++ links a b ∷ [])
        → (new_root h a b) i ≡ (new_root h a b) j
    unfolding new_root
    new_same_root i j m = elim (links_cases m) [
      | inl l ↦ ap (λ r. if r == h.root b then h.root a else r) (h.same_root i j l)
      | inr (p, q) ↦
          ap (new_root h a b) p
          ∙ ((kept h a b) a apart ∙ (sym ((moved h a b) b refl) ∙ ap (new_root h a b) (sym q)))
    ]

    new_bounded : (i : ℕ) → i < length uf.parent → (new_root h a b) i < length uf.parent
    new_bounded i l = elim ((new_root_cases h a b) i) [
      | inl (p, q) ↦ subst (λ x. x < length uf.parent) (sym q) (h.bounded a a_in)
      | inr (p, q) ↦ subst (λ x. x < length uf.parent) (sym q) (h.bounded i l)
    ]

    same_parents : length (set uf.parent (h.root b) (h.root a)) ≡ length uf.parent
    same_parents = length-set uf.parent (h.root b) (h.root a)

    two_components : Holds (steps ++ links a b ∷ []) (suc d) (link (h.root a) (h.root b) uf)
    unfolding link sum either
    two_components =
        rw (link, differ (Bool-cases (h.root a == h.root b)))
          (record {
            root = (new_root h a b);
            rooted = (chase_linked h a b a_in b_in apart);
            stays = (new_root-IsRoot h a b a_in b_in apart);
            bounded = λ i l.
                subst (λ n. (new_root h a b) i < n) (sym same_parents)
                  (new_bounded i (subst (λ n. i < n) same_parents l));
            counts_sized =
                length-set uf.node_count (h.root a) (sum h a b a_in b_in apart)
                ∙ (h.counts_sized ∙ sym same_parents);
            anchored_sized =
                length-set uf.anchored (h.root a) (either h a b a_in b_in apart)
                ∙ (h.anchored_sized ∙ sym same_parents);
            same_root = new_same_root;
            linked = node_to_root;
            flagged = λ i m. (new_flagged h a b a_in b_in apart) i (marks_before a b m);
            marked = λ r e f.
                let (i, s, m) = (new_marked h a b a_in b_in apart) r e f in
                (i, s, Memᴰ.append_left (links a b ∷ []) m);
            counted = λ r e l.
                (new_counted h a b a_in b_in apart) r e (subst (λ n. r < n) same_parents l);
            many = (new_many h a b a_in b_in apart);
            several = (new_several h a b a_in b_in apart);
          })
      where
        differ :
            ((h.root a == h.root b) ≡ true) ⊎ ((h.root a == h.root b) ≡ false)
            → (h.root a == h.root b) ≡ false
        differ (inl e) = absurd (apart ((==_iff (h.root a) (h.root b)).0 e))
        differ (inr e) = e

  -- Linking the roots of two nodes.
  pub link-Holds :
      a < length uf.parent
      → b < length uf.parent
      → Holds (steps ++ links a b ∷ []) (suc d) (link (h.root a) (h.root b) uf)
  unfolding link
  link-Holds a_in b_in = elim (Bool-cases (h.root a == h.root b)) [
    | inl e ↦ rw (link, e) (Holds-deeper (same_component ((==_iff (h.root a) (h.root b)).0 e)))
    | inr e ↦
        two_components a_in b_in (λ q. false_ne_true (sym e ∙ (==_iff (h.root a) (h.root b)).1 q))
  ]
