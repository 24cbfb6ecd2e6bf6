-- ===== src/Sat/Native/Validate/Anchors.antt =====
-- crates/sat/src/native/rules/validate.rs: what the union-find holds after a component is anchored.
use mathlib.Core.Path.{subst}
use mathlib.Core.List.Memᴰ
use mathlib.Core.List.{Memᴰ}
use solana_audit_toolkit.Prelude.{
  ℕ, ◌≤◌, ◌<◌, ◌==◌, ==_iff, ◌≡◌, inl, inr, refl, sym, ap, ◌∙◌, true, false, List, [], ◌∷◌, ◌++◌,
  length, length-set, get_or, set, get_or-set, if◌then◌else◌, Bool-cases,
}
use solana_audit_toolkit.Sat.Native.Validate.UnionFind.{UnionFind, find_root, mark_anchored}
use solana_audit_toolkit.Sat.Native.Validate.Forest.{
  Step, marks, Linked-append, Holds, Holds-flatter,
}
use solana_audit_toolkit.Sat.Native.Validate.History.{marks_cases, links_before}
use solana_audit_toolkit.Sat.Native.Validate.Steps.{find_root-Holds, after_find, found_root}

module _ {steps : List Step} {d : ℕ} {uf : UnionFind} (h : Holds steps d uf) (a : ℕ)
    (a_in : a < length uf.parent) where
  new_flag :
      (x : ℕ)
      → get_or (set uf.anchored (h.root a) true) x false
        ≡ (if h.root a == x then true else get_or uf.anchored x false)
  new_flag x =
      get_or-set uf.anchored (h.root a) true x false
        (subst (λ n. h.root a < n) (sym h.anchored_sized) (h.bounded a a_in))

  at_root : get_or (set uf.anchored (h.root a) true) (h.root a) false ≡ true
  at_root = new_flag (h.root a) ∙ (rw ((==_iff (h.root a) (h.root a)).1 refl) refl)

  new_flagged :
      (i : ℕ)
      → Memᴰ (marks i) (steps ++ marks a ∷ [])
      → get_or (set uf.anchored (h.root a) true) (h.root i) false ≡ true
  new_flagged i m = elim (marks_cases m) [
    | inl l ↦ new_flag (h.root i) ∙ elim (Bool-cases (h.root a == h.root i)) [
      | inl t ↦ rw t refl
      | inr t ↦ rw t (h.flagged i l)
    ]
    | inr e ↦ ap (λ x. get_or (set uf.anchored (h.root a) true) (h.root x) false) e ∙ at_root
  ]

  new_marked :
      (r : ℕ)
      → h.root r ≡ r
      → get_or (set uf.anchored (h.root a) true) r false ≡ true
      → (i : ℕ) × (h.root i ≡ r) × Memᴰ (marks i) (steps ++ marks a ∷ [])
  new_marked r e f = elim (Bool-cases (h.root a == r)) [
    | inl t ↦ (a, (==_iff (h.root a) r).0 t, Memᴰ.append_right steps (Memᴰ.head refl))
    | inr t ↦
        let (i, s, m) = h.marked r e (sym (new_flag r ∙ (rw t refl)) ∙ f) in
        (i, s, Memᴰ.append_left (marks a ∷ []) m)
  ]

  pub anchor-Holds :
      Holds (steps ++ marks a ∷ []) d (record uf { anchored = set uf.anchored (h.root a) true })
  anchor-Holds = record {
    root = h.root;
    rooted = h.rooted;
    stays = h.stays;
    bounded = h.bounded;
    counts_sized = h.counts_sized;
    anchored_sized = length-set uf.anchored (h.root a) true ∙ h.anchored_sized;
    same_root = λ i j m. h.same_root i j (links_before a m);
    linked = λ i. Linked-append (marks a ∷ []) (h.linked i);
    flagged = new_flagged;
    marked = new_marked;
    counted = h.counted;
    many = h.many;
    several = h.several;
  }

pub mark_anchored-Holds :
    {steps : List Step} {d : ℕ} {uf : UnionFind} (fuel : ℕ)
    → d ≤ fuel
    → Holds steps d uf
    → (a : ℕ) → a < length uf.parent
    → Holds (steps ++ marks a ∷ []) d (mark_anchored fuel a uf)
unfolding mark_anchored after_find Holds-flatter
mark_anchored-Holds {steps} {d} {uf} fuel enough h a a_in =
    subst
      (λ r.
        Holds (steps ++ marks a ∷ []) d (record uf {
          parent = (find_root fuel uf.parent a).0;
          anchored = set uf.anchored r true;
        }))
      (sym (found_root fuel enough h a))
      (anchor-Holds (after_find fuel enough h a) a
        (subst (λ n. a < n) (sym ((find_root-Holds fuel enough h a).same_length)) a_in))
