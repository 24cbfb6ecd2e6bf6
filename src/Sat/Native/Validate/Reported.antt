-- ===== src/Sat/Native/Validate/Reported.antt =====
-- crates/sat/src/native/rules/validate.rs: which roots the last loop of `sat031_findings` reports, and when
-- a component is of `key` fields alone.
use mathlib.Core.List.Memᴰ
use mathlib.Core.List.{Memᴰ}
use solana_audit_toolkit.Prelude.{
  Text, codes, text_eq, ℕ, zero, suc, ◌+◌, ◌≤◌, ◌<◌, ◌==◌, ==_iff, ◌≡◌, ◌≢◌, inl, inr, refl, sym,
  ap, ◌∙◌, false, not, ◌&&◌, ◌||◌, List, [], ◌∷◌, map, get_or, Bool-cases, and_left, and_right,
  not-true, false_ne_true, true_ne_false, IsPairwise, members-All, arith,
}
use solana_audit_toolkit.Sat.Native.Validate.{has}
use solana_audit_toolkit.Sat.Native.Validate.UnionFind.{UnionFind, positions_from}
use solana_audit_toolkit.Sat.Native.Validate.Report.{all_keys_from, is_quiet, reported_from}

-- A position of the list, and its bounds.
pub positions_from-bounds : (n i k : ℕ) → Memᴰ k (positions_from n i) → (i ≤ k) × (k < i + n)
unfolding positions_from
positions_from-bounds zero i k m = absurd (Memᴰ.not-nil m)
positions_from-bounds (suc n) i k m = elim (Memᴰ.cases_cons m) [
  | inl e ↦ (omega arith, omega arith)
  | inr l ↦ let (a, b) = positions_from-bounds n (suc i) k l in (omega (arith, a), omega (arith, b))
]

pub positions_from-all : (n i k : ℕ) → i ≤ k → k < i + n → Memᴰ k (positions_from n i)
unfolding positions_from
positions_from-all zero i k a b = absurd (omega arith)
positions_from-all (suc n) i k a b = elim (Bool-cases (k == i)) [
  | inl e ↦ Memᴰ.head ((==_iff k i).0 e)
  | inr e ↦ Memᴰ.tail (positions_from-all n (suc i) k (ground (arith, a)) (omega (arith, b)))
]

module _ (uf : UnionFind) (roots : List ℕ) where
  -- A reported root is one of the roots, unseen, and loud.
  pub record Loud (seen rs : List ℕ) (r : ℕ) : Type 0 where
    pub among : Memᴰ r rs
    pub unseen : has seen r ≡ false
    pub loud : is_quiet uf roots r ≡ false

  later_Loud : (seen rs : List ℕ) (root r : ℕ) → Loud (root ∷ seen) rs r → Loud seen (root ∷ rs) r
  later_Loud seen rs root r l = record {
    among = Memᴰ.tail l.among;
    unseen = or_false l.unseen;
    loud = l.loud;
  }
    where
      or_false : (root == r || has seen r) ≡ false → has seen r ≡ false
      or_false e = ground (arith, e)

  pub reported_from-Loud :
      (seen rs : List ℕ) (r : ℕ) → Memᴰ r (reported_from uf roots seen rs) → Loud seen rs r
  unfolding reported_from
  reported_from-Loud seen [] r m = absurd (Memᴰ.not-nil m)
  reported_from-Loud seen (root ∷ rs) r m = elim (Bool-cases (has seen root)) [
    | inl e ↦
        let l = reported_from-Loud seen rs r (rw (reported_from, e) at m) in
        record { among = Memᴰ.tail l.among; unseen = l.unseen; loud = l.loud }
    | inr e ↦ elim (Bool-cases (is_quiet uf roots root)) [
      | inl q ↦
          later_Loud seen rs root r
            (reported_from-Loud (root ∷ seen) rs r (rw (reported_from, e, q) at m))
      | inr q ↦ at_loud e q (reported_from-Loud (root ∷ seen) rs r) (rw (reported_from, e, q) at m)
    ]
  ]
    where
      at_loud :
          has seen root ≡ false
          → is_quiet uf roots root ≡ false
          → (Memᴰ r (reported_from uf roots (root ∷ seen) rs) → Loud (root ∷ seen) rs r)
          → Memᴰ r (root ∷ reported_from uf roots (root ∷ seen) rs)
          → Loud seen (root ∷ rs) r
      at_loud e q below m = elim (Memᴰ.cases_cons m) [
        | inl t ↦ record {
          among = Memᴰ.head t;
          unseen = ap (has seen) t ∙ e;
          loud = ap (is_quiet uf roots) t ∙ q;
        }
        | inr t ↦ later_Loud seen rs root r (below t)
      ]

  pub Loud-reported_from :
      (seen rs : List ℕ) (r : ℕ) → Loud seen rs r → Memᴰ r (reported_from uf roots seen rs)
  unfolding reported_from
  Loud-reported_from seen [] r l = absurd (Memᴰ.not-nil l.among)
  Loud-reported_from seen (root ∷ rs) r l = elim (Bool-cases (has seen root)) [
    | inl e ↦
        rw (reported_from, e)
          (elim (Memᴰ.cases_cons l.among) [
            | inl t ↦ absurd (true_ne_false (sym e ∙ (ap (has seen) (sym t) ∙ l.unseen)))
            | inr t ↦
                Loud-reported_from seen rs r
                  (record { among = t; unseen = l.unseen; loud = l.loud })
          ])
    | inr e ↦ elim (Bool-cases (root == r)) [
      | inl t ↦
          rw (reported_from, e, ap (is_quiet uf roots) ((==_iff root r).0 t) ∙ l.loud)
            (Memᴰ.head (sym ((==_iff root r).0 t)))
      | inr t ↦ elim (Bool-cases (is_quiet uf roots root)) [
        | inl q ↦ rw (reported_from, e, q) (Loud-reported_from (root ∷ seen) rs r (later t))
        | inr q ↦
            rw (reported_from, e, q) (Memᴰ.tail (Loud-reported_from (root ∷ seen) rs r (later t)))
      ]
    ]
  ]
    where
      later : (root == r) ≡ false → Loud (root ∷ seen) rs r
      later t = record {
        among = elim (Memᴰ.cases_cons l.among) [
          | inl q ↦ absurd (false_ne_true (sym t ∙ (==_iff root r).1 (sym q)))
          | inr q ↦ q
        ];
        unseen = rw (t, l.unseen) refl;
        loud = l.loud;
      }

  -- No root is reported twice.
  pub reported_from-different :
      (seen rs : List ℕ) → IsPairwise (λ x y. x ≢ y) (reported_from uf roots seen rs)
  unfolding reported_from
  reported_from-different seen [] = tt
  reported_from-different seen (root ∷ rs) = elim (Bool-cases (has seen root)) [
    | inl e ↦ rw (reported_from, e) (reported_from-different seen rs)
    | inr e ↦ elim (Bool-cases (is_quiet uf roots root)) [
      | inl q ↦ rw (reported_from, e, q) (reported_from-different (root ∷ seen) rs)
      | inr q ↦
          rw (reported_from, e, q)
            (
              members-All (λ y. root ≢ y) (reported_from uf roots (root ∷ seen) rs) fresh,
              reported_from-different (root ∷ seen) rs,
            )
    ]
  ]
    where
      fresh : (y : ℕ) → Memᴰ y (reported_from uf roots (root ∷ seen) rs) → root ≢ y
      fresh y m t =
          true_ne_false
            (sym (rw ((==_iff root y).1 t) refl) ∙ (reported_from-Loud (root ∷ seen) rs y m).unseen)

-- A component is of keys alone up to a node of it with another field.
module _ (fields : List Text) (root : ℕ → ℕ) (r : ℕ) where
  abbrev pub IsTelling : ℕ → Type 0
  IsTelling k = (root k ≡ r) × (text_eq (get_or fields k []) (codes "key") ≡ false)

  pub all_keys_from-Telling :
      (n i : ℕ)
      → all_keys_from fields i (map root (positions_from n i)) r ≡ false
      → (k : ℕ) × (i ≤ k) × (k < i + n) × IsTelling k
  unfolding all_keys_from positions_from
  all_keys_from-Telling zero i h = absurd (true_ne_false h)
  all_keys_from-Telling (suc n) i h =
      elim (Bool-cases ((root i == r) && not (text_eq (get_or fields i []) (codes "key")))) [
        | inl t ↦ (
          i,
          omega arith,
          omega arith,
          (
            (==_iff (root i) r).0
                (and_left (root i == r) (not (text_eq (get_or fields i []) (codes "key"))) t),
            not-true (text_eq (get_or fields i []) (codes "key"))
                (and_right (root i == r) (not (text_eq (get_or fields i []) (codes "key"))) t),
          ),
        )
        | inr t ↦
            let (k, a, b, v) = all_keys_from-Telling n (suc i) (sym (rw t refl) ∙ h) in
            (k, omega (arith, a), omega (arith, b), v)
      ]

  pub Telling-all_keys_from :
      (n i k : ℕ)
      → i ≤ k
      → k < i + n
      → IsTelling k
      → all_keys_from fields i (map root (positions_from n i)) r ≡ false
  unfolding all_keys_from positions_from
  Telling-all_keys_from zero i k a b t = absurd (omega arith)
  Telling-all_keys_from (suc n) i k a b t = elim (Bool-cases (k == i)) [
    | inl e ↦
        rw
          (
            (==_iff (root i) r).1 (ap root (sym ((==_iff k i).0 e)) ∙ t.0),
            ap (λ x. text_eq (get_or fields x []) (codes "key")) (sym ((==_iff k i).0 e)) ∙ t.1,
          )
          refl
    | inr e ↦
        ground (arith, Telling-all_keys_from n (suc i) k (ground (arith, a)) (omega (arith, b)) t)
  ]
