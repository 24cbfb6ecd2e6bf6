-- ===== src/Sat/Native/Resolver/Table.antt =====
-- The invariant of the account table (crates/sat/src/native/frontend.rs): its keys rise, and each
-- account stands at its own position.
use solana_audit_toolkit.Prelude.{
  ℕ, ◌<◌, ◌≡◌, inl, inr, refl, ◌∙◌, Bool, ◌||◌, ◌==◌, compare, Ordering, Ordering-cases, [], ◌∷◌,
  any, All, All-imp, compare-lt, compare-gt, IsPairwise, arith,
}
use solana_audit_toolkit.Sat.Native.Model.{ResolvedAccount}
use solana_audit_toolkit.Sat.Native.Resolver.{AccountTable, upsert}

pub record IsTable (t : AccountTable) : Type 0 where
  pub rising : IsPairwise (λ (x y : ℕ × ResolvedAccount). x.0 < y.0) t
  pub in_place : All (λ (x : ℕ × ResolvedAccount). x.1.index ≡ x.0) t

-- The table has an account at position `k`.
abbrev pub has_key : ℕ → AccountTable → Bool
has_key k t = any (λ (x : ℕ × ResolvedAccount). x.0 == k) t

pub upsert-has_key :
    (i k : ℕ) (d : ResolvedAccount) (f : ResolvedAccount → ResolvedAccount) (t : AccountTable)
    → has_key k (upsert i d f t) ≡ ((i == k) || has_key k t)
unfolding upsert
upsert-has_key i k d f [] = refl
upsert-has_key i k d f (e ∷ es) = ground (arith, upsert-has_key i k d f es)

module _ (i : ℕ) (d : ResolvedAccount) (f : ResolvedAccount → ResolvedAccount)
    (e : ℕ × ResolvedAccount) (es : AccountTable) where
  upsert-lt : compare i e.0 ≡ Ordering.lt → upsert i d f (e ∷ es) ≡ (i, f d) ∷ e ∷ es
  unfolding upsert
  upsert-lt h = rw (h, upsert) refl

  upsert-eq : compare i e.0 ≡ Ordering.eq → upsert i d f (e ∷ es) ≡ (e.0, f e.1) ∷ es
  unfolding upsert
  upsert-eq h = rw (h, upsert) refl

  upsert-gt : compare i e.0 ≡ Ordering.gt → upsert i d f (e ∷ es) ≡ e ∷ upsert i d f es
  unfolding upsert
  upsert-gt h = rw (h, upsert) refl

-- What holds of all entries holds after an entry is added or changed, if it holds of that one.
pub upsert-All :
    (P : ℕ × ResolvedAccount → Type 0) (i : ℕ) (d : ResolvedAccount)
    (f : ResolvedAccount → ResolvedAccount) (t : AccountTable)
    → P (i, f d)
    → ((a : ResolvedAccount) (k : ℕ) → P (k, a) → P (k, f a))
    → All P t
    → All P (upsert i d f t)
unfolding upsert
upsert-All P i d f [] h g k = (h, tt)
upsert-All P i d f (e ∷ es) h g k = elim (Ordering-cases (compare i e.0)) [
  | inl o ↦ rw (upsert-lt i d f e es o) (h, k)
  | inr (inl o) ↦ rw (upsert-eq i d f e es o) (g e.1 e.0 k.0, k.1)
  | inr (inr o) ↦ rw (upsert-gt i d f e es o) (k.0, upsert-All P i d f es h g k.1)
]

upsert-rising :
    (i : ℕ) (d : ResolvedAccount) (f : ResolvedAccount → ResolvedAccount) (t : AccountTable)
    → IsPairwise (λ (x y : ℕ × ResolvedAccount). x.0 < y.0) t
    → IsPairwise (λ (x y : ℕ × ResolvedAccount). x.0 < y.0) (upsert i d f t)
upsert-rising i d f [] v = unfold upsert in (tt, tt)
upsert-rising i d f (e ∷ es) v = elim (Ordering-cases (compare i e.0)) [
  | inl o ↦
      let less : i < e.0 = compare-lt i e.0 o in
      rw (upsert-lt i d f e es o) ((less, All-imp (λ x l. omega arith) es v.0), v)
  | inr (inl o) ↦ rw (upsert-eq i d f e es o) v
  | inr (inr o) ↦ rw (upsert-gt i d f e es o) (
    upsert-All (λ (x : ℕ × ResolvedAccount). e.0 < x.0) i d f es (compare-gt i e.0 o) (λ a k p. p)
        v.0,
    upsert-rising i d f es v.1,
  )
]

pub upsert-IsTable :
    (i : ℕ) (d : ResolvedAccount) (f : ResolvedAccount → ResolvedAccount) (t : AccountTable)
    → d.index ≡ i
    → ((a : ResolvedAccount) → (f a).index ≡ a.index)
    → IsTable t
    → IsTable (upsert i d f t)
upsert-IsTable i d f t h g v = record {
  rising = upsert-rising i d f t v.rising;
  in_place =
      upsert-All (λ (x : ℕ × ResolvedAccount). x.1.index ≡ x.0) i d f t (g d ∙ h) (λ a k p. g a ∙ p)
        v.in_place;
}
