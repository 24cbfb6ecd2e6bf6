-- ===== src/Prelude/Sorting.antt =====
-- `sort_by` of Rust's standard library, a stable sort, as insertion from the right.
use Prim.Native.Nat.{compare, Ordering}
use Prim.Native.Nat.Ordering.{lt, eq, gt}
use mathlib.Core.Bool.{Bool, ◌||◌}
use mathlib.Core.Path.{◌≡◌, refl, ap, ◌∙◌}
use mathlib.Core.Logic.{◌≢◌, ◌⊎◌, inl, inr}
use mathlib.Core.List.{List, [], ◌∷◌, Perm}
use mathlib.Core.List.Perm
use native.Mathlib.Omega.{arith}
use solana_audit_toolkit.Prelude.Lists.{All, All-imp, any}
use solana_audit_toolkit.Prelude.Texts.{Text}

-- `a.then(b)`
abbrev pub then_with : Ordering → Ordering → Ordering
then_with eq second = second
then_with lt second = lt
then_with gt second = gt

-- `cmp` of texts
unfoldable pub text_cmp : Text → Text → Ordering
text_cmp [] [] = eq
text_cmp [] (b ∷ t) = lt
text_cmp (a ∷ s) [] = gt
text_cmp (a ∷ s) (b ∷ t) = then_with (compare a b) (text_cmp s t)

module _ {ℓ} {A : Type ℓ} (cmp : A → A → Ordering) where
  unfoldable pub insert_by : A → List A → List A
  insert_by x [] = x ∷ []
  insert_by x (y ∷ ys) = elim (cmp x y) [ gt ↦ y ∷ insert_by x ys | _ ↦ x ∷ y ∷ ys ]

  unfoldable pub sort_by : List A → List A
  unfolding insert_by
  sort_by [] = []
  sort_by (x ∷ xs) = insert_by x (sort_by xs)

-- Each element is related to all later ones.
abbrev pub IsPairwise {ℓ κ} : {A : Type ℓ} → (A → A → Type κ) → List A → Type κ
IsPairwise R [] = Unit
IsPairwise R (x ∷ xs) = All (R x) xs × IsPairwise R xs

pub Ordering-cases : (o : Ordering) → (o ≡ lt) ⊎ (o ≡ eq) ⊎ (o ≡ gt)
Ordering-cases lt = inl refl
Ordering-cases eq = inr (inl refl)
Ordering-cases gt = inr (inr refl)

Ordering-is_gt : (o : Ordering) → Dec (o ≡ gt)
Ordering-is_gt lt = no (λ h. cc)
Ordering-is_gt eq = no (λ h. cc)
Ordering-is_gt gt = yes refl

module _ {ℓ} {A : Type ℓ} (cmp : A → A → Ordering) where
  insert_gt :
      (x y : A) (ys : List A) → cmp x y ≡ gt → insert_by cmp x (y ∷ ys) ≡ y ∷ insert_by cmp x ys
  unfolding insert_by
  insert_gt x y ys h = rw (h, insert_by)

  insert_le : (x y : A) (ys : List A) → cmp x y ≢ gt → insert_by cmp x (y ∷ ys) ≡ x ∷ y ∷ ys
  unfolding insert_by
  insert_le x y ys h = ground arith

  insert_by-perm : (x : A) (ys : List A) → Perm (insert_by cmp x ys) (x ∷ ys)
  unfolding insert_by
  insert_by-perm x [] = Perm.refl (x ∷ [])
  insert_by-perm x (y ∷ ys) = elim (Ordering-is_gt (cmp x y)) [
    | yes h ↦
        rw (insert_gt x y ys h) (Perm.trans (Perm.cons y (insert_by-perm x ys)) (Perm.swap x y ys))
    | no h ↦ rw (insert_le x y ys h) (Perm.refl (x ∷ y ∷ ys))
  ]

  pub sort_by-perm : (xs : List A) → Perm (sort_by cmp xs) xs
  unfolding sort_by
  sort_by-perm [] = Perm.refl []
  sort_by-perm (x ∷ xs) =
      Perm.trans (insert_by-perm x (sort_by cmp xs)) (Perm.cons x (sort_by-perm xs))

  insert_by-All {κ} :
      (P : A → Type κ) (x : A) (ys : List A) → P x → All P ys → All P (insert_by cmp x ys)
  insert_by-All P x [] h k = unfold insert_by in (h, tt)
  insert_by-All P x (y ∷ ys) h k = elim (Ordering-is_gt (cmp x y)) [
    | yes g ↦ rw (insert_gt x y ys g) (k.0, insert_by-All P x ys h k.1)
    | no g ↦ rw (insert_le x y ys g) (h, k)
  ]

  -- Sorting keeps what holds of every element.
  pub sort_by-All {κ} : (P : A → Type κ) (xs : List A) → All P xs → All P (sort_by cmp xs)
  unfolding sort_by
  sort_by-All P [] h = tt
  sort_by-All P (x ∷ xs) h = insert_by-All P x (sort_by cmp xs) h.0 (sort_by-All P xs h.1)

  insert_by-any :
      (p : A → Bool) (x : A) (ys : List A) → any p (insert_by cmp x ys) ≡ (p x || any p ys)
  insert_by-any p x [] = unfold insert_by in refl
  insert_by-any p x (y ∷ ys) = elim (Ordering-is_gt (cmp x y)) [
    | yes g ↦ rw (insert_gt x y ys g, insert_by-any p x ys) (or_under (p x) (p y) (any p ys))
    | no g ↦ rw (insert_le x y ys g) refl
  ]
    where
      or_under : (a b c : Bool) → (b || (a || c)) ≡ (a || (b || c))
      or_under a b c = ground arith

  -- Sorting keeps whether an element passes a test.
  pub sort_by-any : (p : A → Bool) (xs : List A) → any p (sort_by cmp xs) ≡ any p xs
  unfolding sort_by
  sort_by-any p [] = refl
  sort_by-any p (x ∷ xs) =
      insert_by-any p x (sort_by cmp xs) ∙ ap (λ b. p x || b) (sort_by-any p xs)

  insert_by_sorted :
      (x : A) (xs : List A) → All (λ y. cmp x y ≢ gt) xs → insert_by cmp x xs ≡ x ∷ xs
  insert_by_sorted x [] h = unfold insert_by in refl
  insert_by_sorted x (y ∷ ys) h = insert_le x y ys h.0

  -- A list in order stays as it is.
  pub sort_by_sorted : (xs : List A) → IsPairwise (λ x y. cmp x y ≢ gt) xs → sort_by cmp xs ≡ xs
  unfolding sort_by
  sort_by_sorted [] h = refl
  sort_by_sorted (x ∷ xs) h = rw (sort_by_sorted xs h.1) (insert_by_sorted x xs h.0)

module _ {ℓ κ} {A : Type ℓ} (cmp : A → A → Ordering) (R : A → A → Type κ)
    (of_le : (a b : A) → cmp a b ≢ gt → R a b) (of_gt : (a b : A) → cmp a b ≡ gt → R b a)
    (R-trans : (a b c : A) → R a b → R b c → R a c) where
  insert_by-IsPairwise : (x : A) (ys : List A) → IsPairwise R ys → IsPairwise R (insert_by cmp x ys)
  insert_by-IsPairwise x [] h = unfold insert_by in (tt, tt)
  insert_by-IsPairwise x (y ∷ ys) h = elim (Ordering-is_gt (cmp x y)) [
    | yes g ↦
        rw (insert_gt cmp x y ys g)
          (insert_by-All cmp (R y) x ys (of_gt x y g) h.0, insert_by-IsPairwise x ys h.1)
    | no g ↦
        rw (insert_le cmp x y ys g)
          ((of_le x y g, All-imp (λ z r. R-trans x y z (of_le x y g) r) ys h.0), h)
  ]

  -- A sorted list is in order, for any order that the comparison decides.
  pub sort_by-IsPairwise : (xs : List A) → IsPairwise R (sort_by cmp xs)
  unfolding sort_by
  sort_by-IsPairwise [] = tt
  sort_by-IsPairwise (x ∷ xs) = insert_by-IsPairwise x (sort_by cmp xs) (sort_by-IsPairwise xs)
