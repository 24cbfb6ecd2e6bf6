-- ===== src/Prelude/Lists.antt =====
-- Lists measured and indexed by native numbers, under the library's names.
use Prim.Native.Nat.{ℕ, zero, suc, ◌+◌, ◌≤◌, ◌<◌}
use mathlib.Core.Path.{◌≡◌, refl, ap, ◌∙◌}
use mathlib.Core.Bool.{Bool, true, false, ◌||◌, ◌&&◌}
use mathlib.Core.List.{List, [], ◌∷◌, ◌++◌, map, Memᴰ}
use mathlib.Core.Option.{Option, none, some}
use native.Mathlib.Omega.{arith}
use solana_audit_toolkit.Prelude.Tests.{◌==◌, if◌then◌else◌, Bool-cases, and_left, and_right}
use mathlib.Core.Logic.{inl, inr}

module _ {ℓ} {A : Type ℓ} where
  abbrev pub length : List A → ℕ
  length [] = 0
  length (x ∷ xs) = suc (length xs)

  abbrev pub take : ℕ → List A → List A
  take zero xs = []
  take (suc n) [] = []
  take (suc n) (x ∷ xs) = x ∷ take n xs

  abbrev pub drop : ℕ → List A → List A
  drop zero xs = xs
  drop (suc n) [] = []
  drop (suc n) (x ∷ xs) = drop n xs

  abbrev pub get_elem? : List A → ℕ → Option A
  get_elem? [] i = none
  get_elem? (x ∷ xs) zero = some x
  get_elem? (x ∷ xs) (suc i) = get_elem? xs i

  abbrev pub get_or : List A → ℕ → A → A
  get_or [] i d = d
  get_or (x ∷ xs) zero d = x
  get_or (x ∷ xs) (suc i) d = get_or xs i d

  -- A write out of bounds changes nothing.
  abbrev pub set : List A → ℕ → A → List A
  set [] i v = []
  set (x ∷ xs) zero v = v ∷ xs
  set (x ∷ xs) (suc i) v = x ∷ set xs i v

  pub length-set : (xs : List A) (i : ℕ) (v : A) → length (set xs i v) ≡ length xs
  length-set [] i v = refl
  length-set (x ∷ xs) zero v = refl
  length-set (x ∷ xs) (suc i) v = ap suc (length-set xs i v)

  pub get_or-set :
      (xs : List A) (i : ℕ) (v : A) (j : ℕ) (d : A)
      → i < length xs
      → get_or (set xs i v) j d ≡ (if i == j then v else get_or xs j d)
  get_or-set [] i v j d h = absurd (omega arith)
  get_or-set (x ∷ xs) zero v zero d h = refl
  get_or-set (x ∷ xs) zero v (suc j) d h = ground arith
  get_or-set (x ∷ xs) (suc i) v zero d h = ground arith
  get_or-set (x ∷ xs) (suc i) v (suc j) d h =
      get_or-set xs i v j d (omega arith) ∙ ap (λ b. if b then v else get_or xs j d) (suc_test i j)
    where
      suc_test : (i j : ℕ) → (i == j) ≡ (suc i == suc j)
      suc_test i j = ground arith

  pub get_or_beyond : (xs : List A) (i : ℕ) (d : A) → length xs ≤ i → get_or xs i d ≡ d
  get_or_beyond [] i d h = refl
  get_or_beyond (x ∷ xs) zero d h = absurd (omega arith)
  get_or_beyond (x ∷ xs) (suc i) d h = get_or_beyond xs i d (omega arith)

  -- `iter().any(p)`
  abbrev pub any : (A → Bool) → List A → Bool
  any p [] = false
  any p (x ∷ xs) = p x || any p xs

  -- `iter().all(p)`
  abbrev pub all : (A → Bool) → List A → Bool
  all p [] = true
  all p (x ∷ xs) = p x && all p xs

  -- `iter().find(p)`
  abbrev pub find : (A → Bool) → List A → Option A
  find p [] = none
  find p (x ∷ xs) = let rest = find p xs in if p x then some x else rest

  -- `retain(p)` and `iter().filter(p)`
  abbrev pub retain : (A → Bool) → List A → List A
  retain p [] = []
  retain p (x ∷ xs) = let rest = retain p xs in if p x then x ∷ rest else rest

  pub length-append : (xs ys : List A) → length (xs ++ ys) ≡ length xs + length ys
  length-append [] ys = omega arith
  length-append (x ∷ xs) ys = omega (arith, length-append xs ys)

  pub take-append-drop : (n : ℕ) (xs : List A) → take n xs ++ drop n xs ≡ xs
  take-append-drop zero xs = refl
  take-append-drop (suc n) [] = refl
  take-append-drop (suc n) (x ∷ xs) = ap (◌∷◌ x) (take-append-drop n xs)

  pub length-take : (n : ℕ) (xs : List A) → n ≤ length xs → length (take n xs) ≡ n
  length-take zero xs h = refl
  length-take (suc n) [] h = absurd (omega arith)
  length-take (suc n) (x ∷ xs) h = ap suc (length-take n xs (omega arith))

  pub take-length : (xs : List A) → take (length xs) xs ≡ xs
  take-length [] = refl
  take-length (x ∷ xs) = ap (◌∷◌ x) (take-length xs)

  pub take_beyond : (n : ℕ) (xs : List A) → length xs ≤ n → take n xs ≡ xs
  take_beyond zero [] h = refl
  take_beyond zero (x ∷ xs) h = absurd (omega arith)
  take_beyond (suc n) [] h = refl
  take_beyond (suc n) (x ∷ xs) h = ap (◌∷◌ x) (take_beyond n xs (omega arith))

-- Every element satisfies `P`, by recursion.
abbrev pub All {ℓ κ} : {A : Type ℓ} → (A → Type κ) → List A → Type κ
All P [] = Unit
All P (x ∷ xs) = P x × All P xs

module _ {ℓ} {A : Type ℓ} (p : A → Bool) where
  pub any-append : (xs ys : List A) → any p (xs ++ ys) ≡ (any p xs || any p ys)
  any-append [] ys = refl
  any-append (x ∷ xs) ys = ground (arith, any-append xs ys)

module _ {ℓ} {A : Type ℓ} where
  pub length-retain : (p : A → Bool) (xs : List A) → length (retain p xs) ≤ length xs
  length-retain p [] = omega arith
  length-retain p (x ∷ xs) = ground (arith, length-retain p xs)

  -- A test of what is kept is a test of both.
  pub any-retain : (p q : A → Bool) (xs : List A) → any p (retain q xs) ≡ any (λ x. q x && p x) xs
  any-retain p q [] = refl
  any-retain p q (x ∷ xs) = ground (arith, any-retain p q xs)

  pub retain-All : (q : A → Bool) (xs : List A) → All (λ x. q x ≡ true) (retain q xs)
  retain-All q [] = tt
  retain-All q (x ∷ xs) = elim (Bool-cases (q x)) [
    | inl e ↦ rw e (e, retain-All q xs)
    | inr e ↦ rw e (retain-All q xs)
  ]

  pub retain_kept : (q : A → Bool) (xs : List A) → All (λ x. q x ≡ true) xs → retain q xs ≡ xs
  retain_kept q [] h = refl
  retain_kept q (x ∷ xs) h = rw (h.0, retain_kept q xs h.1)

  pub retain-retain : (q : A → Bool) (xs : List A) → retain q (retain q xs) ≡ retain q xs
  retain-retain q xs = retain_kept q (retain q xs) (retain-All q xs)

  -- What a map leaves unchanged under the test can be mapped before or after.
  pub retain-map :
      (q : A → Bool) (f : A → A)
      → ((x : A) → q (f x) ≡ q x)
      → (xs : List A) → retain q (map f xs) ≡ map f (retain q xs)
  retain-map q f h [] = refl
  retain-map q f h (x ∷ xs) = elim (Bool-cases (q x)) [
    | inl e ↦ rw (h x, e, retain-map q f h xs)
    | inr e ↦ rw (h x, e, retain-map q f h xs)
  ]

  pub retain_comm : (p q : A → Bool) (xs : List A) → retain p (retain q xs) ≡ retain q (retain p xs)
  retain_comm p q [] = refl
  retain_comm p q (x ∷ xs) = ground (arith, retain_comm p q xs)

  pub map-map_same :
      (f : A → A) → ((x : A) → f (f x) ≡ f x) → (xs : List A) → map f (map f xs) ≡ map f xs
  map-map_same f h [] = refl
  map-map_same f h (x ∷ xs) = rw (h x, map-map_same f h xs)

-- `unwrap_or`, `or_else`, `is_some` and the like, by clauses.
module _ {ℓ} {A : Type ℓ} where
  abbrev pub unwrap_or : Option A → A → A
  unwrap_or none d = d
  unwrap_or (some a) d = a

  abbrev pub or_else : Option A → Option A → Option A
  or_else none o = o
  or_else (some a) o = some a

  -- `get_or_insert`
  abbrev pub get_or_insert : Option A → A → Option A
  get_or_insert none a = some a
  get_or_insert (some b) a = some b

  abbrev pub is_some : Option A → Bool
  is_some none = false
  is_some (some a) = true

  -- `iter().first()`
  abbrev pub first : List A → Option A
  first [] = none
  first (x ∷ xs) = some x

  abbrev pub is_empty : List A → Bool
  is_empty [] = true
  is_empty (x ∷ xs) = false

module _ {ℓ κ} {A : Type ℓ} (P : A → Type κ) where
  pub All-append : (xs ys : List A) → All P xs → All P ys → All P (xs ++ ys)
  All-append [] ys h k = k
  All-append (x ∷ xs) ys h k = (h.0, All-append xs ys h.1 k)

pub All-imp {ℓ κ μ} :
    {A : Type ℓ} {P : A → Type κ} {Q : A → Type μ}
    → ((a : A) → P a → Q a)
    → (xs : List A) → All P xs
    → All Q xs
All-imp f [] h = tt
All-imp f (x ∷ xs) h = (f x h.0, All-imp f xs h.1)

pub all-append {ℓ} :
    {A : Type ℓ} (p : A → Bool) (xs ys : List A)
    → all p xs ≡ true
    → all p ys ≡ true
    → all p (xs ++ ys) ≡ true
all-append p [] ys h k = k
all-append p (x ∷ xs) ys h k =
    rw (and_left (p x) (all p xs) h) (all-append p xs ys (and_right (p x) (all p xs) h) k)

-- What is true of the members is true of all.
pub members-All {ℓ κ} :
    {A : Type ℓ} (P : A → Type κ) (xs : List A) → ((x : A) → Memᴰ x xs → P x) → All P xs
members-All P [] h = tt
members-All P (x ∷ xs) h = (h x (Memᴰ.head refl), members-All P xs (λ y m. h y (Memᴰ.tail m)))

pub length-map {ℓ κ} :
    {A : Type ℓ} {B : Type κ} (f : A → B) (xs : List A) → length (map f xs) ≡ length xs
length-map f [] = refl
length-map f (x ∷ xs) = ap suc (length-map f xs)
