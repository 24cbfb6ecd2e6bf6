-- ===== src/Prelude/First.antt =====
-- The first element of a list with a property.
use mathlib.Core.List.{List, ◌∷◌}

pub data IsFirst {ℓ κ} {A : Type ℓ} (P : A → Type κ) : A → List A → Type (ℓ ⊔ κ) where
  here : (x : A) (xs : List A) → P x → IsFirst P x (x ∷ xs)
  later : {x : A} (y : A) {xs : List A} → ¬ P y → IsFirst P x xs → IsFirst P x (y ∷ xs)
