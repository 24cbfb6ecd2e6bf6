-- ===== src/Parity/Compare/Fields.antt =====
-- The field loop of crates/parity/src/engine.rs: what it pushes, and what it means that it pushes
-- nothing.
use solana_audit_toolkit.Prelude.{
  ℕ, suc, ◌≡◌, refl, sym, ◌∙◌, ◌≢◌, Bool, false, not, ◌||◌, List, [], ◌∷◌, ◌++◌, Text, codes,
  text_eq, ◌==◌, arith, any, any-append, Bool-cases, inl, inr,
}
use solana_audit_toolkit.Parity.Scenario.{Op, Observables, cmp_field, differences}
use solana_audit_toolkit.Parity.Engine.{
  Divergence, Findings, field_changed, push_divergence, push_fields, push_moved,
}
use solana_audit_toolkit.Parity.Compare.Growth.{Extends, push_fields-Extends}

-- A field differs and moved on one of the sides.
abbrev pub moved : Observables → Observables → Observables → Observables → Text → Bool
moved pe pa oe oa field = field_changed field pe oe || field_changed field pa oa

-- Equal observables have no differences.
pub differences_self : (o : Observables) → differences o o ≡ []
unfolding differences cmp_field
differences_self o = ground arith

cmp_field_agree :
    (changed : Text → Bool) (name : Text) (p a b : ℕ)
    → changed name ≡ (not (p == a) || not (p == b))
    → any (λ (d : Text × Text × Text). changed d.0) (cmp_field name a b) ≡ false
    → a ≡ b
unfolding cmp_field
cmp_field_agree changed name p a b c h = ground arith

or_false : (a b : Bool) → (a || b) ≡ false → (a ≡ false) × (b ≡ false)
or_false a b h = ground arith

split :
    (t : (Text × Text × Text) → Bool) (xs ys : List (Text × Text × Text))
    → any t (xs ++ ys) ≡ false
    → (any t xs ≡ false) × (any t ys ≡ false)
split t xs ys h = or_false (any t xs) (any t ys) (rw (any-append t xs ys) at h)

observables_eq :
    (a b : Observables)
    → a.total_deposits ≡ b.total_deposits
    → a.total_borrows ≡ b.total_borrows
    → a.total_shares ≡ b.total_shares
    → a.vault_balance ≡ b.vault_balance
    → a.user_shares ≡ b.user_shares
    → a.user_balance ≡ b.user_balance
    → a.price ≡ b.price
    → a ≡ b
observables_eq a b h1 h2 h3 h4 h5 h6 h7 = λ i. record {
  total_deposits = h1 i;
  total_borrows = h2 i;
  total_shares = h3 i;
  vault_balance = h4 i;
  user_shares = h5 i;
  user_balance = h6 i;
  price = h7 i;
}

module _ (p oe oa : Observables) where
  total_deposits-moved :
      moved p p oe oa (codes "total_deposits")
      ≡ (not (p.total_deposits == oe.total_deposits) || not (p.total_deposits == oa.total_deposits))
  unfolding field_changed text_eq
  total_deposits-moved = refl

  total_borrows-moved :
      moved p p oe oa (codes "total_borrows")
      ≡ (not (p.total_borrows == oe.total_borrows) || not (p.total_borrows == oa.total_borrows))
  unfolding field_changed text_eq
  total_borrows-moved = refl

  total_shares-moved :
      moved p p oe oa (codes "total_shares")
      ≡ (not (p.total_shares == oe.total_shares) || not (p.total_shares == oa.total_shares))
  unfolding field_changed text_eq
  total_shares-moved = refl

  vault_balance-moved :
      moved p p oe oa (codes "vault_balance")
      ≡ (not (p.vault_balance == oe.vault_balance) || not (p.vault_balance == oa.vault_balance))
  unfolding field_changed text_eq
  vault_balance-moved = refl

  user_shares-moved :
      moved p p oe oa (codes "user_shares")
      ≡ (not (p.user_shares == oe.user_shares) || not (p.user_shares == oa.user_shares))
  unfolding field_changed text_eq
  user_shares-moved = refl

  user_balance-moved :
      moved p p oe oa (codes "user_balance")
      ≡ (not (p.user_balance == oe.user_balance) || not (p.user_balance == oa.user_balance))
  unfolding field_changed text_eq
  user_balance-moved = refl

  price-moved :
      moved p p oe oa (codes "price") ≡ (not (p.price == oe.price) || not (p.price == oa.price))
  unfolding field_changed text_eq
  price-moved = refl

-- Observables that were alike and differ now differ in a field that moved.
pub fields_agree :
    (p oe oa : Observables)
    → any (λ (d : Text × Text × Text). moved p p oe oa d.0) (differences oe oa) ≡ false
    → oe ≡ oa
unfolding differences
fields_agree p oe oa h =
    let c = moved p p oe oa in
    let t = λ (d : Text × Text × Text). c d.0 in
    let h1 = split t (cmp_field (codes "total_deposits") oe.total_deposits oa.total_deposits) _ h in
    let h2 = split t (cmp_field (codes "total_borrows") oe.total_borrows oa.total_borrows) _ h1.1 in
    let h3 = split t (cmp_field (codes "total_shares") oe.total_shares oa.total_shares) _ h2.1 in
    let h4 = split t (cmp_field (codes "vault_balance") oe.vault_balance oa.vault_balance) _ h3.1 in
    let h5 = split t (cmp_field (codes "user_shares") oe.user_shares oa.user_shares) _ h4.1 in
    let h6 = split t (cmp_field (codes "user_balance") oe.user_balance oa.user_balance) _ h5.1 in
    observables_eq oe oa
      (cmp_field_agree c (codes "total_deposits") p.total_deposits _ _
        (total_deposits-moved p oe oa) h1.0)
      (cmp_field_agree c (codes "total_borrows") p.total_borrows _ _ (total_borrows-moved p oe oa)
        h2.0)
      (cmp_field_agree c (codes "total_shares") p.total_shares _ _ (total_shares-moved p oe oa)
        h3.0)
      (cmp_field_agree c (codes "vault_balance") p.vault_balance _ _ (vault_balance-moved p oe oa)
        h4.0)
      (cmp_field_agree c (codes "user_shares") p.user_shares _ _ (user_shares-moved p oe oa) h5.0)
      (cmp_field_agree c (codes "user_balance") p.user_balance _ _ (user_balance-moved p oe oa)
        h6.0)
      (cmp_field_agree c (codes "price") p.price _ _ (price-moved p oe oa) h6.1)

append_nil_left {ℓ} : {A : Type ℓ} (xs ys : List A) → xs ++ ys ≡ [] → xs ≡ []
append_nil_left [] ys h = refl
append_nil_left (x ∷ xs) ys h = absurd (cc)

snoc_ne_nil {ℓ} : {A : Type ℓ} (xs : List A) (y : A) → xs ++ (y ∷ []) ≢ []
snoc_ne_nil [] y h = cc
snoc_ne_nil (x ∷ xs) y h = cc

-- Findings that extend others and hold no divergence extend none.
pub Extends-nil :
    (lo hi : ℕ) (f g : Findings) → Extends lo hi f g → g.divergences ≡ [] → f.divergences ≡ []
Extends-nil lo hi f g x h = append_nil_left f.divergences x.added (sym x.grown ∙ h)

pub pushed_ne_nil : (d : Divergence) (f : Findings) → (push_divergence d f).divergences ≢ []
unfolding push_divergence
pushed_ne_nil d f = snoc_ne_nil f.divergences d

-- Where the field loop leaves no divergence, no difference is of a field that moved.
push_fields_nothing :
    (i : ℕ) (op : Op) (changed : Text → Bool) (ds : List (Text × Text × Text)) (f : Findings)
    → (push_fields i op changed ds f).divergences ≡ []
    → any (λ (d : Text × Text × Text). changed d.0) ds ≡ false
unfolding push_fields
push_fields_nothing i op changed [] f h = refl
push_fields_nothing i op changed ((field, e, a) ∷ rest) f h = elim (Bool-cases (changed field)) [
  | inl c ↦ absurd (
      pushed_ne_nil (record { op_index = i; op = op; field = field; expected = e; actual = a }) f
        (Extends-nil i (suc i) _ _ (push_fields-Extends i op changed rest _)
          (rw (c, push_fields) at h)))
  | inr c ↦ rw c (push_fields_nothing i op changed rest f (rw (c, push_fields) at h))
]

pub push_moved_nothing :
    (i : ℕ) (op : Op) (p oe oa : Observables) (f : Findings)
    → (push_moved i op p p oe oa f).divergences ≡ []
    → oe ≡ oa
unfolding push_moved
push_moved_nothing i op p oe oa f h =
    fields_agree p oe oa (push_fields_nothing i op (moved p p oe oa) (differences oe oa) f h)
