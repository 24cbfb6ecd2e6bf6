-- ===== src/Sat/Pda/Choose.antt =====
-- crates/sat/src/pda.rs: the account struct that an instruction is compared with.
use mathlib.Core.Path.{subst, fun_ext}
use mathlib.Core.Option
use solana_audit_toolkit.Prelude.{
  true_ne_false, Text, text_eq, to_lowercase, ◌≡◌, sym, ap, ◌∙◌, ◌&&◌, ◌||◌, any-retain, arith,
  Bool, true, false, any, Option, some, List, [], ◌∷◌, All, retain, retain-All, Bool-cases, inl,
  inr,
}
use solana_audit_toolkit.Sat.TxReport.Types.{AccountsStruct}
use solana_audit_toolkit.Sat.Pda.Check.{
  is_candidate, is_exact, is_handled, prefer, only_one, choose,
}

module _ {ℓ} (P : AccountsStruct → Type ℓ) where
  prefer-All :
      (better others : List AccountsStruct)
      → All P better
      → All P others
      → All P (prefer better others)
  prefer-All [] others h k = k
  prefer-All (b ∷ better) others h k = h

  only_one-All :
      (xs : List AccountsStruct) (a : AccountsStruct) → All P xs → only_one xs ≡ some a → P a
  unfolding only_one
  only_one-All [] a h e = absurd (cc)
  only_one-All (x ∷ []) a h e = subst P (Option.some-injective x a e) h.0
  only_one-All (x ∷ y ∷ xs) a h e = absurd (cc)

  retain_of-All :
      (q : AccountsStruct → Bool) (xs : List AccountsStruct) → All P xs → All P (retain q xs)
  retain_of-All q [] h = tt
  retain_of-All q (x ∷ xs) h = elim (Bool-cases (q x)) [
    | inl e ↦ rw e (h.0, retain_of-All q xs h.1)
    | inr e ↦ rw e (retain_of-All q xs h.1)
  ]

any-false {ℓ} :
    {A : Type ℓ} (q : A → Bool) (xs : List A) → any q xs ≡ false → All (λ x. q x ≡ false) xs
any-false q [] h = tt
any-false q (x ∷ xs) h = elim (Bool-cases (q x)) [
  | inl e ↦ absurd (true_ne_false (rw (e) at h))
  | inr e ↦ (e, any-false q xs (rw (e) at h))
]

prefer-retain :
    (p : AccountsStruct → Bool) (xs others : List AccountsStruct)
    → any p xs ≡ true
    → All (λ x. p x ≡ true) (prefer (retain p xs) others)
prefer-retain p [] others h = absurd (true_ne_false (sym h))
prefer-retain p (x ∷ xs) others h = elim (Bool-cases (p x)) [
  | inl e ↦ rw e (e, retain-All p xs)
  | inr e ↦ rw e (prefer-retain p xs others (rw (e) at h))
]

-- A name that is exact is a candidate.
exact_candidate :
    (ix_lower : Text) (a : AccountsStruct)
    → (is_candidate ix_lower a && is_exact ix_lower a) ≡ is_exact ix_lower a
unfolding is_candidate is_exact
exact_candidate ix_lower a = absorbed (text_eq (to_lowercase a.name) ix_lower) _
  where
    absorbed : (b c : Bool) → ((b || c) && b) ≡ b
    absorbed b c = ground arith

any_exact :
    (ix_lower : Text) (accounts : List AccountsStruct)
    → any (is_exact ix_lower) (retain (is_candidate ix_lower) accounts)
      ≡ any (is_exact ix_lower) accounts
any_exact ix_lower accounts =
    any-retain (is_exact ix_lower) (is_candidate ix_lower) accounts
    ∙ ap (λ p. any p accounts) (fun_ext (exact_candidate ix_lower))

module _ (handled_by_file : Text → Option (List Text)) (accounts : List AccountsStruct)
    (ix_lower : Text) (accts : AccountsStruct) where
  -- What holds of the structs that are preferred by name holds of the chosen one.
  choose_holds {ℓ} :
      (P : AccountsStruct → Type ℓ)
      → All P (
          prefer
            (retain (is_exact ix_lower) (retain (is_candidate ix_lower) accounts))
            (retain (is_candidate ix_lower) accounts))
      → choose handled_by_file accounts ix_lower ≡ some accts
      → P accts
  unfolding choose
  choose_holds P h e =
      let candidates = retain (is_candidate ix_lower) accounts in
      let preferred = prefer (retain (is_exact ix_lower) candidates) candidates in
      only_one-All P (prefer (retain (is_handled handled_by_file) preferred) preferred) accts
        (prefer-All P (retain (is_handled handled_by_file) preferred) preferred
          (retain_of-All P (is_handled handled_by_file) preferred h) h)
        e

  -- The struct chosen for an instruction is a candidate by its name, and it has exactly the instruction's
  -- name when some struct of the program has.
  pub choose_by_name :
      choose handled_by_file accounts ix_lower ≡ some accts
      → (is_candidate ix_lower accts ≡ true)
        × (is_exact ix_lower accts ≡ any (is_exact ix_lower) accounts)
  choose_by_name e = (choose_holds (λ a. is_candidate ix_lower a ≡ true) named e, exact)
    where
      candidates : List AccountsStruct
      candidates = retain (is_candidate ix_lower) accounts

      named :
          All
            (λ a. is_candidate ix_lower a ≡ true)
            (prefer (retain (is_exact ix_lower) candidates) candidates)
      named =
          prefer-All (λ a. is_candidate ix_lower a ≡ true) (retain (is_exact ix_lower) candidates)
            candidates
            (retain_of-All (λ a. is_candidate ix_lower a ≡ true) (is_exact ix_lower) candidates
              (retain-All (is_candidate ix_lower) accounts))
            (retain-All (is_candidate ix_lower) accounts)

      exact : is_exact ix_lower accts ≡ any (is_exact ix_lower) accounts
      exact = elim (Bool-cases (any (is_exact ix_lower) accounts)) [
        | inl t ↦
            choose_holds (λ a. is_exact ix_lower a ≡ true)
              (prefer-retain (is_exact ix_lower) candidates candidates
                (any_exact ix_lower accounts ∙ t))
              e
            ∙ sym t
        | inr t ↦
            let none_exact =
              retain_of-All (λ a. is_exact ix_lower a ≡ false) (is_candidate ix_lower) accounts
                (any-false (is_exact ix_lower) accounts t) in
            choose_holds (λ a. is_exact ix_lower a ≡ false)
              (prefer-All (λ a. is_exact ix_lower a ≡ false) (retain (is_exact ix_lower) candidates)
                candidates
                (retain_of-All (λ a. is_exact ix_lower a ≡ false) (is_exact ix_lower) candidates
                  none_exact)
                none_exact)
              e
            ∙ sym t
      ]
