-- ===== src/Sat/Pda/Agree.antt =====
-- crates/sat/src/pda.rs: when the check of an account is silent.
use mathlib.Core.Path.{ap₂, subst}
use solana_audit_toolkit.Prelude.{
  not-false, Text, text_eq_iff, ℕ, suc, ◌==◌, ==_iff, ◌≡◌, ◌≢◌, ◌↔◌, refl, ap, Bool, true, false,
  ◌&&◌, List, [], ◌∷◌, all, length, Bool-cases, inl, inr, arith,
}
use solana_audit_toolkit.Sat.Types.{Finding}
use solana_audit_toolkit.Sat.Idl.{IdlAccountItem}
use solana_audit_toolkit.Sat.TxReport.Types.{AccountField, AccountsStruct}
use solana_audit_toolkit.Sat.Pda.{SeedValue, seed_value_eq, NormalizedSeed, is_verifiable}
use solana_audit_toolkit.Sat.Pda.Check.{differ, seed_diffs, compare_parsed}

seed_value_eq-true : (v w : SeedValue) → seed_value_eq v w ≡ true → v ≡ w
unfolding seed_value_eq
seed_value_eq-true (SeedValue.bytes a) (SeedValue.bytes b) h =
    ap SeedValue.bytes ((text_eq_iff a b).0 h)
seed_value_eq-true (SeedValue.named a) (SeedValue.named b) h =
    ap SeedValue.named ((text_eq_iff a b).0 h)
seed_value_eq-true (SeedValue.bytes a) (SeedValue.named b) h = absurd (cc)
seed_value_eq-true (SeedValue.named a) (SeedValue.bytes b) h = absurd (cc)

seed_value_eq_refl : (v : SeedValue) → seed_value_eq v v ≡ true
unfolding seed_value_eq
seed_value_eq_refl (SeedValue.bytes a) = (text_eq_iff a a).1 refl
seed_value_eq_refl (SeedValue.named a) = (text_eq_iff a a).1 refl

-- Verifiable seeds that do not differ are equal.
differ-false :
    (i c : NormalizedSeed)
    → is_verifiable i ≡ true
    → is_verifiable c ≡ true
    → differ i c ≡ false
    → i ≡ c
unfolding differ is_verifiable
differ-false (NormalizedSeed.verifiable v) (NormalizedSeed.verifiable w) h k d =
    ap NormalizedSeed.verifiable (seed_value_eq-true v w (not-false (seed_value_eq v w) d))
differ-false NormalizedSeed.unverifiable c h k d = absurd (cc)
differ-false (NormalizedSeed.verifiable v) NormalizedSeed.unverifiable h k d = absurd (cc)

differ_same : (i : NormalizedSeed) → differ i i ≡ false
unfolding differ
differ_same (NormalizedSeed.verifiable v) = rw (seed_value_eq_refl v) refl
differ_same NormalizedSeed.unverifiable = refl

and_cases : (a b : Bool) → (a && b) ≡ true → (a ≡ true) × (b ≡ true)
and_cases a b h = (ground arith, ground arith)

cons_nil : {x : Finding} {xs : List Finding} → x ∷ xs ≢ []
cons_nil = λ q. cc

module _ (from_utf8_lossy : List ℕ → Text) (ix : Text) (acct : IdlAccountItem)
    (accts : AccountsStruct) (field : AccountField) where
  diffs_same :
      (n : ℕ) (seeds : List NormalizedSeed)
      → seed_diffs from_utf8_lossy ix acct accts field n seeds seeds ≡ []
  unfolding seed_diffs
  diffs_same n [] = refl
  diffs_same n (s ∷ seeds) = rw (differ_same s, diffs_same (suc n) seeds) refl

  diffs_nothing :
      (n : ℕ) (idl_seeds code : List NormalizedSeed)
      → all is_verifiable idl_seeds ≡ true
      → all is_verifiable code ≡ true
      → length code ≡ length idl_seeds
      → seed_diffs from_utf8_lossy ix acct accts field n idl_seeds code ≡ []
      → idl_seeds ≡ code
  unfolding seed_diffs
  diffs_nothing n [] [] h k l e = refl
  diffs_nothing n [] (c ∷ code) h k l e = absurd (omega arith)
  diffs_nothing n (i ∷ idl_seeds) [] h k l e = absurd (omega arith)
  diffs_nothing n (i ∷ idl_seeds) (c ∷ code) h k l e =
      let (vi, h') = and_cases (is_verifiable i) (all is_verifiable idl_seeds) h in
      let (vc, k') = and_cases (is_verifiable c) (all is_verifiable code) k in
      let l' : length code ≡ length idl_seeds = omega arith in
      elim (Bool-cases (differ i c)) [
        | inl d ↦ absurd (cons_nil (rw (d) at e))
        | inr d ↦
            ap₂ (◌∷◌) (differ-false i c vi vc d)
              (diffs_nothing (suc n) idl_seeds code h' k' l' (rw (d) at e))
      ]

  compare_parsed_same :
      (seeds : List NormalizedSeed)
      → all is_verifiable seeds ≡ true
      → compare_parsed from_utf8_lossy ix acct accts field seeds seeds ≡ []
  unfolding compare_parsed
  compare_parsed_same seeds h =
      rw (h, (==_iff (length seeds) (length seeds)).1 refl) (diffs_same 0 seeds)

  compare_parsed_nothing :
      (idl_seeds code : List NormalizedSeed)
      → all is_verifiable idl_seeds ≡ true
      → all is_verifiable code ≡ true
      → compare_parsed from_utf8_lossy ix acct accts field idl_seeds code ≡ []
      → idl_seeds ≡ code
  unfolding compare_parsed
  compare_parsed_nothing idl_seeds code h k e =
      elim (Bool-cases (length code == length idl_seeds)) [
        | inl l ↦
            diffs_nothing 0 idl_seeds code h k ((==_iff (length code) (length idl_seeds)).0 l)
              (rw (h, k, l) at e)
        | inr l ↦ absurd (cons_nil (rw (h, k, l) at e))
      ]

  -- For verifiable seeds on both sides, the check of an account gives no finding exactly when the seeds of
  -- the IDL are those of the code, in their order.
  pub compare_parsed_iff :
      (idl_seeds code : List NormalizedSeed)
      → all is_verifiable idl_seeds ≡ true
      → all is_verifiable code ≡ true
      → (compare_parsed from_utf8_lossy ix acct accts field idl_seeds code ≡ [])
        ↔ (idl_seeds ≡ code)
  compare_parsed_iff idl_seeds code h k = (
    compare_parsed_nothing idl_seeds code h k,
    λ e.
        subst (λ c. compare_parsed from_utf8_lossy ix acct accts field idl_seeds c ≡ []) e
          (compare_parsed_same idl_seeds h),
  )

  -- When the IDL has a seed that is not verifiable, no seed is compared: the check of an account is silent
  -- whatever the seeds that the code declares.
  pub compare_parsed_unverifiable :
      (idl_seeds code : List NormalizedSeed)
      → all is_verifiable idl_seeds ≡ false
      → compare_parsed from_utf8_lossy ix acct accts field idl_seeds code ≡ []
  unfolding compare_parsed
  compare_parsed_unverifiable idl_seeds code h = elim (Bool-cases (all is_verifiable code)) [
    | inl e ↦ rw (h, e) refl
    | inr e ↦ rw (h, e) refl
  ]
