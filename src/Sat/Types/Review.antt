-- ===== src/Sat/Types/Review.antt =====
-- crates/sat/src/types.rs: the accounts that a finding names, and the steps to verify it by hand.
use solana_audit_toolkit.Prelude.{
  Text, codes, text_eq, contains, starts_with, strip_prefix, to_lowercase, trim, ℕ, ◌==◌, ◌≡◌,
  false, ◌||◌, Option, none, some, List, [], ◌∷◌, ◌++◌, any, All-append, IsPairwise, is_empty,
  if◌then◌else◌, Bool-cases, Option-cases, true_ne_false, inl, inr,
}
use solana_audit_toolkit.Sat.Types.{Finding, push_unique}

abbrev signer_steps : List Text
signer_steps =
    codes "Confirm the account authorizes privileged state changes or fund movement."
    ∷ codes "Check whether the handler has an equivalent manual `is_signer` or key equality guard."
    ∷ codes "Attempt a transaction with this account supplied as a non-signer."
    ∷ []

abbrev owner_steps : List Text
owner_steps =
    codes "Confirm the raw account is deserialized or trusted by program logic."
    ∷ codes "Try substituting an account owned by an attacker-controlled program."
    ∷ codes "Verify whether a manual owner check exists before reads or writes."
    ∷ []

abbrev has_one_steps : List Text
has_one_steps =
    codes "Locate the stored authority field in the mutable account data."
    ∷ codes "Check whether the handler manually compares it with the signer key."
    ∷ codes "Try pairing a valid signer with another user's state account."
    ∷ []

abbrev reinitialization_steps : List Text
reinitialization_steps =
    codes "Confirm whether Anchor `init` or `init_if_needed` is used on the state account."
    ∷ codes "Check for an explicit initialized/discriminator guard before state writes."
    ∷ codes "Attempt calling the initializer twice against the same state account."
    ∷ []

abbrev arithmetic_steps : List Text
arithmetic_steps =
    codes "Check whether overflow checks are enabled in the release profile."
    ∷ codes "Trace attacker-controlled operands and account balance fields."
    ∷ codes "Build a boundary-value PoC for underflow, overflow, or precision loss."
    ∷ []

abbrev token_steps : List Text
token_steps =
    codes "Identify which Token-2022 extensions can be enabled for accepted mints."
    ∷ codes "Compare internal accounting with actual token balance deltas after transfer."
    ∷ codes "Test with transfer-fee, permanent-delegate, and interest-bearing mints."
    ∷ []

abbrev default_steps : List Text
default_steps =
    codes "Map the flagged account or instruction to the handler logic."
    ∷ codes "Check whether equivalent manual validation exists outside Anchor attributes."
    ∷ codes "Create the smallest transaction or unit test that proves exploitability."
    ∷ []

-- The chain of tests, on the lower-case title.
unfoldable pub steps_for : Text → List Text
steps_for title =
    if contains title (codes "missing signer")
    then signer_steps
    else if contains title (codes "missing owner")
    then owner_steps
    else if contains title (codes "missing `has_one`")
    then has_one_steps
    else if contains title (codes "reinitialization")
    then reinitialization_steps
    else if contains title (codes "unsafe arithmetic")
        || contains title (codes "unsafe multiplication")
    then arithmetic_steps
    else if contains title (codes "token-2022") || contains title (codes "transfer fee")
    then token_steps
    else default_steps

unfoldable pub manual_verification_steps : Finding → List Text
unfolding steps_for
manual_verification_steps f = steps_for (to_lowercase f.title)

-- A character put before the first of the parts.
unfoldable pub extend_first : ℕ → List Text → List Text
extend_first c [] = (c ∷ []) ∷ []
extend_first c (part ∷ parts) = (c ∷ part) ∷ parts

-- `s.split(c)`
unfoldable pub split_char : ℕ → Text → List Text
unfolding extend_first
split_char c [] = [] ∷ []
split_char c (x ∷ s) =
    let parts = split_char c s in if x == c then [] ∷ parts else extend_first x parts

-- `skip(1).step_by(2)`
unfoldable pub every_second : List Text → List Text
every_second [] = []
every_second (a ∷ []) = []
every_second (a ∷ b ∷ rest) = b ∷ every_second rest

-- What follows the first occurrence of a text.
unfoldable pub after_text : Text → Text → Option Text
after_text p [] = strip_prefix [] p
after_text p (c ∷ s) =
    let later = after_text p s in
    elim (strip_prefix (c ∷ s) p) [ some rest ↦ some rest | none ↦ later ]

-- What stands before the first occurrence of a text, if there is one.
unfoldable pub before_text : Text → Text → Text
before_text p [] = []
before_text p (c ∷ s) = let rest = before_text p s in if starts_with (c ∷ s) p then [] else c ∷ rest

-- `split(['|', '/', '(']).next()`
unfoldable pub first_piece : Text → Text
first_piece [] = []
first_piece (c ∷ s) =
    let rest = first_piece s in if (c == b'|') || ((c == b'/') || (c == b'(')) then [] else c ∷ rest

-- The body of the loop over the quoted parts of the title.
unfoldable pub push_token : List Text → Text → List Text
push_token accounts token =
    if contains token (codes "::")
      || (contains token (codes "Account") || contains token (codes "State"))
    then push_unique accounts token
    else accounts

-- The body of the loop over the prefixes of the location; `split(prefix).nth(1)` ends at the next one.
unfoldable pub push_prefixed : Text → List Text → Text → List Text
unfolding after_text before_text first_piece
push_prefixed location accounts prefix = elim (after_text prefix location) [
  | none ↦ accounts
  | some rest ↦
      let value = trim (first_piece (before_text prefix rest)) in
      if is_empty value then accounts else push_unique accounts value
]

abbrev pub push_all : (List Text → Text → List Text) → List Text → List Text → List Text
push_all push accounts [] = accounts
push_all push accounts (t ∷ ts) = push_all push (push accounts t) ts

abbrev location_prefixes : List Text
location_prefixes = codes "Account: " ∷ codes "Sysvar: " ∷ codes "Instruction: " ∷ []

unfoldable pub affected_accounts : Finding → List Text
unfolding push_token push_prefixed split_char every_second
affected_accounts f =
    let from_title = push_all push_token [] (every_second (split_char b'`' f.title)) in
    elim f.location [
      | none ↦ from_title
      | some location ↦ push_all (push_prefixed location) from_title location_prefixes
    ]

-- Accounts that are all different.
abbrev pub AllDifferent : List Text → Type 0
AllDifferent = IsPairwise (λ a b. text_eq a b ≡ false)

different_append :
    (values : List Text) (value : Text)
    → AllDifferent values
    → any (λ existing. text_eq existing value) values ≡ false
    → AllDifferent (values ++ (value ∷ []))
different_append [] value h k = (tt, tt)
different_append (v ∷ values) value h k = elim (Bool-cases (text_eq v value)) [
  | inl e ↦ absurd (true_ne_false (rw (e) at k))
  | inr e ↦ (
    All-append (λ b. text_eq v b ≡ false) values (value ∷ []) h.0 (e, tt),
    different_append values value h.1 (rw (e) at k),
  )
]

push_unique-AllDifferent :
    (values : List Text) (value : Text)
    → AllDifferent values
    → AllDifferent (push_unique values value)
unfolding push_unique
push_unique-AllDifferent values value h =
    elim (Bool-cases (any (λ existing. text_eq existing value) values)) [
      | inl e ↦ rw (e, push_unique) h
      | inr e ↦ rw (e, push_unique) (different_append values value h e)
    ]

push_token-AllDifferent :
    (values : List Text) (t : Text) → AllDifferent values → AllDifferent (push_token values t)
unfolding push_token
push_token-AllDifferent values t h =
    elim (Bool-cases
      (contains t (codes "::") || (contains t (codes "Account") || contains t (codes "State")))) [
        | inl e ↦ rw (e, push_token) (push_unique-AllDifferent values t h)
        | inr e ↦ rw (e, push_token) h
      ]

push_prefixed-AllDifferent :
    (location : Text) (values : List Text) (p : Text)
    → AllDifferent values
    → AllDifferent (push_prefixed location values p)
unfolding push_prefixed
push_prefixed-AllDifferent location values p h = elim (Option-cases (after_text p location)) [
  | inl e ↦ rw (e, push_prefixed) h
  | inr (rest, e) ↦ elim (Bool-cases (is_empty (trim (first_piece (before_text p rest))))) [
    | inl q ↦ rw (push_prefixed, e, q) h
    | inr q ↦
        rw (push_prefixed, e, q)
          (push_unique-AllDifferent values (trim (first_piece (before_text p rest))) h)
  ]
]

push_all-AllDifferent :
    (push : List Text → Text → List Text) (values ts : List Text)
    → ((vs : List Text) (t : Text) → AllDifferent vs → AllDifferent (push vs t))
    → AllDifferent values
    → AllDifferent (push_all push values ts)
push_all-AllDifferent push values [] k h = h
push_all-AllDifferent push values (t ∷ ts) k h =
    push_all-AllDifferent push (push values t) ts k (k values t h)

-- No account is named twice for a finding.
pub affected_accounts-AllDifferent : (f : Finding) → AllDifferent (affected_accounts f)
unfolding affected_accounts
affected_accounts-AllDifferent f = elim (Option-cases f.location) [
  | inl e ↦ rw (e, affected_accounts) from_title
  | inr (location, e) ↦
      rw (e, affected_accounts)
        (push_all-AllDifferent (push_prefixed location) _ location_prefixes
          (push_prefixed-AllDifferent location) from_title)
]
  where
    from_title : AllDifferent (push_all push_token [] (every_second (split_char b'`' f.title)))
    from_title =
        push_all-AllDifferent push_token [] (every_second (split_char b'`' f.title))
          push_token-AllDifferent tt
