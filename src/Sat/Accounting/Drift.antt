-- ===== src/Sat/Accounting/Drift.antt =====
-- crates/sat/src/accounting.rs: what a stale balance is, and which events the checks look at.
use mathlib.Core.Option
use mathlib.Core.Path.{subst}
use solana_audit_toolkit.Prelude.{
  or_right, Text, text_eq, text_eq_refl, ◌≡◌, refl, ◌∙◌, true, none, some, List, [], ◌∷◌, ◌++◌,
  append_assoc, any, Option-cases, inl, inr,
}
use solana_audit_toolkit.Sat.Accounting.{Event, pre_read, stale_account, stale_at, stale_from}

-- A token CPI of the events after which a balance stays stale.
pub record StaleCpi (events : List Event) (account local : Text) : Type 0 where
  pub before : List Event
  pub accounts : List Text
  pub amount_idents : List Text
  pub after : List Event
  pub split : events ≡ before ++ (Event.token_cpi accounts amount_idents ∷ after)
  pub touches : any (text_eq account) accounts ≡ true
  pub bound_before : pre_read account before ≡ some local
  pub unread_after : pre_read account after ≡ none

stale_account_lem :
    (before after : List Event) (accounts : List Text) (account local : Text)
    → stale_account before after accounts ≡ some (account, local)
    → (any (text_eq account) accounts ≡ true)
      × (pre_read account before ≡ some local)
      × (pre_read account after ≡ none)
unfolding stale_account
stale_account_lem before after [] account local h = absurd (cc)
stale_account_lem before after (a ∷ accounts) account local h =
    elim (Option-cases (pre_read a before)) [
      | inl e ↦
          later (stale_account_lem before after accounts account local (rw (e, stale_account) at h))
      | inr (l, e) ↦ elim (Option-cases (pre_read a after)) [
        | inr (m, f) ↦
            later (
              stale_account_lem before after accounts account local (rw (e, f, stale_account) at h))
        | inl f ↦
            found l e f
              (Option.some-injective (a, l) (account, local) (rw (e, f, stale_account) at h))
      ]
    ]
  where
    later :
        (any (text_eq account) accounts ≡ true)
          × (pre_read account before ≡ some local)
          × (pre_read account after ≡ none)
        → (any (text_eq account) (a ∷ accounts) ≡ true)
          × (pre_read account before ≡ some local)
          × (pre_read account after ≡ none)
    later (t, b, u) = (or_right (text_eq account a) (any (text_eq account) accounts) t, b, u)

    found :
        (l : Text)
        → pre_read a before ≡ some l
        → pre_read a after ≡ none
        → Path (Text × Text) (a, l) (account, local)
        → (any (text_eq account) (a ∷ accounts) ≡ true)
          × (pre_read account before ≡ some local)
          × (pre_read account after ≡ none)
    found l e f p =
        subst
          (λ (q : Text × Text).
            (any (text_eq q.0) (a ∷ accounts) ≡ true)
            × (pre_read q.0 before ≡ some q.1)
            × (pre_read q.0 after ≡ none))
          p (rw (text_eq_refl a) refl, e, f)

stale_at_lem :
    (before : List Event) (e : Event) (after : List Event) (account local : Text)
    → stale_at before e after ≡ some (account, local)
    → StaleCpi (before ++ (e ∷ after)) account local
unfolding stale_at
stale_at_lem before (Event.token_cpi accounts amount_idents) after account local h =
    let (t, b, u) = stale_account_lem before after accounts account local h in
    record {
      before = before;
      accounts = accounts;
      amount_idents = amount_idents;
      after = after;
      split = refl;
      touches = t;
      bound_before = b;
      unread_after = u;
    }
stale_at_lem before (Event.balance_read l a) after account local h = absurd (cc)
stale_at_lem before Event.use_of after account local h = absurd (cc)
stale_at_lem before (Event.ledger_write f) after account local h = absurd (cc)

stale_from_lem :
    (before events : List Event) (account local : Text)
    → stale_from before events ≡ some (account, local)
    → StaleCpi (before ++ events) account local
unfolding stale_from
stale_from_lem before [] account local h = absurd (cc)
stale_from_lem before (e ∷ after) account local h = elim (Option-cases (stale_at before e after)) [
  | inl q ↦
      subst (λ es. StaleCpi es account local) (append_assoc before (e ∷ []) after)
        (stale_from_lem (before ++ (e ∷ [])) after account local (rw (q, stale_from) at h))
  | inr ((a, l), q) ↦ stale_at_lem before e after account local (q ∙ (rw (q, stale_from) at h))
]

-- The balance that the first check reports is stale: it was bound to the local before a token CPI that
-- touches the account, and the account is not read again after that CPI.
pub stale_from-StaleCpi :
    (events : List Event) (account local : Text)
    → stale_from [] events ≡ some (account, local)
    → StaleCpi events account local
stale_from-StaleCpi events account local h = stale_from_lem [] events account local h
