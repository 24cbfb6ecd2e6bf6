-- ===== src/Sat/Accounting/Uses.antt =====
-- crates/sat/src/accounting.rs: which events the checks look at.
use mathlib.Core.List.{flat_map}
use solana_audit_toolkit.Prelude.{
  Text, text_eq, ◌≡◌, refl, sym, ap, ◌∙◌, Bool, true, false, Option, none, some, List, [], ◌∷◌,
  ◌++◌, any, retain, or_else, if◌then◌else◌, Option-cases, inl, inr,
}
use solana_audit_toolkit.Sat.Native.Model.{NativeInstruction}
use solana_audit_toolkit.Sat.Accounting.{
  Event, read_of, pre_read, stale_account, stale_at, stale_from, stale_balance_findings, amounts_of,
  mirrored, ledger_mirror_findings, analyze_events,
}

-- Every event but a use.
abbrev pub is_not_use : Event → Bool
is_not_use Event.use_of = false
is_not_use _ = true

pre_read_cons :
    (account : Text) (e : Event) (events : List Event)
    → pre_read account (e ∷ events) ≡ or_else (read_of account e) (pre_read account events)
unfolding pre_read
pre_read_cons account e events = elim (Option-cases (read_of account e)) [
  | inl q ↦ rw (pre_read, q) refl
  | inr (l, q) ↦ rw (pre_read, q) refl
]

or_else_assoc : (a b c : Option Text) → or_else a (or_else b c) ≡ or_else (or_else a b) c
or_else_assoc none b c = refl
or_else_assoc (some l) b c = refl

or_else-none : (o : Option Text) → or_else o none ≡ o
or_else-none none = refl
or_else-none (some l) = refl

pre_read_nil : (account : Text) → pre_read account [] ≡ none
unfolding pre_read
pre_read_nil account = refl

pre_read-append :
    (account : Text) (before : List Event) (e : Event)
    → pre_read account (before ++ (e ∷ [])) ≡ or_else (pre_read account before) (read_of account e)
pre_read-append account [] e =
    pre_read_cons account e []
    ∙ (ap (or_else (read_of account e)) (pre_read_nil account)
        ∙ (or_else-none (read_of account e)
            ∙ ap (λ o. or_else o (read_of account e)) (sym (pre_read_nil account))))
pre_read-append account (b ∷ before) e =
    pre_read_cons account b (before ++ (e ∷ []))
    ∙ (ap (or_else (read_of account b)) (pre_read-append account before e)
        ∙ (or_else_assoc (read_of account b) (pre_read account before) (read_of account e)
            ∙ ap (λ o. or_else o (read_of account e)) (sym (pre_read_cons account b before))))

pre_read_kept :
    (account : Text) (e : Event) (xs ys : List Event)
    → pre_read account xs ≡ pre_read account ys
    → pre_read account (e ∷ xs) ≡ pre_read account (e ∷ ys)
pre_read_kept account e xs ys h =
    pre_read_cons account e xs
    ∙ (ap (or_else (read_of account e)) h ∙ sym (pre_read_cons account e ys))

pre_read-retain :
    (account : Text) (events : List Event)
    → pre_read account (retain is_not_use events) ≡ pre_read account events
unfolding pre_read read_of
pre_read-retain account [] = refl
pre_read-retain account (Event.use_of ∷ events) = pre_read-retain account events
pre_read-retain account (Event.balance_read l a ∷ events) =
    pre_read_kept account (Event.balance_read l a) (retain is_not_use events) events
      (pre_read-retain account events)
pre_read-retain account (Event.token_cpi accounts amounts ∷ events) =
    pre_read_kept account (Event.token_cpi accounts amounts) (retain is_not_use events) events
      (pre_read-retain account events)
pre_read-retain account (Event.ledger_write field ∷ events) =
    pre_read_kept account (Event.ledger_write field) (retain is_not_use events) events
      (pre_read-retain account events)

-- Two lists of events in which each account is read alike.
abbrev ReadsAlike : List Event → List Event → Type 0
ReadsAlike xs ys = (account : Text) → pre_read account xs ≡ pre_read account ys

-- One step of the loop over the accounts, from the two reads and the result for the accounts that follow.
stale_step : Text → Option Text → Option Text → Option (Text × Text) → Option (Text × Text)
stale_step account none after rest = rest
stale_step account (some local) (some l) rest = rest
stale_step account (some local) none rest = some (account, local)

stale_account_cons :
    (before after : List Event) (account : Text) (accounts : List Text)
    → stale_account before after (account ∷ accounts)
      ≡ stale_step account
          (pre_read account before)
          (pre_read account after)
          (stale_account before after accounts)
unfolding stale_account stale_step
stale_account_cons before after account accounts = elim (Option-cases (pre_read account before)) [
  | inl e ↦ rw (stale_account, e) refl
  | inr (l, e) ↦ elim (Option-cases (pre_read account after)) [
    | inl f ↦ rw (stale_account, e, f) refl
    | inr (m, f) ↦ rw (stale_account, e, f) refl
  ]
]

stale_account_alike :
    (b1 b2 a1 a2 : List Event) (accounts : List Text)
    → ReadsAlike b1 b2
    → ReadsAlike a1 a2
    → stale_account b1 a1 accounts ≡ stale_account b2 a2 accounts
unfolding stale_account
stale_account_alike b1 b2 a1 a2 [] h k = refl
stale_account_alike b1 b2 a1 a2 (account ∷ accounts) h k =
    stale_account_cons b1 a1 account accounts
    ∙ (rw (h account, k account, stale_account_alike b1 b2 a1 a2 accounts h k) refl
        ∙ sym (stale_account_cons b2 a2 account accounts))

append_alike :
    (b1 b2 : List Event) (e : Event)
    → ReadsAlike b1 b2
    → ReadsAlike (b1 ++ (e ∷ [])) (b2 ++ (e ∷ []))
append_alike b1 b2 e h account =
    pre_read-append account b1 e
    ∙ (ap (λ o. or_else o (read_of account e)) (h account) ∙ sym (pre_read-append account b2 e))

append_use : (b1 b2 : List Event) → ReadsAlike b1 b2 → ReadsAlike b1 (b2 ++ (Event.use_of ∷ []))
unfolding read_of
append_use b1 b2 h account =
    h account
    ∙ (sym (or_else-none (pre_read account b2)) ∙ sym (pre_read-append account b2 Event.use_of))

stale_at_alike :
    (b1 b2 : List Event) (e : Event) (after : List Event)
    → ReadsAlike b1 b2
    → stale_at b1 e (retain is_not_use after) ≡ stale_at b2 e after
unfolding stale_at
stale_at_alike b1 b2 (Event.balance_read l a) after h = refl
stale_at_alike b1 b2 (Event.token_cpi accounts amounts) after h =
    stale_account_alike b1 b2 (retain is_not_use after) after accounts h
      (λ account. pre_read-retain account after)
stale_at_alike b1 b2 Event.use_of after h = refl
stale_at_alike b1 b2 (Event.ledger_write field) after h = refl

stale_from_cons :
    (before : List Event) (e : Event) (after : List Event)
    → stale_from before (e ∷ after)
      ≡ or_else (stale_at before e after) (stale_from (before ++ (e ∷ [])) after)
unfolding stale_from
stale_from_cons before e after = elim (Option-cases (stale_at before e after)) [
  | inl q ↦ rw (stale_from, q) refl
  | inr (f, q) ↦ rw (stale_from, q) refl
]

stale_from_kept :
    (b1 b2 : List Event) (e : Event) (after : List Event)
    → ReadsAlike b1 b2
    → stale_from (b1 ++ (e ∷ [])) (retain is_not_use after) ≡ stale_from (b2 ++ (e ∷ [])) after
    → stale_from b1 (e ∷ retain is_not_use after) ≡ stale_from b2 (e ∷ after)
stale_from_kept b1 b2 e after h r =
    stale_from_cons b1 e (retain is_not_use after)
    ∙ (rw (stale_at_alike b1 b2 e after h, r) refl ∙ sym (stale_from_cons b2 e after))

stale_from-retain :
    (b1 b2 events : List Event)
    → ReadsAlike b1 b2
    → stale_from b1 (retain is_not_use events) ≡ stale_from b2 events
unfolding stale_from stale_at
stale_from-retain b1 b2 [] h = refl
stale_from-retain b1 b2 (Event.use_of ∷ events) h =
    stale_from-retain b1 (b2 ++ (Event.use_of ∷ [])) events (append_use b1 b2 h)
stale_from-retain b1 b2 (Event.balance_read l a ∷ events) h =
    stale_from_kept b1 b2 (Event.balance_read l a) events h (
      stale_from-retain (b1 ++ (Event.balance_read l a ∷ [])) (b2 ++ (Event.balance_read l a ∷ []))
        events (append_alike b1 b2 (Event.balance_read l a) h))
stale_from-retain b1 b2 (Event.token_cpi accounts amounts ∷ events) h =
    stale_from_kept b1 b2 (Event.token_cpi accounts amounts) events h (
      stale_from-retain (b1 ++ (Event.token_cpi accounts amounts ∷ []))
        (b2 ++ (Event.token_cpi accounts amounts ∷ [])) events
        (append_alike b1 b2 (Event.token_cpi accounts amounts) h))
stale_from-retain b1 b2 (Event.ledger_write field ∷ events) h =
    stale_from_kept b1 b2 (Event.ledger_write field) events h (
      stale_from-retain (b1 ++ (Event.ledger_write field ∷ []))
        (b2 ++ (Event.ledger_write field ∷ [])) events
        (append_alike b1 b2 (Event.ledger_write field) h))

mirrored-retain :
    (amounts seen : List Text) (events : List Event)
    → mirrored amounts seen (retain is_not_use events) ≡ mirrored amounts seen events
unfolding mirrored
mirrored-retain amounts seen [] = refl
mirrored-retain amounts seen (Event.use_of ∷ events) = mirrored-retain amounts seen events
mirrored-retain amounts seen (Event.balance_read l a ∷ events) = mirrored-retain amounts seen events
mirrored-retain amounts seen (Event.token_cpi accounts idents ∷ events) =
    mirrored-retain amounts seen events
mirrored-retain amounts seen (Event.ledger_write field ∷ events) =
    rw (mirrored-retain amounts (if any (text_eq field) seen then seen else field ∷ seen) events)
      refl

amounts-retain :
    (events : List Event)
    → flat_map amounts_of (retain is_not_use events) ≡ flat_map amounts_of events
unfolding flat_map amounts_of
amounts-retain [] = refl
amounts-retain (Event.use_of ∷ events) = amounts-retain events
amounts-retain (Event.balance_read l a ∷ events) = amounts-retain events
amounts-retain (Event.token_cpi accounts idents ∷ events) = rw (amounts-retain events) refl
amounts-retain (Event.ledger_write field ∷ events) = amounts-retain events

-- The findings of an instruction do not depend on where, or whether, an account or a local is used: without
-- the uses the events give the same findings.
pub analyze_events-retain :
    (ix : NativeInstruction) (events : List Event)
    → analyze_events ix (retain is_not_use events) ≡ analyze_events ix events
unfolding analyze_events stale_balance_findings ledger_mirror_findings
analyze_events-retain ix events =
    rw
      (
        stale_balance_findings,
        stale_from-retain [] [] events (λ account. refl),
        amounts-retain events,
        mirrored-retain (flat_map amounts_of events) [] events,
      )
      refl
