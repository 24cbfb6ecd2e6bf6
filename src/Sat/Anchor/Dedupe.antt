-- ===== src/Sat/Anchor/Dedupe.antt =====
-- crates/sat/src/analyzer.rs: what `dedupe_findings` keeps.
use mathlib.Core.List.Memᴰ
use mathlib.Core.List.{Memᴰ}
use solana_audit_toolkit.Prelude.{
  text_eq_refl, text_eq_iff, find, ◌≡◌, refl, sym, ap, ◌∙◌, Bool, true, false, ◌||◌, List, [], ◌∷◌,
  any, Bool-cases, or_right, inl, inr, unwrap_or, All, members-All, arith,
}
use solana_audit_toolkit.Sat.Types.{Finding}
use solana_audit_toolkit.Sat.Anchor.Collisions.{same_key, dedupe_from, dedupe_findings}

-- No finding has the key of one before it, or of one in `seen`.
abbrev pub AllNew : List Finding → List Finding → Type 0
AllNew seen [] = Unit
AllNew seen (f ∷ fs) = (any (same_key f) seen ≡ false) × AllNew (f ∷ seen) fs

same_key_self : (f : Finding) → same_key f f ≡ true
unfolding same_key
same_key_self f =
    rw (text_eq_refl f.title, text_eq_refl (unwrap_or f.location []), text_eq_refl f.description)
      refl

dedupe_from-AllNew : (seen fs : List Finding) → AllNew seen (dedupe_from seen fs)
unfolding dedupe_from
dedupe_from-AllNew seen [] = tt
dedupe_from-AllNew seen (f ∷ fs) = elim (Bool-cases (any (same_key f) seen)) [
  | inl e ↦ rw (dedupe_from, e) (dedupe_from-AllNew seen fs)
  | inr e ↦ rw (dedupe_from, e) (e, dedupe_from-AllNew (f ∷ seen) fs)
]

dedupe_from_new : (seen fs : List Finding) → AllNew seen fs → dedupe_from seen fs ≡ fs
unfolding dedupe_from
dedupe_from_new seen [] h = refl
dedupe_from_new seen (f ∷ fs) h = rw (dedupe_from, h.0, dedupe_from_new (f ∷ seen) fs h.1) refl

or_swap : (a b c : Bool) → ((a || b) || c) ≡ true → (b || (a || c)) ≡ true
or_swap a b c h = ground arith

dedupe_from-covers :
    (seen fs : List Finding) (g : Finding)
    → Memᴰ g fs
    → (any (same_key g) seen || any (same_key g) (dedupe_from seen fs)) ≡ true
unfolding dedupe_from
dedupe_from-covers seen [] g m = absurd (Memᴰ.not-nil m)
dedupe_from-covers seen (f ∷ fs) g m = elim (Bool-cases (any (same_key f) seen)) [
  | inl e ↦
      rw (dedupe_from, e)
        (elim (Memᴰ.cases_cons m) [
          | inl q ↦ rw (ap (λ x. any (same_key x) seen) q ∙ e) refl
          | inr q ↦ dedupe_from-covers seen fs g q
        ])
  | inr e ↦
      rw (dedupe_from, e)
        (elim (Memᴰ.cases_cons m) [
          | inl q ↦
              or_right (any (same_key g) seen)
                (same_key g f || any (same_key g) (dedupe_from (f ∷ seen) fs))
                (rw (ap (same_key g) (sym q) ∙ same_key_self g) refl)
          | inr q ↦
              or_swap (same_key g f) (any (same_key g) seen)
                (any (same_key g) (dedupe_from (f ∷ seen) fs))
                (dedupe_from-covers (f ∷ seen) fs g q)
        ])
]

-- Findings of one key agree on what has it.
same_key_congr : (f x s : Finding) → same_key f x ≡ true → same_key f s ≡ same_key x s
unfolding same_key
same_key_congr f x s h =
    let titles : f.title ≡ x.title = ground (arith, text_eq_iff f.title x.title) in
    let places : unwrap_or f.location [] ≡ unwrap_or x.location [] =
      ground (arith, text_eq_iff (unwrap_or f.location []) (unwrap_or x.location [])) in
    let texts : f.description ≡ x.description =
      ground (arith, text_eq_iff f.description x.description) in
    rw (titles, places, texts) refl

any-same_key :
    (f x : Finding) (fs : List Finding)
    → same_key f x ≡ true
    → any (same_key f) fs ≡ any (same_key x) fs
any-same_key f x [] h = refl
any-same_key f x (s ∷ fs) h = rw (same_key_congr f x s h, any-same_key f x fs h) refl

-- The first finding with a key that `seen` has not is kept, and stays the first.
find-dedupe_from :
    (seen fs : List Finding) (f : Finding)
    → any (same_key f) seen ≡ false
    → find (same_key f) (dedupe_from seen fs) ≡ find (same_key f) fs
unfolding dedupe_from
find-dedupe_from seen [] f h = refl
find-dedupe_from seen (x ∷ fs) f h = elim (Bool-cases (same_key f x)) [
  | inl same ↦ rw (dedupe_from, sym (any-same_key f x seen same) ∙ h, same) refl
  | inr other ↦ elim (Bool-cases (any (same_key x) seen)) [
    | inl e ↦ rw (dedupe_from, e, other) (find-dedupe_from seen fs f h)
    | inr e ↦ rw (dedupe_from, e, other) (find-dedupe_from (x ∷ seen) fs f (rw (other) h))
  ]
]

-- `dedupe_findings` keeps of each title, location and description one finding, the first of them: for every
-- finding `f`, the first with the key of `f` is the same before and after; no kept finding has the key of an
-- earlier one, every finding's key is kept, and a second pass changes nothing.
pub dedupe_findings_lem :
    (findings : List Finding) (f : Finding)
    → (find (same_key f) (dedupe_findings findings) ≡ find (same_key f) findings)
      × AllNew [] (dedupe_findings findings)
      × All (λ g. any (same_key g) (dedupe_findings findings) ≡ true) findings
      × (dedupe_findings (dedupe_findings findings) ≡ dedupe_findings findings)
unfolding dedupe_findings
dedupe_findings_lem findings f = (
  find-dedupe_from [] findings f refl,
  dedupe_from-AllNew [] findings,
  members-All (λ g. any (same_key g) (dedupe_from [] findings) ≡ true) findings
      (dedupe_from-covers [] findings),
  dedupe_from_new [] (dedupe_from [] findings) (dedupe_from-AllNew [] findings),
)
