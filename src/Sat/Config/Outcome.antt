-- ===== src/Sat/Config/Outcome.antt =====
-- crates/sat/src/config.rs: a finding set before and after a configuration, told without the code's tests.
use mathlib.Core.Path.{subst}
use mathlib.Core.List.{Memᴰ}
use solana_audit_toolkit.Prelude.{
  IsFirst, Text, text_eq, text_eq_iff, contains, starts_with, ◌≡◌, ◌≢◌, ◌⊎◌, ◌==◌, ==_iff, refl,
  sym, ap, ◌∙◌, Bool, true, false, none, some, List, [], ◌∷◌, ◌++◌, All, map, any, retain,
  unwrap_or, Bool-cases, Option-cases, inl, inr, and_left, and_right, false_ne_true, or_right,
}
use solana_audit_toolkit.Sat.Types.{Severity, parse, Finding}
use solana_audit_toolkit.Sat.Rules.{classify_finding_rule}
use solana_audit_toolkit.Sat.Config.{
  Config, override_of, is_disabled, is_excluded, override_severity, apply,
}
use solana_audit_toolkit.Sat.Config.Applied.{kept, apply-eq-map-retain}

pub record OccursIn (pattern text : Text) : Type 0 where
  pub before : Text
  pub after : Text
  pub parts : text ≡ before ++ (pattern ++ after)

-- The severity of a finding of the rule, by the first override of this rule if its name is that of a
-- severity.
pub data SetsSeverity (rule : Text) (overrides : List (Text × Text)) (old : Severity)
    : Severity → Type 0 where
  by_override :
      (o : Text × Text) {severity : Severity}
      → IsFirst (λ (x : Text × Text). x.0 ≡ rule) o overrides
      → parse o.1 ≡ some severity
      → SetsSeverity rule overrides old severity
  unknown_name :
      (o : Text × Text)
      → IsFirst (λ (x : Text × Text). x.0 ≡ rule) o overrides
      → parse o.1 ≡ none
      → SetsSeverity rule overrides old old
  untouched : All (λ (x : Text × Text). x.0 ≢ rule) overrides → SetsSeverity rule overrides old old

-- The findings before and after the configuration.
pub data Applied (c : Config) : List Finding → List Finding → Type 0 where
  ended : Applied c [] []
  disabled :
      (f : Finding) {fs gs : List Finding}
      → Memᴰ (classify_finding_rule f) c.disabled_rules
      → Applied c fs gs
      → Applied c (f ∷ fs) gs
  excluded :
      (f : Finding) (pattern : Text) {fs gs : List Finding}
      → Memᴰ pattern c.exclude
      → OccursIn pattern (unwrap_or f.location [])
      → Applied c fs gs
      → Applied c (f ∷ fs) gs
  stays :
      (f : Finding) (severity : Severity) {fs gs : List Finding}
      → All (λ rule. rule ≢ classify_finding_rule f) c.disabled_rules
      → All (λ pattern. ¬ OccursIn pattern (unwrap_or f.location [])) c.exclude
      → SetsSeverity (classify_finding_rule f) c.severity_overrides f.severity severity
      → Applied c fs gs
      → Applied c (f ∷ fs) (record f { severity = severity } ∷ gs)

starts_with-parts : (s p : Text) → starts_with s p ≡ true → (after : Text) × (s ≡ p ++ after)
unfolding starts_with
starts_with-parts s [] h = (s, refl)
starts_with-parts [] (d ∷ p) h = absurd (false_ne_true h)
starts_with-parts (c ∷ s) (d ∷ p) h =
    let (after, e) = starts_with-parts s p (and_right (c == d) (starts_with s p) h) in
    let same : c ≡ d = (==_iff c d).0 (and_left (c == d) (starts_with s p) h) in
    (after, ap (λ x. x ∷ s) same ∙ ap (◌∷◌ d) e)

starts_with-append : (p after : Text) → starts_with (p ++ after) p ≡ true
unfolding starts_with
starts_with-append [] after = refl
starts_with-append (d ∷ p) after = rw ((==_iff d d).1 refl, starts_with-append p after) refl

contains-OccursIn : (s p : Text) → contains s p ≡ true → OccursIn p s
unfolding contains starts_with
contains-OccursIn [] [] h = record { before = []; after = []; parts = refl }
contains-OccursIn [] (d ∷ p) h = absurd (false_ne_true h)
contains-OccursIn (c ∷ s) p h = elim (Bool-cases (starts_with (c ∷ s) p)) [
  | inl e ↦
      let (after, parts) = starts_with-parts (c ∷ s) p e in
      record { before = []; after = after; parts = parts }
  | inr e ↦
      let o = contains-OccursIn s p (rw (e) at h) in
      record { before = c ∷ o.before; after = o.after; parts = ap (◌∷◌ c) o.parts }
]

contains-append : (before p after : Text) → contains (before ++ (p ++ after)) p ≡ true
unfolding contains starts_with
contains-append [] [] [] = refl
contains-append [] [] (c ∷ after) = refl
contains-append [] (d ∷ p) after = rw (starts_with-append (d ∷ p) after) refl
contains-append (c ∷ before) p after =
    or_right (starts_with (c ∷ (before ++ (p ++ after))) p) (contains (before ++ (p ++ after)) p)
      (contains-append before p after)

OccursIn-contains : (s p : Text) → OccursIn p s → contains s p ≡ true
OccursIn-contains s p o =
    subst (λ t. contains t p ≡ true) (sym o.parts) (contains-append o.before p o.after)

module _ {ℓ} (P : Text → Type ℓ) (p : Text → Bool) (tells : (x : Text) → p x ≡ true → P x)
    (passes : (x : Text) → P x → p x ≡ true) where
  any-found : (xs : List Text) → any p xs ≡ true → (x : Text) × Memᴰ x xs × P x
  any-found [] h = absurd (false_ne_true h)
  any-found (x ∷ xs) h = elim (Bool-cases (p x)) [
    | inl e ↦ (x, Memᴰ.head refl, tells x e)
    | inr e ↦ let (y, m, q) = any-found xs (rw (e) at h) in (y, Memᴰ.tail m, q)
  ]

  any-none : (xs : List Text) → any p xs ≡ false → All (λ x. ¬ P x) xs
  any-none [] h = tt
  any-none (x ∷ xs) h = elim (Bool-cases (p x)) [
    | inl e ↦ absurd (false_ne_true (sym h ∙ rw (e) refl))
    | inr e ↦ (λ q. false_ne_true (sym e ∙ passes x q), any-none xs (rw (e) at h))
  ]

override_of-SetsSeverity :
    (rule : Text) (overrides : List (Text × Text)) (old : Severity)
    → ((o : Text × Text) × IsFirst (λ (x : Text × Text). x.0 ≡ rule) o overrides
        × (override_of rule overrides ≡ some o.1))
      ⊎ (All (λ (x : Text × Text). x.0 ≢ rule) overrides × (override_of rule overrides ≡ none))
unfolding override_of
override_of-SetsSeverity rule [] old = inr (tt, refl)
override_of-SetsSeverity rule ((r, name) ∷ os) old = elim (Bool-cases (text_eq r rule)) [
  | inl e ↦ inl ((r, name), IsFirst.here (r, name) os ((text_eq_iff r rule).0 e), rw (e) refl)
  | inr e ↦
      let other : r ≢ rule = λ q. false_ne_true (sym e ∙ (text_eq_iff r rule).1 q) in
      elim (override_of-SetsSeverity rule os old) [
        | inl (o, f, q) ↦ inl (o, IsFirst.later (r, name) other f, rw (e, q) refl)
        | inr (n, q) ↦ inr ((other, n), rw (e, q) refl)
      ]
]

override_severity-SetsSeverity :
    (c : Config) (f : Finding)
    → (severity : Severity) × SetsSeverity
        (classify_finding_rule f)
        c.severity_overrides
        f.severity
        severity
      × (override_severity c f ≡ record f { severity = severity })
unfolding override_severity
override_severity-SetsSeverity c f =
    elim (override_of-SetsSeverity (classify_finding_rule f) c.severity_overrides f.severity) [
      | inr (n, q) ↦ (f.severity, SetsSeverity.untouched n, rw (q, override_severity) refl)
      | inl (o, first, q) ↦ elim (Option-cases (parse o.1)) [
        | inl e ↦
            (f.severity, SetsSeverity.unknown_name o first e, rw (q, override_severity, e) refl)
        | inr (sev, e) ↦
            (sev, SetsSeverity.by_override o first e, rw (q, override_severity, e) refl)
      ]
    ]

retained-Applied :
    (c : Config) (fs : List Finding) → Applied c fs (map (override_severity c) (retain (kept c) fs))
unfolding is_disabled is_excluded
retained-Applied c [] = Applied.ended
retained-Applied c (f ∷ fs) = elim (Bool-cases (is_disabled c f)) [
  | inl e ↦
      let (rule, m, same) =
        any-found (λ r. r ≡ classify_finding_rule f) (λ r. text_eq r (classify_finding_rule f))
          (λ r. (text_eq_iff r (classify_finding_rule f)).0)
          (λ r. (text_eq_iff r (classify_finding_rule f)).1) c.disabled_rules e in
      rw (e)
        (Applied.disabled f (subst (λ r. Memᴰ r c.disabled_rules) same m) (retained-Applied c fs))
  | inr e ↦ elim (Bool-cases (is_excluded c f)) [
    | inl k ↦
        let (pattern, m, o) =
          any-found (λ p. OccursIn p (unwrap_or f.location []))
            (λ p. contains (unwrap_or f.location []) p)
            (contains-OccursIn (unwrap_or f.location []))
            (OccursIn-contains (unwrap_or f.location [])) c.exclude k in
        rw (e, k) (Applied.excluded f pattern m o (retained-Applied c fs))
    | inr k ↦
        let (severity, sets, q) = override_severity-SetsSeverity c f in
        rw (e, k, q)
          (Applied.stays f severity
            (any-none (λ r. r ≡ classify_finding_rule f) (λ r. text_eq r (classify_finding_rule f))
              (λ r. (text_eq_iff r (classify_finding_rule f)).0)
              (λ r. (text_eq_iff r (classify_finding_rule f)).1) c.disabled_rules e)
            (any-none (λ p. OccursIn p (unwrap_or f.location []))
              (λ p. contains (unwrap_or f.location []) p)
              (contains-OccursIn (unwrap_or f.location []))
              (OccursIn-contains (unwrap_or f.location [])) c.exclude k)
            sets (retained-Applied c fs))
  ]
]

-- A configuration drops the findings of a disabled rule and those whose location has an excluded text in it,
-- and no other; the rest stay in their order and as they are but for the severity, which is that of the first
-- override of the finding's rule, where there is one and it names a severity.
pub apply-Applied : (c : Config) (fs : List Finding) → Applied c fs (apply c fs)
apply-Applied c fs = rw (apply-eq-map-retain c fs) (retained-Applied c fs)
