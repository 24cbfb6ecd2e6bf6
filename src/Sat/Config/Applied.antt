-- ===== src/Sat/Config/Applied.antt =====
-- What is left after a configuration is applied (crates/sat/src/config.rs).
use solana_audit_toolkit.Prelude.{
  Text, Bool, true, false, not, ◌&&◌, none, List, [], ◌∷◌, map, any, retain, is_empty, arith, ◌≡◌,
  refl, ap, sym, ◌∙◌, if◌then◌else◌,
}
use solana_audit_toolkit.Sat.Types.{Finding}
use solana_audit_toolkit.Sat.Rules.{classify_finding_rule}
use solana_audit_toolkit.Sat.Config.{
  Config, override_of, is_disabled, is_excluded, override_severity, apply,
}

-- The findings that a configuration keeps.
abbrev pub kept : Config → Finding → Bool
kept c f = not (is_disabled c f) && not (is_excluded c f)

retain-true {ℓ} :
    {A : Type ℓ} (q : A → Bool) (xs : List A) → ((x : A) → q x ≡ true) → retain q xs ≡ xs
retain-true q [] h = refl
retain-true q (x ∷ xs) h = rw (h x, retain-true q xs h)

map_same {ℓ} : {A : Type ℓ} (f : A → A) (xs : List A) → ((x : A) → f x ≡ x) → map f xs ≡ xs
map_same f [] h = refl
map_same f (x ∷ xs) h = rw (h x, map_same f xs h)

retain-both {ℓ} :
    {A : Type ℓ} (p q : A → Bool) (xs : List A)
    → retain p (retain q xs) ≡ retain (λ x. q x && p x) xs
retain-both p q [] = refl
retain-both p q (x ∷ xs) = ground (arith, retain-both p q xs)

any_empty : (t : Text → Bool) (ys : List Text) → is_empty ys ≡ true → any t ys ≡ false
any_empty t [] h = refl
any_empty t (y ∷ ys) h = absurd (cc)

not_disabled :
    (c : Config) (f : Finding) → is_empty c.disabled_rules ≡ true → not (is_disabled c f) ≡ true
unfolding is_disabled
not_disabled c f h = rw (any_empty _ c.disabled_rules h)

not_excluded : (c : Config) (f : Finding) → is_empty c.exclude ≡ true → not (is_excluded c f) ≡ true
unfolding is_excluded
not_excluded c f h = rw (any_empty _ c.exclude h)

overrides_empty :
    (rule : Text) (os : List (Text × Text)) → is_empty os ≡ true → override_of rule os ≡ none
unfolding override_of
overrides_empty rule [] h = refl
overrides_empty rule (o ∷ os) h = absurd (cc)

not_overridden :
    (c : Config) (f : Finding) → is_empty c.severity_overrides ≡ true → override_severity c f ≡ f
unfolding override_severity
not_overridden c f h =
    rw (overrides_empty (classify_finding_rule f) c.severity_overrides h, override_severity)

guarded_retain {ℓ} :
    {A : Type ℓ} (b : Bool) (q : A → Bool) (xs : List A)
    → (b ≡ true → (x : A) → q x ≡ true)
    → (if not b then retain q xs else xs) ≡ retain q xs
guarded_retain true q xs h = sym (retain-true q xs (h refl))
guarded_retain false q xs h = refl

guarded_map {ℓ} :
    {A : Type ℓ} (b : Bool) (f : A → A) (xs : List A)
    → (b ≡ true → (x : A) → f x ≡ x)
    → (if not b then map f xs else xs) ≡ map f xs
guarded_map true f xs h = sym (map_same f xs (h refl))
guarded_map false f xs h = refl

-- A configuration drops exactly the findings of disabled rules and of excluded locations, and sets
-- the severity of the others by its overrides; the order stays.
pub apply-eq-map-retain :
    (c : Config) (fs : List Finding) → apply c fs ≡ map (override_severity c) (retain (kept c) fs)
unfolding apply
apply-eq-map-retain c fs =
    guarded_map (is_empty c.severity_overrides) (override_severity c) _
      (λ h f. not_overridden c f h)
    ∙ ap (map (override_severity c)) (
        guarded_retain (is_empty c.exclude) (λ f. not (is_excluded c f)) _
          (λ h f. not_excluded c f h)
        ∙ ap (retain (λ f. not (is_excluded c f))) (
            guarded_retain (is_empty c.disabled_rules) (λ f. not (is_disabled c f)) fs
              (λ h f. not_disabled c f h))
        ∙ retain-both (λ f. not (is_excluded c f)) (λ f. not (is_disabled c f)) fs)
