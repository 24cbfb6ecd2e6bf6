-- ===== src/Sat/Watch/Diff.antt =====
-- Membership in the difference of two scans (crates/sat/src/watch.rs).
use solana_audit_toolkit.Prelude.{
  text_eq_iff, Bool, true, not, ◌&&◌, List, [], ◌∷◌, retain, arith, ◌≡◌, ◌↔◌, refl, ap, Bool-cases,
  inl, inr,
}
use solana_audit_toolkit.Sat.Watch.{FindingSignature, signature_eq, holds, diff_signatures}

fields_eq :
    (a b : FindingSignature)
    → a.rule_id ≡ b.rule_id
    → a.title ≡ b.title
    → a.location ≡ b.location
    → a.severity ≡ b.severity
    → a ≡ b
fields_eq a b h k l m = λ i. record { rule_id = h i; title = k i; location = l i; severity = m i }

-- The test of signatures decides their equality.
pub signature_eq_iff : (a b : FindingSignature) → (signature_eq a b ≡ true) ↔ (a ≡ b)
unfolding signature_eq
signature_eq_iff a b = (
  λ h.
      fields_eq a b (ground (arith, text_eq_iff a.rule_id b.rule_id))
        (ground (arith, text_eq_iff a.title b.title))
        (ground (arith, text_eq_iff a.location b.location))
        (ground (arith, text_eq_iff a.severity b.severity)),
  λ h. rw h (
      ground (
        arith,
        text_eq_iff b.rule_id b.rule_id,
        text_eq_iff b.title b.title,
        text_eq_iff b.location b.location,
        text_eq_iff b.severity b.severity,
      )),
)

-- What `retain` keeps of the signatures equal to `s`, where the test decides by the signature.
holds-retain :
    (q : FindingSignature → Bool) (s : FindingSignature) (xs : List FindingSignature)
    → holds (retain q xs) s ≡ (holds xs s && q s)
unfolding holds
holds-retain q s [] = refl
holds-retain q s (x ∷ xs) = elim (Bool-cases (signature_eq s x)) [
  | inl e ↦
      let same : s ≡ x = (signature_eq_iff s x).0 e in
      ground (arith, holds-retain q s xs, ap q same)
  | inr e ↦ ground (arith, holds-retain q s xs)
]

-- A signature is among the added exactly if the current scan has it and the previous has not, and
-- among the removed exactly the other way round.
pub diff_signatures-holds :
    (previous current : List FindingSignature) (s : FindingSignature)
    → (holds (diff_signatures previous current).added s
        ≡ (holds current s && not (holds previous s)))
      × (holds (diff_signatures previous current).removed s
          ≡ (holds previous s && not (holds current s)))
unfolding diff_signatures
diff_signatures-holds previous current s = (
  holds-retain (λ x. not (holds previous x)) s current,
  holds-retain (λ x. not (holds current x)) s previous,
)
