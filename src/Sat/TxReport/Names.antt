-- ===== src/Sat/TxReport/Names.antt =====
-- crates/sat/src/tx_report.rs: `normalize_name`, and when two names are one to it.
use solana_audit_toolkit.Prelude.{
  Text, ℕ, lower, to_lowercase, remove_char, ◌≡◌, ◌≢◌, ◌↔◌, ◌==◌, refl, sym, ap, ◌∙◌, true, false,
  [], ◌∷◌, Bool-cases, inl, inr, arith,
}
use solana_audit_toolkit.Sat.TxReport.Types.{normalize_name}

-- Two names are the same up to case and underscores.
pub data SameName : Text → Text → Type 0 where
  both_end : SameName [] []
  skip_left : {s t : Text} → SameName s t → SameName (b'_' ∷ s) t
  skip_right : {s t : Text} → SameName s t → SameName s (b'_' ∷ t)
  same_letter : {c d : ℕ} {s t : Text} → lower c ≡ lower d → SameName s t → SameName (c ∷ s) (d ∷ t)

lower_underscore : (c : ℕ) → (lower c == b'_') ≡ true → c ≡ b'_'
unfolding lower
lower_underscore c h = ground arith

normalize_skip : (s : Text) → normalize_name (b'_' ∷ s) ≡ normalize_name s
unfolding normalize_name to_lowercase remove_char lower
normalize_skip s = refl

normalize_drops :
    (c : ℕ) (s : Text) → (lower c == b'_') ≡ true → normalize_name (c ∷ s) ≡ normalize_name s
unfolding normalize_name to_lowercase remove_char
normalize_drops c s h = rw (h) refl

normalize_keeps :
    (c : ℕ) (s : Text)
    → (lower c == b'_') ≡ false
    → normalize_name (c ∷ s) ≡ lower c ∷ normalize_name s
unfolding normalize_name to_lowercase remove_char
normalize_keeps c s h = rw (h) refl

SameName-normalize_name : {s t : Text} → SameName s t → normalize_name s ≡ normalize_name t
SameName-normalize_name both_end = refl
SameName-normalize_name (skip_left {s} h) = normalize_skip s ∙ SameName-normalize_name h
SameName-normalize_name (skip_right {t = t} h) = SameName-normalize_name h ∙ sym (normalize_skip t)
SameName-normalize_name (same_letter {c} {d} {s} {t} e h) = elim (Bool-cases (lower c == b'_')) [
  | inl q ↦
      normalize_drops c s q
      ∙ (SameName-normalize_name h ∙ sym (normalize_drops d t (ap (λ x. x == b'_') (sym e) ∙ q)))
  | inr q ↦
      normalize_keeps c s q
      ∙ (rw (e, SameName-normalize_name h) refl
          ∙ sym (normalize_keeps d t (ap (λ x. x == b'_') (sym e) ∙ q)))
]

skip_left_of : (c : ℕ) {s t : Text} → c ≡ b'_' → SameName s t → SameName (c ∷ s) t
skip_left_of c {s} {t} e h = rw (e) (skip_left h)

skip_right_of : (c : ℕ) {s t : Text} → c ≡ b'_' → SameName s t → SameName s (c ∷ t)
skip_right_of c {s} {t} e h = rw (e) (skip_right h)

not_cons : (c : ℕ) (s : Text) → [] ≢ c ∷ s
not_cons c s e = cc

normalize_nil : normalize_name [] ≡ []
unfolding normalize_name to_lowercase remove_char
normalize_nil = refl

empty-SameName : (t : Text) → [] ≡ normalize_name t → SameName [] t
empty-SameName [] e = both_end
empty-SameName (d ∷ t) e = elim (Bool-cases (lower d == b'_')) [
  | inl q ↦ skip_right_of d (lower_underscore d q) (empty-SameName t (e ∙ normalize_drops d t q))
  | inr q ↦ absurd (not_cons (lower d) (normalize_name t) (e ∙ normalize_keeps d t q))
]

head_eq : {c d : ℕ} {s t : Text} → c ∷ s ≡ d ∷ t → c ≡ d
head_eq e = cc

tail_eq : {c d : ℕ} {s t : Text} → c ∷ s ≡ d ∷ t → s ≡ t
tail_eq e = cc

letter-SameName :
    (c : ℕ) (s t : Text)
    → ((u : Text) → normalize_name s ≡ normalize_name u → SameName s u)
    → lower c ∷ normalize_name s ≡ normalize_name t
    → SameName (c ∷ s) t
letter-SameName c s [] h e =
    absurd (not_cons (lower c) (normalize_name s) (sym (e ∙ normalize_nil)))
letter-SameName c s (d ∷ t) h e = elim (Bool-cases (lower d == b'_')) [
  | inl q ↦
      skip_right_of d (lower_underscore d q) (letter-SameName c s t h (e ∙ normalize_drops d t q))
  | inr q ↦ let both = e ∙ normalize_keeps d t q in same_letter (head_eq both) (h t (tail_eq both))
]

normalize_name-SameName : (s t : Text) → normalize_name s ≡ normalize_name t → SameName s t
normalize_name-SameName [] t e = empty-SameName t (sym normalize_nil ∙ e)
normalize_name-SameName (c ∷ s) t e = elim (Bool-cases (lower c == b'_')) [
  | inl q ↦
      skip_left_of c (lower_underscore c q)
        (normalize_name-SameName s t (sym (normalize_drops c s q) ∙ e))
  | inr q ↦ letter-SameName c s t (normalize_name-SameName s) (sym (normalize_keeps c s q) ∙ e)
]

-- Normalised names agree exactly if the names do, up to case and underscores.
pub normalize_name_iff : (s t : Text) → (normalize_name s ≡ normalize_name t) ↔ SameName s t
normalize_name_iff s t = (normalize_name-SameName s t, SameName-normalize_name)

-- A name of more than underscores does not become empty.
pub normalize_name-ne-nil : (s : Text) → ¬ SameName s [] → normalize_name s ≢ []
normalize_name-ne-nil s n e = n (normalize_name-SameName s [] (e ∙ sym normalize_nil))
