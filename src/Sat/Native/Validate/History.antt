-- ===== src/Sat/Native/Validate/History.antt =====
-- crates/sat/src/native/rules/validate.rs: a step among some steps and one more.
use mathlib.Core.List.Memᴰ
use mathlib.Core.List.{Memᴰ}
use solana_audit_toolkit.Prelude.{
  ℕ, ◌≡◌, ◌⊎◌, inl, inr, sym, ap, Bool, true, false, List, [], ◌∷◌, ◌++◌, false_ne_true,
}
use solana_audit_toolkit.Sat.Native.Validate.Forest.{Step, links, marks}

ends : Step → ℕ × ℕ
ends (links i j) = (i, j)
ends (marks i) = (i, i)

is_link : Step → Bool
is_link (links i j) = true
is_link (marks i) = false

-- A link among the steps and one more is that one or an earlier one.
pub links_cases :
    {steps : List Step} {a b i j : ℕ}
    → Memᴰ (links i j) (steps ++ links a b ∷ [])
    → Memᴰ (links i j) steps ⊎ ((i ≡ a) × (j ≡ b))
unfolding ends
links_cases {steps} m = elim (Memᴰ.append_cases steps m) [
  | inl l ↦ inl l
  | inr l ↦
      inr (
        ap (λ s. (ends s).0) (Memᴰ.eq_of_singleton l),
        ap (λ s. (ends s).1) (Memᴰ.eq_of_singleton l),
      )
]

pub marks_before :
    {steps : List Step} (a b : ℕ) {i : ℕ}
    → Memᴰ (marks i) (steps ++ links a b ∷ [])
    → Memᴰ (marks i) steps
unfolding is_link
marks_before {steps} a b m = elim (Memᴰ.append_cases steps m) [
  | inl l ↦ l
  | inr l ↦ absurd (false_ne_true (ap is_link (Memᴰ.eq_of_singleton l)))
]

pub marks_cases :
    {steps : List Step} {a i : ℕ}
    → Memᴰ (marks i) (steps ++ marks a ∷ [])
    → Memᴰ (marks i) steps ⊎ (i ≡ a)
unfolding ends
marks_cases {steps} m = elim (Memᴰ.append_cases steps m) [
  | inl l ↦ inl l
  | inr l ↦ inr (ap (λ s. (ends s).0) (Memᴰ.eq_of_singleton l))
]

pub links_before :
    {steps : List Step} (a : ℕ) {i j : ℕ}
    → Memᴰ (links i j) (steps ++ marks a ∷ [])
    → Memᴰ (links i j) steps
unfolding is_link
links_before {steps} a m = elim (Memᴰ.append_cases steps m) [
  | inl l ↦ l
  | inr l ↦ absurd (false_ne_true (sym (ap is_link (Memᴰ.eq_of_singleton l))))
]
