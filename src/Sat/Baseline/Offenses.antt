-- ===== src/Sat/Baseline/Offenses.antt =====
-- crates/sat/src/baseline.rs and the severity gate of crates/sat/src/config.rs: a scan against the findings
-- that a baseline was taken of.
use mathlib.Core.Path.{subst}
use mathlib.Core.List.Memᴰ
use mathlib.Core.List.{Memᴰ}
use solana_audit_toolkit.Prelude.{
  sym, Bool-cases, inl, inr, false_ne_true, ◌≤◌, ◌↔◌, or_right, Text, ◌+◌, ◌≡◌, refl, true, not,
  List, [], ◌∷◌, any, All, length, retain, arith, leb, length-retain,
}
use solana_audit_toolkit.Sat.Types.{Finding, Severity, ordinal}
use solana_audit_toolkit.Sat.Baseline.{from_findings, retain_new}
use solana_audit_toolkit.Sat.Baseline.Gate.{is_known, SameIssue, known_accepted, new_unaccepted}
use solana_audit_toolkit.Sat.Config.{fails}

-- What a scan is against the findings that were accepted: an issue that is among them goes, another stays.
pub data Renewed (accepted : List Finding) (accepted_src src : Text)
    : List Finding → List Finding → Type 0 where
  ended : Renewed accepted accepted_src src [] []
  accepted_before :
      (f g : Finding) {fs kept : List Finding}
      → Memᴰ g accepted
      → SameIssue accepted_src src g f
      → Renewed accepted accepted_src src fs kept
      → Renewed accepted accepted_src src (f ∷ fs) kept
  is_new :
      (f : Finding) {fs kept : List Finding}
      → All (λ g. ¬ SameIssue accepted_src src g f) accepted
      → Renewed accepted accepted_src src fs kept
      → Renewed accepted accepted_src src (f ∷ fs) (f ∷ kept)

-- A finding of the list that is no accepted issue and at least as severe as the threshold.
pub record Offends (accepted : List Finding) (accepted_src src : Text) (threshold : Severity)
    (findings : List Finding) : Type 0 where
  pub finding : Finding
  pub is_found : Memᴰ finding findings
  pub unaccepted : All (λ g. ¬ SameIssue accepted_src src g finding) accepted
  pub severe : ordinal finding.severity ≤ ordinal threshold

member_of_All {ℓ κ} :
    {A : Type ℓ} (P : A → Type κ) (x : A) (xs : List A) → Memᴰ x xs → All P xs → P x
member_of_All P x [] m h = absurd (Memᴰ.not-nil m)
member_of_All P x (y ∷ xs) m h = elim (Memᴰ.cases_cons m) [
  | inl e ↦ subst P (sym e) h.0
  | inr k ↦ member_of_All P x xs k h.1
]

at_least : (s t : Severity) → ordinal s ≤ ordinal t → leb (ordinal s) (ordinal t) ≡ true
at_least s t l = ground arith

module _ (accepted : List Finding) (accepted_src src : Text) where
  retain-Renewed :
      (fs : List Finding)
      → Renewed accepted accepted_src src fs
          (retain (λ f. not (is_known (from_findings accepted accepted_src) src f)) fs)
  retain-Renewed [] = Renewed.ended
  retain-Renewed (f ∷ fs) =
      elim (Bool-cases (is_known (from_findings accepted accepted_src) src f)) [
        | inl e ↦
            let (g, m, same) = known_accepted accepted_src src f accepted e in
            rw e (Renewed.accepted_before f g m same (retain-Renewed fs))
        | inr e ↦
            rw e
              (Renewed.is_new f (new_unaccepted accepted_src src f accepted e) (retain-Renewed fs))
      ]

  Offends-later :
      (threshold : Severity) (f : Finding) {fs : List Finding}
      → Offends accepted accepted_src src threshold fs
      → Offends accepted accepted_src src threshold (f ∷ fs)
  Offends-later t f o = record {
    finding = o.finding;
    is_found = Memᴰ.tail o.is_found;
    unaccepted = o.unaccepted;
    severe = o.severe;
  }

  fails-Offends :
      (threshold : Severity) {fs kept : List Finding}
      → Renewed accepted accepted_src src fs kept
      → fails kept threshold ≡ true
      → Offends accepted accepted_src src threshold fs
  unfolding fails
  fails-Offends t ended h = absurd (false_ne_true h)
  fails-Offends t (accepted_before f g m same r) h = Offends-later t f (fails-Offends t r h)
  fails-Offends t (is_new f {kept = kept} n r) h =
      elim (Bool-cases (leb (ordinal f.severity) (ordinal t))) [
        | inl e ↦ record {
          finding = f;
          is_found = Memᴰ.head refl;
          unaccepted = n;
          severe = ground arith;
        }
        | inr e ↦ Offends-later t f (fails-Offends t r (rw (e) at h))
      ]

  Offends-fails :
      (threshold : Severity) {fs kept : List Finding}
      → Renewed accepted accepted_src src fs kept
      → (f : Finding) → Memᴰ f fs
      → All (λ g. ¬ SameIssue accepted_src src g f) accepted
      → ordinal f.severity ≤ ordinal threshold
      → fails kept threshold ≡ true
  unfolding fails
  Offends-fails t ended f m n l = absurd (Memᴰ.not-nil m)
  Offends-fails t (accepted_before k g i same r) f m n l = elim (Memᴰ.cases_cons m) [
    | inl e ↦ absurd (
        member_of_All (λ g. ¬ SameIssue accepted_src src g f) g accepted i n
          (subst (SameIssue accepted_src src g) (sym e) same))
    | inr q ↦ Offends-fails t r f q n l
  ]
  Offends-fails t (is_new k {kept = kept} n_k r) f m n l = elim (Memᴰ.cases_cons m) [
    | inl e ↦ rw (at_least k.severity t (subst (λ x. ordinal x.severity ≤ ordinal t) e l)) refl
    | inr q ↦
        or_right (leb (ordinal k.severity) (ordinal t))
          (any (λ x. leb (ordinal x.severity) (ordinal t)) kept) (Offends-fails t r f q n l)
  ]

-- Against a baseline taken of `accepted`, a scan keeps, in their order, exactly the findings that are no
-- accepted issue: those of which no accepted finding has the rule, the title, the severity and the place without
-- its line. The count that is returned is the number of the others, and the severity gate behind it fails
-- exactly if some finding of the scan is no accepted issue and at least as severe as the threshold.
pub retain_new-Renewed :
    (accepted findings : List Finding) (accepted_src src : Text) (threshold : Severity)
    → Renewed accepted accepted_src src findings
        (retain_new findings (from_findings accepted accepted_src) src).0
      × (length (retain_new findings (from_findings accepted accepted_src) src).0
            + (retain_new findings (from_findings accepted accepted_src) src).1
          ≡ length findings)
      × ((fails (retain_new findings (from_findings accepted accepted_src) src).0 threshold ≡ true)
          ↔ Offends accepted accepted_src src threshold findings)
unfolding retain_new
retain_new-Renewed accepted findings accepted_src src threshold =
    let renewed = retain-Renewed accepted accepted_src src findings in
    (
      renewed,
      omega (
        arith,
        length-retain (λ f. not (is_known (from_findings accepted accepted_src) src f)) findings,
      ),
      (
        fails-Offends accepted accepted_src src threshold renewed,
        λ o.
            Offends-fails accepted accepted_src src threshold renewed o.finding o.is_found
              o.unaccepted o.severe,
      ),
    )
