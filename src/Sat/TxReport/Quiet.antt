-- ===== src/Sat/TxReport/Quiet.antt =====
-- crates/sat/src/tx_report.rs: reports that give no finding, and reports that cannot be loaded.
use mathlib.Core.List.{flat_map}
use mathlib.Core.Option
use mathlib.Core.Path.{subst}
use solana_audit_toolkit.Prelude.{
  Text, ◌⊎◌, text_eq, All-imp, ℕ, zero, suc, ◌≡◌, refl, Bool, true, not, ◌&&◌, some, List, [], ◌∷◌,
  All, Result, ok, err, find, get_elem?, retain, is_empty, Bool-cases, Option-cases, inl, inr,
  arith,
}
use solana_audit_toolkit.Sat.Types.{Finding, Severity}
use solana_audit_toolkit.Sat.Native.Model.{ResolvedAccount, NativeInstruction, NativeProgram}
use solana_audit_toolkit.Sat.TxReport.Types.{
  TxReport, TxReportInstruction, TxReportAccount, AccountField, AccountsStruct, normalize_name,
  load_tx_report, parse_report,
}
use solana_audit_toolkit.Sat.TxReport.Native.{
  find_tx_account, compare_account, check_native_account, find_native, check_native_instruction,
  check_native_tx_report_correlation,
}
use solana_audit_toolkit.Sat.TxReport.Anchor.{
  compare_field, find_field, check_account, names_match, accounts_map, check_instruction,
  check_tx_report_correlation,
}

-- The account signed and was writable in the transaction.
pub record IsPermitted (a : TxReportAccount) : Type 0 where
  pub signs : a.is_signer ≡ true
  pub writes : a.is_writable ≡ true

abbrev pub IsPermissive : TxReport → Type 0
IsPermissive report =
    All (λ (ix : TxReportInstruction). All IsPermitted ix.accounts) report.instructions

module _ {ℓ} {A : Type ℓ} where
  flat_map_nothing {κ} :
      {B : Type κ} (f : A → List B) (xs : List A) → All (λ x. f x ≡ []) xs → flat_map f xs ≡ []
  unfolding flat_map
  flat_map_nothing f [] h = refl
  flat_map_nothing f (x ∷ xs) h = rw (h.0, flat_map_nothing f xs h.1) refl

  All-every {κ} : {P : A → Type κ} → ((a : A) → P a) → (xs : List A) → All P xs
  All-every h [] = tt
  All-every h (x ∷ xs) = (h x, All-every h xs)

  find-All {κ} :
      (P : A → Type κ) (p : A → Bool) (xs : List A) (a : A) → All P xs → find p xs ≡ some a → P a
  find-All P p [] a h e = absurd (cc)
  find-All P p (x ∷ xs) a h e = elim (Bool-cases (p x)) [
    | inl q ↦ subst P (Option.some-injective x a (rw (q) at e)) h.0
    | inr q ↦ find-All P p xs a h.1 (rw (q) at e)
  ]

  get_elem?-All {κ} :
      (P : A → Type κ) (xs : List A) (i : ℕ) (a : A) → All P xs → get_elem? xs i ≡ some a → P a
  get_elem?-All P [] i a h e = absurd (cc)
  get_elem?-All P (x ∷ xs) zero a h e = subst P (Option.some-injective x a e) h.0
  get_elem?-All P (x ∷ xs) (suc i) a h e = get_elem?-All P xs i a h.1 e

compare_account-IsPermitted :
    (ix : NativeInstruction) (tx_ix : TxReportInstruction) (a : ResolvedAccount)
    (t : TxReportAccount)
    → IsPermitted t
    → compare_account ix tx_ix a t ≡ []
unfolding compare_account
compare_account-IsPermitted ix tx_ix a t h = rw (h.signs, h.writes) (ground arith)

compare_field-IsPermitted :
    (s : AccountsStruct) (tx_ix : TxReportInstruction) (t : TxReportAccount) (f : AccountField)
    → IsPermitted t
    → compare_field s tx_ix t f ≡ []
unfolding compare_field
compare_field-IsPermitted s tx_ix t f h = rw (h.signs, h.writes) (ground arith)

find_tx_account-IsPermitted :
    (tx_ix : TxReportInstruction) (a : ResolvedAccount) (t : TxReportAccount)
    → All IsPermitted tx_ix.accounts
    → find_tx_account tx_ix a ≡ some t
    → IsPermitted t
unfolding find_tx_account
find_tx_account-IsPermitted tx_ix a t h e = elim (Option-cases (find is_same tx_ix.accounts)) [
  | inl q ↦ get_elem?-All IsPermitted tx_ix.accounts a.index t h (rw (q) at e)
  | inr (u, q) ↦
      subst IsPermitted (Option.some-injective u t (rw (q) at e))
        (find-All IsPermitted is_same tx_ix.accounts u h q)
]
  where
    is_same : TxReportAccount → Bool
    is_same t = not (is_empty t.name) && text_eq (normalize_name t.name) (normalize_name a.name)

check_native_account-nothing :
    (ix : NativeInstruction) (tx_ix : TxReportInstruction) (a : ResolvedAccount)
    → All IsPermitted tx_ix.accounts
    → check_native_account ix tx_ix a ≡ []
unfolding check_native_account
check_native_account-nothing ix tx_ix a h = elim (Option-cases (find_tx_account tx_ix a)) [
  | inl e ↦ rw (e, check_native_account) refl
  | inr (t, e) ↦
      rw (e, check_native_account)
        (compare_account-IsPermitted ix tx_ix a t (find_tx_account-IsPermitted tx_ix a t h e))
]

check_native_instruction-nothing :
    (program : NativeProgram) (tx_ix : TxReportInstruction)
    → All IsPermitted tx_ix.accounts
    → check_native_instruction program tx_ix ≡ []
unfolding check_native_instruction
check_native_instruction-nothing program tx_ix h = elim (Option-cases (find_native program tx_ix)) [
  | inl e ↦ rw (e, check_native_instruction) refl
  | inr (ix, e) ↦
      rw (e, check_native_instruction)
        (flat_map_nothing (check_native_account ix tx_ix) ix.accounts
          (All-every (λ a. check_native_account-nothing ix tx_ix a h) ix.accounts))
]

check_account-nothing :
    (s : AccountsStruct) (tx_ix : TxReportInstruction) (t : TxReportAccount)
    → IsPermitted t
    → check_account s tx_ix t ≡ []
unfolding check_account
check_account-nothing s tx_ix t h = elim (Option-cases (find_field s t)) [
  | inl e ↦ rw (e, check_account) refl
  | inr (f, e) ↦ rw (e, check_account) (compare_field-IsPermitted s tx_ix t f h)
]

check_instruction-nothing :
    (values : List AccountsStruct) (tx_ix : TxReportInstruction)
    → All IsPermitted tx_ix.accounts
    → check_instruction values tx_ix ≡ []
unfolding check_instruction
check_instruction-nothing values tx_ix h =
    elim (Bool-cases (is_empty (normalize_name tx_ix.name))) [
      | inl e ↦ rw (e, check_instruction) refl
      | inr e ↦
          rw (e, check_instruction)
            (every_struct (retain (names_match (normalize_name tx_ix.name)) values))
    ]
  where
    every_struct :
        (ss : List AccountsStruct)
        → flat_map (λ s. flat_map (check_account s tx_ix) tx_ix.accounts) ss ≡ []
    every_struct ss =
        flat_map_nothing (λ s. flat_map (check_account s tx_ix) tx_ix.accounts) ss
          (All-every
            (λ s.
              flat_map_nothing (check_account s tx_ix) tx_ix.accounts
                (All-imp (λ t p. check_account-nothing s tx_ix t p) tx_ix.accounts h))
            ss)

Result-cases {ℓ κ} :
    {A : Type ℓ} {E : Type κ} (r : Result A E) → ((a : A) × (r ≡ ok a)) ⊎ ((e : E) × (r ≡ err e))
Result-cases (ok a) = inl (a, refl)
Result-cases (err e) = inr (e, refl)

-- What a report that cannot be loaded is reported as.
abbrev IsFailure : Text → Result TxReport Finding → Type 0
IsFailure path (ok report) = ⊥
IsFailure path (err finding) =
    (finding.severity ≡ Severity.informational) × (finding.location ≡ some path)

finding_of :
    (path : Text) (r : Result TxReport Finding)
    → IsFailure path r
    → (finding : Finding) × (r ≡ err finding)
      × (finding.severity ≡ Severity.informational)
      × (finding.location ≡ some path)
finding_of path (ok report) h = absurd h
finding_of path (err finding) h = (finding, refl, h.0, h.1)

-- The report file cannot be read, or what it holds is no report.
pub data IsUnloadable (read : Text → Result Text Text) (from_str : Text → Result TxReport Text)
    (path : Text) : Type 0 where
  unreadable : (e : Text) → read path ≡ err e → IsUnloadable read from_str path
  unparsable :
      (content e : Text)
      → read path ≡ ok content
      → from_str content ≡ err e
      → IsUnloadable read from_str path

module _ (read : Text → Result Text Text) (from_str : Text → Result TxReport Text)
    (visit : List AccountsStruct → List AccountsStruct) where
  load_tx_report-IsUnloadable :
      (path : Text)
      → IsUnloadable read from_str path
      → (finding : Finding) × (load_tx_report read from_str path ≡ err finding)
        × (finding.severity ≡ Severity.informational)
        × (finding.location ≡ some path)
  unfolding load_tx_report parse_report
  load_tx_report-IsUnloadable path h =
      finding_of path (load_tx_report read from_str path) (failed h)
    where
      failed : IsUnloadable read from_str path → IsFailure path (load_tx_report read from_str path)
      failed (unreadable e p) = rw (p, load_tx_report) (refl, refl)
      failed (unparsable content e p q) = rw (p, load_tx_report, q, parse_report) (refl, refl)

  -- Whatever the program and the account structs, a report that is loaded and in which every account
  -- signed and was writable gives no finding, native or Anchor, in any order of the hash map.
  pub correlation-IsPermissive :
      (program : NativeProgram) (accounts : List AccountsStruct) (path : Text) (report : TxReport)
      → load_tx_report read from_str path ≡ ok report
      → IsPermissive report
      → (check_native_tx_report_correlation read from_str program path ≡ [])
        × (check_tx_report_correlation read from_str visit accounts path ≡ [])
  unfolding check_native_tx_report_correlation check_tx_report_correlation
  correlation-IsPermissive program accounts path report e h = (
    rw (e, check_native_tx_report_correlation)
        (flat_map_nothing (check_native_instruction program) report.instructions
          (All-imp (λ ix p. check_native_instruction-nothing program ix p) report.instructions h)),
    rw (e, check_tx_report_correlation)
        (flat_map_nothing (check_instruction (visit (accounts_map accounts))) report.instructions (
          All-imp (λ ix p. check_instruction-nothing (visit (accounts_map accounts)) ix p)
            report.instructions h)),
  )

  -- Where the report file cannot be read, or is read and does not parse, both correlations give the same
  -- single finding, informational and located at the path, whatever the program and the account structs.
  pub correlation-IsUnloadable :
      (program : NativeProgram) (accounts : List AccountsStruct) (path : Text)
      → IsUnloadable read from_str path
      → (finding : Finding) × (check_native_tx_report_correlation read from_str program path
          ≡ finding ∷ [])
        × (check_tx_report_correlation read from_str visit accounts path ≡ finding ∷ [])
        × (finding.severity ≡ Severity.informational)
        × (finding.location ≡ some path)
  unfolding check_native_tx_report_correlation check_tx_report_correlation
  correlation-IsUnloadable program accounts path h =
      let (finding, e, severity, location) = load_tx_report-IsUnloadable path h in
      (
        finding,
        rw (e, check_native_tx_report_correlation) refl,
        rw (e, check_tx_report_correlation) refl,
        severity,
        location,
      )
