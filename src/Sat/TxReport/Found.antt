-- ===== src/Sat/TxReport/Found.antt =====
-- crates/sat/src/tx_report.rs: what a native program promises and a transaction breaks is found.
use mathlib.Core.Logic.Or
use mathlib.Core.Path.{subst}
use mathlib.Core.List.{
  Mem, Mem-prop, not-mem-nil, mem-cons, mem-cons_self, mem-append_left, mem-append_right, flat_map,
}
use solana_audit_toolkit.Prelude.{
  IsFirst, Text, codes, ◌≡◌, refl, true, false, some, List, [], ◌∷◌, ◌++◌, Result, ok,
}
use solana_audit_toolkit.Sat.Types.{Finding, Severity}
use solana_audit_toolkit.Sat.Native.Model.{ResolvedAccount, NativeInstruction, NativeProgram}
use solana_audit_toolkit.Sat.TxReport.Types.{
  TxReport, TxReportInstruction, TxReportAccount, load_tx_report, parse_report,
}
use solana_audit_toolkit.Sat.TxReport.Names.{SameName}
use solana_audit_toolkit.Sat.TxReport.Native.{
  tx_location, unsigned_finding, unwritable_finding, find_tx_account, compare_account,
  check_native_account, find_native, check_native_instruction, check_native_tx_report_correlation,
}
use solana_audit_toolkit.Sat.TxReport.Stands.{
  NamesInstruction, StandsFor, MustSign, find_native-IsFirst, find_tx_account-StandsFor,
  is_signer_expected-MustSign,
}

module _ {ℓ κ} {A : Type ℓ} {B : Type κ} where
  mem-flat_map :
      (f : A → List B) (xs : List A) (x : A) (y : B)
      → Mem x xs
      → Mem y (f x)
      → Mem y (flat_map f xs)
  unfolding flat_map
  mem-flat_map f [] x y m n = absurd (not-mem-nil m)
  mem-flat_map f (z ∷ xs) x y m n =
      Or.elim (Mem-prop {a = y} {l = f z ++ flat_map f xs}) (mem-cons.0 m)
        (λ e. mem-append_left (flat_map f xs) (subst (λ w. Mem y (f w)) e n))
        (λ k. mem-append_right (f z) (mem-flat_map f xs x y k n))

module _ (read : Text → Result Text Text) (from_str : Text → Result TxReport Text)
    (program : NativeProgram) (path : Text) (report : TxReport) (tx_ix : TxReportInstruction)
    (native_ix : NativeInstruction) (account : ResolvedAccount) (tx_acct : TxReportAccount) where
  found_in_report :
      (finding : Finding)
      → load_tx_report read from_str path ≡ ok report
      → Mem tx_ix report.instructions
      → find_native program tx_ix ≡ some native_ix
      → Mem account native_ix.accounts
      → find_tx_account tx_ix account ≡ some tx_acct
      → Mem finding (compare_account native_ix tx_ix account tx_acct)
      → Mem finding (check_native_tx_report_correlation read from_str program path)
  unfolding check_native_tx_report_correlation check_native_instruction check_native_account
  found_in_report finding e m n k t c =
      rw (e, check_native_tx_report_correlation)
        (mem-flat_map (check_native_instruction program) report.instructions tx_ix finding m (
          rw (n, check_native_instruction)
            (mem-flat_map (check_native_account native_ix tx_ix) native_ix.accounts account finding
              k (rw (t, check_native_account) c))))

  loaded :
      (content : Text)
      → read path ≡ ok content
      → from_str content ≡ ok report
      → load_tx_report read from_str path ≡ ok report
  unfolding load_tx_report parse_report
  loaded content r p = rw (r, load_tx_report, p, parse_report) refl

  -- For an instruction of a report that is read and parses, the instruction of the program that is the first
  -- of its name, and an account of it that must sign, by its type or by a check
  -- in the source: if the transaction's account, the first of its name or else the one at its position, did
  -- not sign, then the finding about it is among the results, critical and located at both names. Names are one
  -- up to case and underscores; the instruction's is more than underscores, and an account of the transaction
  -- has a name unless it is empty.
  pub correlation_finds_unsigned :
      (content : Text)
      → read path ≡ ok content
      → from_str content ≡ ok report
      → Mem tx_ix report.instructions
      → ¬ SameName tx_ix.name []
      → IsFirst (NamesInstruction tx_ix) native_ix program.instructions
      → Mem account native_ix.accounts
      → StandsFor account tx_ix.accounts tx_acct
      → MustSign account
      → tx_acct.is_signer ≡ false
      → Mem
          (unsigned_finding native_ix tx_ix account)
          (check_native_tx_report_correlation read from_str program path)
        × ((unsigned_finding native_ix tx_ix account).severity ≡ Severity.critical)
        × ((unsigned_finding native_ix tx_ix account).location
            ≡ some (codes "Tx-report: " ++ (tx_ix.name ++ (codes " / " ++ account.name))))
  unfolding compare_account unsigned_finding tx_location
  correlation_finds_unsigned content r p m n f k t s u = (
    found_in_report (unsigned_finding native_ix tx_ix account) (loaded content r p) m
        (find_native-IsFirst program tx_ix native_ix n f) k
        (find_tx_account-StandsFor tx_ix account tx_acct t)
        (rw (compare_account, is_signer_expected-MustSign account s, u) mem-cons_self),
    refl,
    refl,
  )

  -- Under the same conditions, if the source writes the account and it was not writable, the finding
  -- about it is among the results.
  pub correlation_finds_unwritable :
      (content : Text)
      → read path ≡ ok content
      → from_str content ≡ ok report
      → Mem tx_ix report.instructions
      → ¬ SameName tx_ix.name []
      → IsFirst (NamesInstruction tx_ix) native_ix program.instructions
      → Mem account native_ix.accounts
      → StandsFor account tx_ix.accounts tx_acct
      → account.written ≡ true
      → tx_acct.is_writable ≡ false
      → Mem
          (unwritable_finding native_ix tx_ix account)
          (check_native_tx_report_correlation read from_str program path)
  unfolding compare_account unwritable_finding
  correlation_finds_unwritable content r p m n f k t s u =
      found_in_report (unwritable_finding native_ix tx_ix account) (loaded content r p) m
        (find_native-IsFirst program tx_ix native_ix n f) k
        (find_tx_account-StandsFor tx_ix account tx_acct t)
        (rw (compare_account, s, u) (mem-append_right _ mem-cons_self))
