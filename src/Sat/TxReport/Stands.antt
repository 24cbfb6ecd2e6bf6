-- ===== src/Sat/TxReport/Stands.antt =====
-- crates/sat/src/tx_report.rs: which instruction and which account of the source a transaction's stand for,
-- told without the searches, and that the searches find them.
use solana_audit_toolkit.Prelude.{
  IsFirst, Text, text_eq, text_eq_iff, ◌≡◌, ◌≢◌, refl, Bool, true, false, not, ◌&&◌, none, some,
  List, [], ◌∷◌, ◌++◌, All, length, find, get_elem?, is_empty, Bool-cases, inl, inr, and_left,
  and_right, or_right, false_ne_true,
}
use solana_audit_toolkit.Sat.Native.Model.{
  AccountKind, ResolvedAccount, NativeInstruction, NativeProgram, is_signer_expected,
  is_signer_kind,
}
use solana_audit_toolkit.Sat.TxReport.Types.{TxReportInstruction, TxReportAccount, normalize_name}
use solana_audit_toolkit.Sat.TxReport.Names.{SameName, normalize_name_iff, normalize_name-ne-nil}
use solana_audit_toolkit.Sat.TxReport.Native.{find_tx_account, find_native}

abbrev pub NamesInstruction : TxReportInstruction → NativeInstruction → Type 0
NamesInstruction tx_ix ix = SameName ix.name tx_ix.name

pub record NamesAccount (account : ResolvedAccount) (t : TxReportAccount) : Type 0 where
  pub named : t.name ≢ []
  pub same_name : SameName t.name account.name

-- The transaction's account for one of the source: the first of its name, else the one at its position.
pub data StandsFor (account : ResolvedAccount) (accounts : List TxReportAccount)
    : TxReportAccount → Type 0 where
  by_name :
      {t : TxReportAccount}
      → IsFirst (NamesAccount account) t accounts
      → StandsFor account accounts t
  by_position :
      (before after : List TxReportAccount) {t : TxReportAccount}
      → All (λ a. ¬ NamesAccount account a) accounts
      → accounts ≡ before ++ (t ∷ after)
      → length before ≡ account.index
      → StandsFor account accounts t

-- The source checks the signature, or takes the account as a signer.
pub data MustSign (account : ResolvedAccount) : Type 0 where
  checked : account.is_signer_checked ≡ true → MustSign account
  typed : account.kind ≡ AccountKind.signer → MustSign account

module _ {ℓ κ} {A : Type ℓ} (P : A → Type κ) (p : A → Bool) (passes : (x : A) → P x → p x ≡ true)
    (tells : (x : A) → p x ≡ true → P x) where
  find_refuses : (x : A) → ¬ P x → p x ≡ false
  find_refuses x n = elim (Bool-cases (p x)) [ inl e ↦ absurd (n (tells x e)) | inr e ↦ e ]

  find-IsFirst : {x : A} {xs : List A} → IsFirst P x xs → find p xs ≡ some x
  find-IsFirst (IsFirst.here x xs h) = rw (passes x h) refl
  find-IsFirst (IsFirst.later y n f) = rw (find_refuses y n) (find-IsFirst f)

  find-none : (xs : List A) → All (λ x. ¬ P x) xs → find p xs ≡ none
  find-none [] h = refl
  find-none (x ∷ xs) h = rw (find_refuses x h.0, find-none xs h.1) refl

get_elem?-append {ℓ} :
    {A : Type ℓ} (before : List A) (x : A) (after : List A)
    → get_elem? (before ++ (x ∷ after)) (length before) ≡ some x
get_elem?-append [] x after = refl
get_elem?-append (y ∷ before) x after = get_elem?-append before x after

is_empty-false : (s : Text) → s ≢ [] → is_empty s ≡ false
is_empty-false [] n = absurd (n refl)
is_empty-false (c ∷ s) n = refl

not-is_empty : (s : Text) → not (is_empty s) ≡ true → s ≢ []
not-is_empty [] h = absurd (false_ne_true h)
not-is_empty (c ∷ s) h = λ e. absurd (cc)

SameName-text_eq :
    (s t : Text) → SameName s t → text_eq (normalize_name s) (normalize_name t) ≡ true
SameName-text_eq s t h =
    (text_eq_iff (normalize_name s) (normalize_name t)).1 ((normalize_name_iff s t).1 h)

text_eq-SameName :
    (s t : Text) → text_eq (normalize_name s) (normalize_name t) ≡ true → SameName s t
text_eq-SameName s t e =
    (normalize_name_iff s t).0 ((text_eq_iff (normalize_name s) (normalize_name t)).0 e)

-- The test that `find_tx_account` makes of a name.
abbrev account_test : ResolvedAccount → TxReportAccount → Bool
account_test account t =
    not (is_empty t.name) && text_eq (normalize_name t.name) (normalize_name account.name)

account_test-passes :
    (account : ResolvedAccount) (t : TxReportAccount)
    → NamesAccount account t
    → account_test account t ≡ true
account_test-passes account t h =
    rw (is_empty-false t.name h.named, SameName-text_eq t.name account.name h.same_name) refl

account_test-tells :
    (account : ResolvedAccount) (t : TxReportAccount)
    → account_test account t ≡ true
    → NamesAccount account t
account_test-tells account t h = record {
  named = not-is_empty t.name (and_left (not (is_empty t.name)) _ h);
  same_name = text_eq-SameName t.name account.name (and_right (not (is_empty t.name)) _ h);
}

pub find_tx_account-StandsFor :
    (tx_ix : TxReportInstruction) (account : ResolvedAccount) (t : TxReportAccount)
    → StandsFor account tx_ix.accounts t
    → find_tx_account tx_ix account ≡ some t
unfolding find_tx_account
find_tx_account-StandsFor tx_ix account t (by_name f) =
    rw
      (find-IsFirst (NamesAccount account) (account_test account) (account_test-passes account)
        (account_test-tells account) f)
      refl
find_tx_account-StandsFor tx_ix account t (by_position before after none_named e l) =
    rw
      (
        find-none (NamesAccount account) (account_test account) (account_test-passes account)
            (account_test-tells account) tx_ix.accounts none_named,
        e,
        ← l,
      )
      (get_elem?-append before t after)

pub find_native-IsFirst :
    (program : NativeProgram) (tx_ix : TxReportInstruction) (ix : NativeInstruction)
    → ¬ SameName tx_ix.name []
    → IsFirst (NamesInstruction tx_ix) ix program.instructions
    → find_native program tx_ix ≡ some ix
unfolding find_native
find_native-IsFirst program tx_ix ix n f =
    rw (is_empty-false (normalize_name tx_ix.name) (normalize_name-ne-nil tx_ix.name n)) (
      find-IsFirst (NamesInstruction tx_ix)
        (λ ix. text_eq (normalize_name ix.name) (normalize_name tx_ix.name))
        (λ ix. SameName-text_eq ix.name tx_ix.name) (λ ix. text_eq-SameName ix.name tx_ix.name) f)

pub is_signer_expected-MustSign :
    (account : ResolvedAccount) → MustSign account → is_signer_expected account ≡ true
unfolding is_signer_expected is_signer_kind
is_signer_expected-MustSign account (checked e) = rw (e) refl
is_signer_expected-MustSign account (typed e) =
    rw (e) (or_right account.is_signer_checked true refl)
