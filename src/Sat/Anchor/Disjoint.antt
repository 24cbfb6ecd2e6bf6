-- ===== src/Sat/Anchor/Disjoint.antt =====
-- crates/sat/src/analyzer.rs: how the checks of account structs relate.
use solana_audit_toolkit.Prelude.{
  codes, text_eq, to_lowercase, ◌≡◌, ◌≢◌, refl, Bool, true, false, not, ◌&&◌, ◌||◌, none,
  Bool-cases, inl, inr, arith,
}
use solana_audit_toolkit.Sat.TxReport.Types.{AccountField, AccountsStruct}
use solana_audit_toolkit.Sat.Anchor.{field_inner_account_type}
use solana_audit_toolkit.Sat.Anchor.Signer.{looks_like_authority, missing_signer}
use solana_audit_toolkit.Sat.Anchor.HasOne.{is_authority_signer}
use solana_audit_toolkit.Sat.Anchor.Reinit.{is_reinit_sensitive_field, names_storage}

signed : (l s t d : Bool) → (t || s) ≡ true → (l && (not s && (not t && not d))) ≡ false
signed l s t d e = ground arith

-- A field that the signer check reports is none of the signers that the `has_one` check reports.
pub missing_signer-has_one :
    (accts : AccountsStruct) (field : AccountField)
    → missing_signer accts field ≢ none
    → is_authority_signer field ≡ false
unfolding missing_signer is_authority_signer
missing_signer-has_one accts field h =
    elim (Bool-cases (field.is_signer_type || field.has_signer)) [
      | inl e ↦ absurd (
          h (
            rw
              (
                missing_signer,
                signed (looks_like_authority field) field.has_signer field.is_signer_type
                    field.has_seeds e,
              )
              refl))
      | inr e ↦ rw (is_authority_signer, e) refl
    ]

or_false : (b : Bool) → (b || false) ≡ b
or_false b = ground arith

-- A field of the type `Box<Account<'info, TokenAccount>>`, as the types are written out, is taken to be
-- sensitive by its name alone, though one of the type `Account<'info, TokenAccount>` never is, for fields
-- that are neither an `AccountInfo` nor an `UncheckedAccount`: the inner type keeps the `>` of the box, and
-- is not found among the excluded ones.
pub boxed_token_account :
    (f : AccountField)
    → f.is_account_info ≡ false
    → f.is_unchecked_account ≡ false
    → (is_reinit_sensitive_field (record f { ty_name = codes "Account<info, TokenAccount>" })
        ≡ false)
      × (is_reinit_sensitive_field (record f { ty_name = codes "Box<Account<info, TokenAccount>>" })
          ≡ names_storage (to_lowercase f.name))
unfolding is_reinit_sensitive_field field_inner_account_type text_eq
boxed_token_account f a u = (
  rw (is_reinit_sensitive_field, a, u) refl,
  rw (is_reinit_sensitive_field, a, u) (or_false (names_storage (to_lowercase f.name))),
)
