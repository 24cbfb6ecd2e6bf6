-- ===== src/Sat/Anchor/Amended.antt =====
-- crates/sat/src/analyzer.rs: what following the suggestions of the signer and owner checks does.
use solana_audit_toolkit.Prelude.{
  ◌≡◌, refl, ap, ◌∙◌, Bool, true, false, not, ◌&&◌, ◌||◌, Option, none, some, List, [], ◌∷◌, ◌++◌,
  map, is_empty, to_lowercase, if◌then◌else◌, Bool-cases, inl, inr, arith,
}
use solana_audit_toolkit.Sat.Types.{Finding}
use solana_audit_toolkit.Sat.TxReport.Types.{AccountField, AccountsStruct}
use solana_audit_toolkit.Sat.Anchor.{push_some, each_field, each_struct}
use solana_audit_toolkit.Sat.Anchor.Signer.{
  looks_like_authority, missing_signer, check_missing_signer,
}
use solana_audit_toolkit.Sat.Idl.{IdlInstruction}
use solana_audit_toolkit.Sat.Anchor.Mut.{
  WritableMap, add_instructions, writing_instructions, missing_mut, check_missing_mut,
}
use solana_audit_toolkit.Sat.Anchor.Owner.{missing_owner, check_missing_owner}

-- A struct with some fields changed.
abbrev pub amend :
    (AccountField → Bool) → (AccountField → AccountField) → AccountsStruct → AccountsStruct
amend chosen fix accts = record accts {
  fields = map (λ f. if chosen f then fix f else f) accts.fields;
}

-- What the loop pushes for the fields that are not chosen.
abbrev pub unless :
    (AccountField → Bool)
    → (AccountsStruct → AccountField → Option Finding)
    → AccountsStruct
    → AccountField
    → Option Finding
unless chosen body accts f = if chosen f then none else body accts f

abbrev pub mark_signer : AccountField → AccountField
mark_signer f = record f { has_signer = true }

abbrev pub restrict_owner : AccountField → AccountField
restrict_owner f = record f { has_owner = true }

abbrev pub mark_mut : AccountField → AccountField
mark_mut f = record f { has_mut = true }

module _ (body : AccountsStruct → AccountField → Option Finding) (chosen : AccountField → Bool)
    (fix : AccountField → AccountField)
    (cleared : (a : AccountsStruct) (f : AccountField) → body a (fix f) ≡ none)
    (same : (a : AccountsStruct) (fields : List AccountField) (f : AccountField)
      → body (record a { fields = fields }) f ≡ body a f) where
  amended_body :
      (a : AccountsStruct) (fields : List AccountField) (f : AccountField)
      → body (record a { fields = fields }) (if chosen f then fix f else f) ≡ unless chosen body a f
  amended_body a fields f = elim (Bool-cases (chosen f)) [
    | inl e ↦ rw e (cleared (record a { fields = fields }) f)
    | inr e ↦ rw e (same a fields f)
  ]

  amended_fields :
      (a : AccountsStruct) (fields fs : List AccountField)
      → each_field body (record a { fields = fields }) (map (λ f. if chosen f then fix f else f) fs)
        ≡ each_field (unless chosen body) a fs
  amended_fields a fields [] = refl
  amended_fields a fields (f ∷ fs) =
      ap
        (λ o. push_some o (
          each_field body (record a { fields = fields })
            (map (λ g. if chosen g then fix g else g) fs)))
        (amended_body a fields f)
      ∙ ap (push_some (unless chosen body a f)) (amended_fields a fields fs)

  amended_structs :
      (accounts : List AccountsStruct)
      → each_struct body (map (amend chosen fix) accounts)
        ≡ each_struct (unless chosen body) accounts
  amended_structs [] = refl
  amended_structs (a ∷ rest) =
      ap (λ fs. fs ++ each_struct body (map (amend chosen fix) rest))
        (amended_fields a (map (λ f. if chosen f then fix f else f) a.fields) a.fields)
      ∙ ap (λ fs. each_field (unless chosen body) a a.fields ++ fs) (amended_structs rest)

no_signer : (l t d : Bool) → (l && (false && (t && d))) ≡ false
no_signer l t d = ground arith

-- The guards of `missing_owner` once the owner is set.
guarded : Bool → Bool → Bool → Option Finding
guarded a i m = if a then none else if i then none else if m then none else none

guarded_lem : (a i m : Bool) → guarded a i m ≡ none
unfolding guarded
guarded_lem true i m = refl
guarded_lem false true m = refl
guarded_lem false false true = refl
guarded_lem false false false = refl

no_mut : (w i : Bool) → (w && (false && i)) ≡ false
no_mut w i = ground arith

-- Following the suggestions takes away their findings and no other: with some fields marked as signers the
-- signer check reports the other fields as before, with some given an owner the owner check does, and with
-- some marked as mutable the check against the instructions of an IDL, in the order visited, does.
pub suggestions_clear :
    (chosen : AccountField → Bool) (accounts : List AccountsStruct)
    (order : WritableMap → WritableMap) (instructions : List IdlInstruction)
    → (check_missing_signer (map (amend chosen mark_signer) accounts)
        ≡ each_struct (unless chosen missing_signer) accounts)
      × (check_missing_owner (map (amend chosen restrict_owner) accounts)
          ≡ each_struct (unless chosen missing_owner) accounts)
      × (check_missing_mut order (map (amend chosen mark_mut) accounts) (some instructions)
          ≡ each_struct
              (unless chosen (missing_mut (order (add_instructions instructions []))))
              accounts)
unfolding check_missing_signer check_missing_owner check_missing_mut missing_signer missing_owner
    missing_mut guarded
suggestions_clear chosen accounts order instructions = (
  amended_structs missing_signer chosen mark_signer
      (λ a f. rw (no_signer (looks_like_authority f) (not f.is_signer_type) (not f.has_seeds)) refl)
      (λ a fields f. refl) accounts,
  amended_structs missing_owner chosen restrict_owner
      (λ a f.
        guarded_lem (not f.is_account_info && not f.is_unchecked_account)
          (f.has_init || (f.has_signer || f.has_seeds)) (not f.has_mut))
      (λ a fields f. refl) accounts,
  amended_structs (missing_mut (order (add_instructions instructions []))) chosen mark_mut
      (λ a f.
        rw
          (no_mut
            (not (
              is_empty (
                writing_instructions (order (add_instructions instructions []))
                  (to_lowercase f.name))))
            (not f.has_init))
          refl)
      (λ a fields f. refl) accounts,
)
