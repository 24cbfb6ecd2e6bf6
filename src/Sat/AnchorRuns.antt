-- ===== src/Sat/AnchorRuns.antt =====
-- Instances of the theorems on the account struct checks of crates/sat/src/analyzer.rs and on the states of
-- crates/sat/src/idl.rs, and runs of them.
use mathlib.Core.Logic.{◌↔◌}
use mathlib.Core.List.{flatten}
use solana_audit_toolkit.Prelude.{
  find, List, codes, text_eq, ◌≡◌, refl, true, false, none, some, [], ◌∷◌, map, length, any, All,
  sort_by, text_cmp, to_lowercase,
}
use solana_audit_toolkit.Sat.Types.{Severity, Finding}
use solana_audit_toolkit.Sat.Idl.{StateInfo}
use solana_audit_toolkit.Sat.Idl.States.{string, object, member, end, IdlTypeDef, identify_states}
use solana_audit_toolkit.Sat.Idl.Consistent.{IsConsistent, identify_states-IsConsistent}
use solana_audit_toolkit.Sat.TxReport.Types.{AccountField, AccountsStruct}
use solana_audit_toolkit.Sat.Anchor.{each_struct}
use solana_audit_toolkit.Sat.Anchor.Signer.{missing_signer, check_missing_signer}
use solana_audit_toolkit.Sat.Anchor.Owner.{missing_owner, check_missing_owner}
use solana_audit_toolkit.Sat.Anchor.Mut.{add_instructions, missing_mut, check_missing_mut}
use solana_audit_toolkit.Sat.Anchor.Reinit.{
  SourceInstruction, is_reinit_sensitive_field, names_storage,
}
use solana_audit_toolkit.Sat.Anchor.Collisions.{
  same_key, dedupe_findings, check_discriminator_collisions,
}
use solana_audit_toolkit.Sat.Anchor.Amended.{
  amend, unless, mark_signer, restrict_owner, mark_mut, suggestions_clear,
}
use solana_audit_toolkit.Sat.Anchor.Dedupe.{AllNew, dedupe_findings_lem}
use solana_audit_toolkit.Sat.Anchor.Distinct.{IsCollisionFree, check_discriminator_collisions_iff}
use solana_audit_toolkit.Sat.Anchor.Disjoint.{boxed_token_account}

abbrev vault_field : AccountField
vault_field = record {
  name = codes "vault";
  ty_name = codes "Box<Account<info, TokenAccount>>";
  line = 12;
  has_signer = false;
  has_mut = true;
  has_init = false;
  has_owner = false;
  has_seeds = false;
  has_close = false;
  has_one_values = [];
  owner_value = none;
  is_account_info = false;
  is_unchecked_account = false;
  is_signer_type = false;
  has_check_comment = false;
}

abbrev admin_field : AccountField
admin_field = record vault_field {
  name = codes "admin";
  ty_name = codes "AccountInfo";
  is_account_info = true;
}

abbrev withdraw : AccountsStruct
withdraw = record {
  name = codes "Withdraw";
  file = codes "lib.rs";
  line = 10;
  fields = vault_field ∷ admin_field ∷ [];
}

abbrev ping : SourceInstruction
ping = record { name = codes "ping"; program_name = codes "demo"; file = codes "lib.rs"; line = 3 }

abbrev pong : SourceInstruction
pong = record ping { name = codes "pong" }

-- The admin is reported by the signer and the owner checks.
two_findings :
    (length (check_missing_signer (withdraw ∷ [])) ≡ 1)
    × (length (check_missing_owner (withdraw ∷ [])) ≡ 1)
unfolding check_missing_signer check_missing_owner text_eq
two_findings = (refl, refl)

-- A digest that does not read its text makes `ping` and `pong` collide, once.
one_collision :
    length (check_discriminator_collisions (λ _. codes "12345678") (ping ∷ pong ∷ [])) ≡ 1
unfolding check_discriminator_collisions text_eq flatten sort_by text_cmp
one_collision = refl

suggestions_clear_example :
    (check_missing_signer (map (amend (λ f. f.is_account_info) mark_signer) (withdraw ∷ []))
      ≡ each_struct (unless (λ f. f.is_account_info) missing_signer) (withdraw ∷ []))
    × (check_missing_owner (map (amend (λ f. f.is_account_info) restrict_owner) (withdraw ∷ []))
        ≡ each_struct (unless (λ f. f.is_account_info) missing_owner) (withdraw ∷ []))
    × (check_missing_mut
          (λ m. m)
          (map (amend (λ f. f.is_account_info) mark_mut) (withdraw ∷ []))
          (some [])
        ≡ each_struct
            (unless (λ f. f.is_account_info) (missing_mut (add_instructions [] [])))
            (withdraw ∷ []))
suggestions_clear_example = suggestions_clear (λ f. f.is_account_info) (withdraw ∷ []) (λ m. m) []

-- One place is reported twice, with two severities.
abbrev reported_first : Finding
reported_first = record {
  id = [];
  title = codes "Missing Signer";
  severity = Severity.high;
  description = codes "authority";
  location = some (codes "lib.rs:12");
  suggestion = none;
}

abbrev reported_again : Finding
reported_again = record reported_first { severity = Severity.low }

abbrev twice : List Finding
twice = reported_first ∷ reported_again ∷ []

dedupe_findings_lem_example :
    (find (same_key reported_again) (dedupe_findings twice) ≡ find (same_key reported_again) twice)
    × AllNew [] (dedupe_findings twice)
    × All (λ g. any (same_key g) (dedupe_findings twice) ≡ true) twice
    × (dedupe_findings (dedupe_findings twice) ≡ dedupe_findings twice)
dedupe_findings_lem_example = dedupe_findings_lem twice reported_again

check_discriminator_collisions_iff_example :
    (check_discriminator_collisions (λ name. name) (ping ∷ pong ∷ []) ≡ [])
    ↔ IsCollisionFree (λ name. name) (ping ∷ pong ∷ [])
check_discriminator_collisions_iff_example =
    check_discriminator_collisions_iff (λ name. name) (ping ∷ pong ∷ [])

boxed_token_account_example :
    (is_reinit_sensitive_field
        (record vault_field { ty_name = codes "Account<info, TokenAccount>" })
      ≡ false)
    × (is_reinit_sensitive_field
          (record vault_field { ty_name = codes "Box<Account<info, TokenAccount>>" })
        ≡ names_storage (to_lowercase vault_field.name))
boxed_token_account_example = boxed_token_account vault_field refl refl

abbrev status_type : IdlTypeDef
status_type = record {
  name = codes "Status";
  ty = record { kind = codes "enum"; fields = []; variants = codes "Open" ∷ codes "Closed" ∷ [] };
}

abbrev loan_account : IdlTypeDef
loan_account = record {
  name = codes "Loan";
  ty = record {
    kind = codes "struct";
    fields =
        record { name = codes "bump"; ty = string (codes "u8") }
        ∷ record {
          name = codes "status";
          ty = object (member (codes "defined") (string (codes "Status")) end);
        }
        ∷ [];
    variants = [];
  };
}

two_variants :
    map
      (λ (s : StateInfo). length s.status_variants)
      (identify_states (status_type ∷ []) (loan_account ∷ []))
    ≡ 2 ∷ []
unfolding identify_states text_eq
two_variants = refl

identify_states-IsConsistent_example :
    All IsConsistent (identify_states (status_type ∷ []) (loan_account ∷ []))
identify_states-IsConsistent_example =
    identify_states-IsConsistent (status_type ∷ []) (loan_account ∷ [])
