-- ===== src/Sat/Native/Kinds.antt =====
-- crates/sat/src/native/frontend.rs: the kinds that names and types suggest, and the names of guards.
use solana_audit_toolkit.Prelude.{
  Text, codes, text_eq, contains, starts_with, ends_with, Bool, ◌||◌, [], ◌∷◌, any, if◌then◌else◌,
}
use solana_audit_toolkit.Sat.Native.Model.{
  AccountKind, unchecked, signer, state, token_account, mint, program, sysvar, system_program,
}

-- On the source text `s` of the type.
unfoldable pub kind_from_type : Text → AccountKind
kind_from_type s =
    if contains s (codes "Signer")
    then signer
    else if contains s (codes "UncheckedAccount")
    then unchecked
    else if contains s (codes "Sysvar")
    then sysvar
    else if contains s (codes "TokenAccount")
    then token_account
    else if contains s (codes "Mint")
    then mint
    else if contains s (codes "System")
    then system_program
    else if contains s (codes "Program")
    then program
    else if contains s (codes "Account<")
    then state
    else unchecked

unfoldable pub kind_from_name : Text → AccountKind
kind_from_name name =
    if text_eq name (codes "system_program")
    then system_program
    else if contains name (codes "sysvar")
        || any (text_eq name) (
            codes "clock"
            ∷ codes "rent"
            ∷ codes "slot_hashes"
            ∷ codes "epoch_schedule"
            ∷ codes "recent_blockhashes"
            ∷ [])
    then sysvar
    else if contains name (codes "token_program")
    then program
    else if contains name (codes "mint")
    then mint
    else if contains name (codes "token")
    then token_account
    else if ends_with name (codes "_program") || ends_with name (codes "_program_id")
    then program
    else unchecked

unfoldable pub is_owner_check_call : Text → Bool
is_owner_check_call name =
    any (starts_with name) (
      codes "check_owner"
      ∷ codes "assert_owner"
      ∷ codes "require_owner"
      ∷ codes "verify_owner"
      ∷ [])

unfoldable pub is_guard_macro : Text → Bool
is_guard_macro name = any (text_eq name) (
    codes "require"
    ∷ codes "require_keys_eq"
    ∷ codes "require_keys_neq"
    ∷ codes "require_eq"
    ∷ codes "assert"
    ∷ codes "assert_eq"
    ∷ codes "invariant"
    ∷ codes "debug_assert"
    ∷ codes "debug_assert_eq"
    ∷ codes "check"
    ∷ codes "check_eq"
    ∷ [])

unfoldable pub is_known_builtin : Text → Bool
is_known_builtin name = any (text_eq name) (
    codes "next_account_info"
    ∷ codes "find_program_address"
    ∷ codes "create_program_address"
    ∷ codes "invoke"
    ∷ codes "invoke_signed"
    ∷ codes "invoke_signed_unchecked"
    ∷ [])
