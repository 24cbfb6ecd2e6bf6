-- ===== src/Sat/Native/Model.antt =====
-- crates/sat/src/native/model.rs: programs, instructions and resolved accounts.
use solana_audit_toolkit.Prelude.{Text, ℕ, Bool, true, false, ◌||◌, Option, List}

pub data AccountKind : Type 0 where
  unchecked signer state token_account mint program sysvar system_program : AccountKind

pub record ResolvedAccount : Type 0 where
  pub name : Text
  pub index : ℕ
  pub kind : AccountKind
  pub is_signer_checked : Bool
  pub owner_checked : Bool
  pub key_checked : Bool
  pub written : Bool
  pub seeds : List Text
  pub is_pda : Bool

pub record NativeInstruction : Type 0 where
  pub name : Text
  pub discriminator : Option (List ℕ)
  pub handler : Text
  pub file : Text
  pub line : ℕ
  pub accounts : List ResolvedAccount

pub record NativeProgram : Type 0 where
  pub program_id : Option Text
  pub entrypoint_file : Text
  pub entrypoint_line : ℕ
  pub instructions : List NativeInstruction

-- `self.kind == AccountKind::Signer`
unfoldable pub is_signer_kind : AccountKind → Bool
is_signer_kind signer = true
is_signer_kind _ = false

-- `self.kind == AccountKind::Unchecked`
unfoldable pub is_unchecked : AccountKind → Bool
is_unchecked unchecked = true
is_unchecked _ = false

unfoldable pub is_signer_expected : ResolvedAccount → Bool
unfolding is_signer_kind
is_signer_expected a = a.is_signer_checked || is_signer_kind a.kind
