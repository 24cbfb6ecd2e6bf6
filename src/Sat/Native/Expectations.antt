-- ===== src/Sat/Native/Expectations.antt =====
-- crates/sat/src/native/expectations.rs: the expectations document of a native program. Its program
-- name is read off a path by the standard library, and is a parameter; the JSON is serde's.
pub mod Seeds
use solana_audit_toolkit.Prelude.{
  Text, codes, ℕ, zero, suc, Bool, not, ◌||◌, ◌&&◌, Option, none, some, List, [], ◌∷◌, map, all,
  is_empty, is_digit, trim, strip_prefix, strip_suffix, if◌then◌else◌,
}
use mathlib.Core.Option
use solana_audit_toolkit.Sat.Native.Model.{
  ResolvedAccount, NativeInstruction, NativeProgram, is_signer_expected,
}
use solana_audit_toolkit.Sat.Native.Source.{hex_bytes}

pub record ExpectationPda : Type 0 where
  pub seeds : List Text
  pub dynamic_seed_count : ℕ

pub record ExpectationAccount : Type 0 where
  pub name : Text
  pub index : ℕ
  pub is_signer_expected : Bool
  pub is_writable_expected : Bool
  pub pda : Option ExpectationPda

pub record ExpectationInstruction : Type 0 where
  pub name : Text
  pub discriminator_hex : Option Text
  pub handler : Text
  pub accounts : List ExpectationAccount

pub record ExpectationsDoc : Type 0 where
  pub program_name : Text
  pub program_id : Option Text
  pub source : Text
  pub instructions : List ExpectationInstruction

-- The last test of `literal_seed_value`.
unfoldable pub number_seed : Text → Option Text
number_seed text = if all is_digit text && not (is_empty text) then some text else none

unfoldable pub literal_seed_value : Text → Option Text
unfolding number_seed
literal_seed_value seed =
    let text = trim seed in
    elim (strip_prefix text (98 ∷ 34 ∷ [])) [
      | some inner ↦ strip_suffix inner (34 ∷ [])
      | none ↦ elim (strip_prefix text (34 ∷ [])) [
        | some inner ↦ strip_suffix inner (34 ∷ [])
        | none ↦ number_seed text
      ]
    ]

-- The loop over the seeds: the static ones and the number of the others.
unfoldable pub split_seeds : List Text → List Text × ℕ
unfolding literal_seed_value
split_seeds [] = ([], 0)
split_seeds (seed ∷ seeds) =
    let (static_seeds, dynamic) = split_seeds seeds in
    elim (literal_seed_value seed) [
      | some v ↦ (v ∷ static_seeds, dynamic)
      | none ↦ (static_seeds, suc dynamic)
    ]

unfoldable pub render_account : ResolvedAccount → ExpectationAccount
unfolding split_seeds
render_account account =
    let (seeds, dynamic) = split_seeds account.seeds in
    record {
      name = account.name;
      index = account.index;
      is_signer_expected = is_signer_expected account;
      is_writable_expected = account.written;
      pda =
          if account.is_pda || not (is_empty account.seeds)
          then some (record { seeds = seeds; dynamic_seed_count = dynamic })
          else none;
    }

unfoldable pub render_instruction : NativeInstruction → ExpectationInstruction
unfolding render_account
render_instruction ix = record {
  name = ix.name;
  discriminator_hex = Option.map hex_bytes ix.discriminator;
  handler = ix.handler;
  accounts = map render_account ix.accounts;
}

module _ (program_name : NativeProgram → Text) where
  unfoldable pub build : NativeProgram → ExpectationsDoc
  unfolding render_instruction
  build program = record {
    program_name = program_name program;
    program_id = program.program_id;
    source = codes "native";
    instructions = map render_instruction program.instructions;
  }
