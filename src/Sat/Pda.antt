-- ===== src/Sat/Pda.antt =====
-- crates/sat/src/pda.rs: the seeds of an IDL against the seeds of the account structs. Reading seeds and
-- handlers off syntax trees is not modelled: their tables are parameters, as is `from_utf8_lossy`.
pub mod Check
pub mod Agree
pub mod Choose
use mathlib.Core.List.{flatten}
use solana_audit_toolkit.Prelude.{
  Text, codes, text_eq, decimal, ℕ, ◌==◌, Bool, true, false, ◌&&◌, Option, none, some, List, [],
  ◌∷◌, ◌++◌, if◌then◌else◌,
}
use solana_audit_toolkit.Sat.Types.{Finding, Severity}
use solana_audit_toolkit.Sat.Idl.{IdlSeed, IdlAccountItem}
use solana_audit_toolkit.Sat.TxReport.Types.{AccountField, AccountsStruct}

pub data SeedValue : Type 0 where
  bytes : List ℕ → SeedValue
  named : Text → SeedValue

-- The derived equality.
unfoldable pub seed_value_eq : SeedValue → SeedValue → Bool
seed_value_eq (SeedValue.bytes a) (SeedValue.bytes b) = text_eq a b
seed_value_eq (SeedValue.named a) (SeedValue.named b) = text_eq a b
seed_value_eq _ _ = false

pub data NormalizedSeed : Type 0 where
  verifiable : SeedValue → NormalizedSeed
  unverifiable : NormalizedSeed

pub data SeedsInfo : Type 0 where
  missing : SeedsInfo
  parsed : List NormalizedSeed → SeedsInfo
  unverifiable : SeedsInfo

pub record CodeSeedInfo : Type 0 where
  pub seeds : SeedsInfo
  pub has_bump : Bool

abbrev suggestion_text : Text
suggestion_text =
    codes
      "Align the `#[account(seeds = ...)]` constraint with the IDL-declared seeds, or keep the IDL as the single source of truth so Anchor generates an identical derivation."

unfoldable pub is_verifiable : NormalizedSeed → Bool
is_verifiable (NormalizedSeed.verifiable v) = true
is_verifiable NormalizedSeed.unverifiable = false

-- `Some` of a constructor of `SeedValue`, else unverifiable.
unfoldable pub verified : {A : Type 0} → (A → SeedValue) → Option A → NormalizedSeed
verified f none = NormalizedSeed.unverifiable
verified f (some a) = NormalizedSeed.verifiable (f a)

unfoldable pub normalize_idl_seed : IdlSeed → NormalizedSeed
unfolding verified
normalize_idl_seed seed =
    if text_eq seed.kind (codes "const")
    then verified SeedValue.bytes seed.value
    else if text_eq seed.kind (codes "account")
    then verified SeedValue.named seed.account
    else NormalizedSeed.unverifiable

unfoldable pub plural_seeds : ℕ → Text
plural_seeds n = if n == 1 then codes "seed" else codes "seeds"

unfoldable pub location_for : AccountsStruct → AccountField → Text → Text → Text
location_for accts field ix acct = flatten (
    accts.file
    ∷ codes ":"
    ∷ decimal field.line
    ∷ codes " ("
    ∷ ix
    ∷ codes ", "
    ∷ acct
    ∷ codes ")"
    ∷ [])

unfoldable pub find_missing_seeds :
    Text → IdlAccountItem → AccountsStruct → AccountField → ℕ → Finding
unfolding location_for plural_seeds
find_missing_seeds ix acct accts field n = record {
  id = [];
  title = flatten (
      codes "PDA Seed Mismatch: `"
      ∷ ix
      ∷ codes "` derives `"
      ∷ acct.name
      ∷ codes "` from seeds per IDL but `"
      ∷ accts.name
      ∷ codes "::"
      ∷ field.name
      ∷ codes "` has no `seeds` constraint"
      ∷ []);
  severity = Severity.high;
  description = flatten (
      codes "The IDL declares `"
      ∷ acct.name
      ∷ codes "` in `"
      ∷ ix
      ∷ codes "` as a PDA derived from "
      ∷ decimal n
      ∷ codes " "
      ∷ plural_seeds n
      ∷ codes ", but `"
      ∷ accts.name
      ∷ codes "::"
      ∷ field.name
      ∷ codes
          "` has no `seeds` constraint. Deriving with a different seed set (or none) yields a different address than the program expects; an attacker could supply their own account at that different address, bypassing PDA checks."
      ∷ []);
  location = some (location_for accts field ix acct.name);
  suggestion = some suggestion_text;
}

unfoldable pub find_count_mismatch :
    Text → IdlAccountItem → AccountsStruct → AccountField → ℕ → ℕ → Finding
unfolding location_for plural_seeds
find_count_mismatch ix acct accts field n m = record {
  id = [];
  title = flatten (
      codes "PDA Seed Mismatch: `"
      ∷ ix
      ∷ codes "` declares "
      ∷ decimal n
      ∷ codes " "
      ∷ plural_seeds n
      ∷ codes " for `"
      ∷ acct.name
      ∷ codes "` but `"
      ∷ accts.name
      ∷ codes "::"
      ∷ field.name
      ∷ codes "` declares "
      ∷ decimal m
      ∷ codes " "
      ∷ plural_seeds m
      ∷ []);
  severity = Severity.high;
  description = flatten (
      codes "`"
      ∷ ix
      ∷ codes "` declares "
      ∷ decimal n
      ∷ codes " "
      ∷ plural_seeds n
      ∷ codes " for `"
      ∷ acct.name
      ∷ codes "` in the IDL, but `"
      ∷ accts.name
      ∷ codes "::"
      ∷ field.name
      ∷ codes "` declares "
      ∷ decimal m
      ∷ codes " "
      ∷ plural_seeds m
      ∷ codes
          ". A mismatch in the number of seeds changes the derived address; an attacker could supply their own account at that different address, bypassing PDA checks."
      ∷ []);
  location = some (location_for accts field ix acct.name);
  suggestion = some suggestion_text;
}

module _ (from_utf8_lossy : List ℕ → Text) where
  unfoldable pub seed_form : NormalizedSeed → Text
  seed_form (NormalizedSeed.verifiable (SeedValue.bytes b)) =
      codes "b\"" ++ (from_utf8_lossy b ++ codes "\"")
  seed_form (NormalizedSeed.verifiable (SeedValue.named name)) = name
  seed_form NormalizedSeed.unverifiable = codes "?"

  unfoldable pub find_seed_diff :
      Text
      → IdlAccountItem
      → AccountsStruct
      → AccountField
      → ℕ
      → NormalizedSeed
      → NormalizedSeed
      → Finding
  unfolding location_for seed_form
  find_seed_diff ix acct accts field index idl_seed code_seed = record {
    id = [];
    title = flatten (
        codes "PDA Seed Mismatch: seed "
        ∷ decimal index
        ∷ codes " of `"
        ∷ acct.name
        ∷ codes "` in `"
        ∷ ix
        ∷ codes "` differs between IDL ("
        ∷ seed_form idl_seed
        ∷ codes ") and code ("
        ∷ seed_form code_seed
        ∷ codes ")"
        ∷ []);
    severity = Severity.medium;
    description = flatten (
        codes "The seed at index "
        ∷ decimal index
        ∷ codes " of `"
        ∷ acct.name
        ∷ codes "` in `"
        ∷ ix
        ∷ codes "` differs between the IDL ("
        ∷ seed_form idl_seed
        ∷ codes ") and the code ("
        ∷ seed_form code_seed
        ∷ codes
            "). Deriving the PDA with the wrong seed yields a different address than the program expects; an attacker could supply their own account at that different address, bypassing PDA checks."
        ∷ []);
    location = some (location_for accts field ix acct.name);
    suggestion = some suggestion_text;
  }
