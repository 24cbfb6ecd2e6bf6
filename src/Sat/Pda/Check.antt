-- ===== src/Sat/Pda/Check.antt =====
-- crates/sat/src/pda.rs: the check of every account of every instruction of an IDL. `handled_by_file` is the
-- table of the handlers' structs by file, `seeds_by_struct` that of the seeds by file and struct, and then by
-- field.
use mathlib.Core.List.{flat_map}
use solana_audit_toolkit.Prelude.{
  Text, text_eq, to_lowercase, ends_with, ℕ, suc, ◌==◌, Bool, false, not, ◌||◌, Option, none, some,
  List, [], ◌∷◌, ◌++◌, map, any, all, find, retain, length, is_empty, if◌then◌else◌,
}
use solana_audit_toolkit.Sat.Types.{Finding}
use solana_audit_toolkit.Sat.Idl.{IdlSeed, IdlPda, IdlAccountItem, IdlInstruction}
use solana_audit_toolkit.Sat.TxReport.Types.{AccountField, AccountsStruct}
use solana_audit_toolkit.Sat.Pda.{
  seed_value_eq, NormalizedSeed, SeedsInfo, CodeSeedInfo, is_verifiable, normalize_idl_seed,
  find_missing_seeds, find_count_mismatch, find_seed_diff,
}

-- The filter of the candidates.
unfoldable pub is_candidate : Text → AccountsStruct → Bool
is_candidate ix_lower accts =
    let struct_lower = to_lowercase accts.name in
    text_eq struct_lower ix_lower
    || (ends_with ix_lower struct_lower || ends_with struct_lower ix_lower)

unfoldable pub is_exact : Text → AccountsStruct → Bool
is_exact ix_lower accts = text_eq (to_lowercase accts.name) ix_lower

-- The better candidates, or all of them when none is better.
abbrev pub prefer : List AccountsStruct → List AccountsStruct → List AccountsStruct
prefer [] all_of = all_of
prefer (b ∷ better) all_of = b ∷ better

-- The only candidate left.
unfoldable pub only_one : List AccountsStruct → Option AccountsStruct
only_one [] = none
only_one (a ∷ []) = some a
only_one (a ∷ b ∷ others) = none

-- `seeds_by_struct.get(..)` and `fields.get(..)`, with `Unverifiable` for what is not there.
unfoldable pub seeds_info : Option (Text → Option CodeSeedInfo) → Text → SeedsInfo
seeds_info none field = SeedsInfo.unverifiable
seeds_info (some fields) field = elim (fields field) [
  | none ↦ SeedsInfo.unverifiable
  | some info ↦ info.seeds
]

-- Both seeds are verifiable, and they differ.
unfoldable pub differ : NormalizedSeed → NormalizedSeed → Bool
unfolding seed_value_eq
differ (NormalizedSeed.verifiable v) (NormalizedSeed.verifiable w) = not (seed_value_eq v w)
differ _ _ = false

module _ (handled_by_file : Text → Option (List Text)) where
  unfoldable pub is_handled : AccountsStruct → Bool
  is_handled accts = elim (handled_by_file accts.file) [
    | none ↦ false
    | some names ↦ any (text_eq (to_lowercase accts.name)) names
  ]

  -- The struct that an instruction is compared with.
  unfoldable pub choose : List AccountsStruct → Text → Option AccountsStruct
  unfolding is_handled is_candidate is_exact only_one
  choose accounts ix_lower =
      let candidates = retain (is_candidate ix_lower) accounts in
      let preferred = prefer (retain (is_exact ix_lower) candidates) candidates in
      only_one (prefer (retain is_handled preferred) preferred)

module _ (from_utf8_lossy : List ℕ → Text) where
  -- The loop over the pairs of seeds.
  unfoldable pub seed_diffs :
      Text
      → IdlAccountItem
      → AccountsStruct
      → AccountField
      → ℕ
      → List NormalizedSeed
      → List NormalizedSeed
      → List Finding
  unfolding differ
  seed_diffs ix acct accts field index (i ∷ idl_seeds) (c ∷ code) =
      (if differ i c then find_seed_diff from_utf8_lossy ix acct accts field index i c ∷ [] else [])
      ++ seed_diffs ix acct accts field (suc index) idl_seeds code
  seed_diffs ix acct accts field index _ _ = []

  -- The arm of parsed seeds.
  unfoldable pub compare_parsed :
      Text
      → IdlAccountItem
      → AccountsStruct
      → AccountField
      → List NormalizedSeed
      → List NormalizedSeed
      → List Finding
  unfolding seed_diffs
  compare_parsed ix acct accts field idl_seeds code =
      if not (all is_verifiable code) || not (all is_verifiable idl_seeds)
      then []
      else if not (length code == length idl_seeds)
      then find_count_mismatch ix acct accts field (length idl_seeds) (length code) ∷ []
      else seed_diffs ix acct accts field 0 idl_seeds code

  -- The `match` on the seeds of the code.
  unfoldable pub compare_seeds :
      Text
      → IdlAccountItem
      → AccountsStruct
      → AccountField
      → List IdlSeed
      → SeedsInfo
      → List Finding
  unfolding compare_parsed
  compare_seeds ix acct accts field seeds SeedsInfo.missing =
      if any is_verifiable (map normalize_idl_seed seeds)
      then find_missing_seeds ix acct accts field (length seeds) ∷ []
      else []
  compare_seeds ix acct accts field seeds SeedsInfo.unverifiable = []
  compare_seeds ix acct accts field seeds (SeedsInfo.parsed code) =
      compare_parsed ix acct accts field (map normalize_idl_seed seeds) code

module _ (from_utf8_lossy : List ℕ → Text)
    (seeds_by_struct : Text → Text → Option (Text → Option CodeSeedInfo)) where
  -- An account whose PDA has seeds, once its field is found.
  unfoldable pub check_field : Text → AccountsStruct → IdlAccountItem → IdlPda → List Finding
  unfolding compare_seeds seeds_info
  check_field ix accts acct pda =
      if is_empty pda.seeds
      then []
      else elim (find (λ f. text_eq (to_lowercase f.name) (to_lowercase acct.name)) accts.fields) [
        | none ↦ []
        | some field ↦
            compare_seeds from_utf8_lossy ix acct accts field pda.seeds
              (seeds_info (seeds_by_struct accts.file accts.name) field.name)
      ]

  -- The body of the loop over the accounts.
  unfoldable pub check_item : Text → AccountsStruct → IdlAccountItem → List Finding
  unfolding check_field
  check_item ix accts acct = elim acct.pda [ none ↦ [] | some pda ↦ check_field ix accts acct pda ]

module _ (from_utf8_lossy : List ℕ → Text) (handled_by_file : Text → Option (List Text))
    (seeds_by_struct : Text → Text → Option (Text → Option CodeSeedInfo)) where
  -- The body of the loop over the instructions.
  unfoldable pub check_ix : List AccountsStruct → IdlInstruction → List Finding
  unfolding choose check_item
  check_ix accounts ix = elim (choose handled_by_file accounts (to_lowercase ix.name)) [
    | none ↦ []
    | some accts ↦ flat_map (check_item from_utf8_lossy seeds_by_struct ix.name accts) ix.accounts
  ]

  unfoldable pub check_pda_seed_mismatch :
      List AccountsStruct → Option (List IdlInstruction) → List Finding
  unfolding check_ix
  check_pda_seed_mismatch accounts none = []
  check_pda_seed_mismatch accounts (some instructions) = flat_map (check_ix accounts) instructions
