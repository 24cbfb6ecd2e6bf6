-- ===== src/Sat/Locations.antt =====
-- Instances of the theorems on crates/sat: seeds, events, locations, and the native back end.
use mathlib.Core.Logic.{◌↔◌}
use solana_audit_toolkit.Prelude.{
  Text, text_eq, text_cmp, sort_by, codes, ℕ, zero, suc, ◌-◌, ◌≡◌, refl, true, false, Option, none,
  some, List, [], ◌∷◌, ◌++◌, map, retain, length, all, arith,
}
use solana_audit_toolkit.Sat.Idl.{IdlAccountItem}
use solana_audit_toolkit.Sat.TxReport.Types.{AccountsStruct, AccountField}
use solana_audit_toolkit.Sat.Pda.{NormalizedSeed, SeedValue, is_verifiable}
use solana_audit_toolkit.Sat.Pda.Check.{compare_parsed}
use solana_audit_toolkit.Sat.Pda.Agree.{compare_parsed_iff}
use solana_audit_toolkit.Sat.Accounting.{Event, analyze_events}
use solana_audit_toolkit.Sat.Accounting.Uses.{is_not_use, analyze_events-retain}
use solana_audit_toolkit.Sat.Sarif.{encode_uri, parse_u32, is_boundary, location_to_uri_and_line}
use solana_audit_toolkit.Sat.Sarif.Uris.{decode_uri, decode_uri-encode_uri}
use solana_audit_toolkit.Sat.Sarif.Lines.{location_to_uri_and_line_lem}
use solana_audit_toolkit.Sat.Native.Model.{AccountKind, ResolvedAccount, NativeInstruction}
use solana_audit_toolkit.Sat.Native.Callees.{handler_blocks}
use solana_audit_toolkit.Sat.Native.Resolver.{ResolutionState, new_state, bind, finish_accounts}
use solana_audit_toolkit.Sat.Native.Resolver.Positions.{
  Reaches, positions, finish_accounts-positions,
}
use solana_audit_toolkit.Sat.Native.Validate.{
  anchor, account_field, Comparison, comparison, halves, has, reachable_canonical,
}
use solana_audit_toolkit.Sat.Native.Validate.Pinned.{Traced, reachable_canonical-Traced}

abbrev vault_item : IdlAccountItem
vault_item = record {
  name = codes "vault";
  is_mut = true;
  is_signer = false;
  pda = none;
  desc = none;
}

abbrev vault_field : AccountField
vault_field = record {
  name = codes "vault";
  ty_name = codes "Account";
  line = 7;
  has_signer = false;
  has_mut = true;
  has_init = false;
  has_owner = false;
  has_seeds = true;
  has_close = false;
  has_one_values = [];
  owner_value = none;
  is_account_info = false;
  is_unchecked_account = false;
  is_signer_type = false;
  has_check_comment = false;
}

abbrev vault_accounts : AccountsStruct
vault_accounts = record {
  name = codes "Withdraw";
  file = codes "src/lib.rs";
  line = 3;
  fields = vault_field ∷ [];
}

abbrev idl_seeds : List NormalizedSeed
idl_seeds =
    NormalizedSeed.verifiable (SeedValue.bytes (codes "vault"))
    ∷ NormalizedSeed.verifiable (SeedValue.named (codes "owner"))
    ∷ []

abbrev code_seeds : List NormalizedSeed
code_seeds =
    NormalizedSeed.verifiable (SeedValue.named (codes "owner"))
    ∷ NormalizedSeed.verifiable (SeedValue.bytes (codes "vault"))
    ∷ []

idl_seeds_verifiable : all is_verifiable idl_seeds ≡ true
unfolding is_verifiable
idl_seeds_verifiable = refl

code_seeds_verifiable : all is_verifiable code_seeds ≡ true
unfolding is_verifiable
code_seeds_verifiable = refl

compare_parsed_iff_example :
    (compare_parsed
        (λ b. b)
        (codes "withdraw")
        vault_item
        vault_accounts
        vault_field
        idl_seeds
        code_seeds
      ≡ [])
    ↔ (idl_seeds ≡ code_seeds)
compare_parsed_iff_example =
    compare_parsed_iff (λ b. b) (codes "withdraw") vault_item vault_accounts vault_field idl_seeds
      code_seeds idl_seeds_verifiable code_seeds_verifiable

abbrev stake_ix : NativeInstruction
stake_ix = record {
  name = codes "stake";
  discriminator = none;
  handler = codes "stake";
  file = codes "src/lib.rs";
  line = 20;
  accounts = [];
}

-- A read before a transfer that is not repeated after it, with a use in between.
abbrev stake_events : List Event
stake_events =
    Event.balance_read (codes "before") (codes "vault")
    ∷ Event.use_of
    ∷ Event.token_cpi (codes "vault" ∷ []) (codes "amount" ∷ [])
    ∷ Event.ledger_write (codes "amount")
    ∷ []

analyze_events-retain_example :
    analyze_events stake_ix (retain is_not_use stake_events) ≡ analyze_events stake_ix stake_events
analyze_events-retain_example = analyze_events-retain stake_ix stake_events

decode_uri-encode_uri_example : decode_uri (encode_uri (codes "a: b%")) ≡ codes "a: b%"
decode_uri-encode_uri_example =
    decode_uri-encode_uri (codes "a: b%")
      (omega arith, (omega arith, (omega arith, (omega arith, (omega arith, tt)))))

context_bounds : is_boundary (codes " (stake)") ≡ true
unfolding is_boundary
context_bounds = refl

location_to_uri_and_line_lem_example :
    location_to_uri_and_line
      (codes "C:/lib.rs" ++ (b':' ∷ ((b'1' ∷ codes "27") ++ codes " (stake)")))
    ≡ (encode_uri (codes "C:/lib.rs"), parse_u32 (b'1' ∷ codes "27"))
location_to_uri_and_line_lem_example =
    location_to_uri_and_line_lem (codes "C:/lib.rs") b'1' (codes "27") (codes " (stake)") refl
      context_bounds refl

-- Functions named by numbers: 0 calls 1 and 2, 1 calls 2, and 2 calls 3.
abbrev calls_in : ℕ → List Text
calls_in zero = codes "1" ∷ codes "2" ∷ []
calls_in (suc zero) = codes "2" ∷ []
calls_in (suc (suc zero)) = codes "3" ∷ []
calls_in (suc (suc (suc n))) = []

abbrev function_named : Text → Option (ℕ × ℕ)
function_named [] = none
function_named (c ∷ name) = some (c - 48, 0)

-- The helper that is called at the second level first is not entered again at the first: what it calls is not
-- collected.
second_level_missed :
    handler_blocks ℕ function_named calls_in (codes "0") 0 0 ≡ (0, 0) ∷ (1, 0) ∷ (2, 0) ∷ []
unfolding handler_blocks text_eq sort_by text_cmp
second_level_missed = refl

-- An account is bound, the next slice starts behind the third, and an account is bound there.
abbrev sliced : ResolutionState
sliced = record (bind (codes "owner") 0 (some AccountKind.signer) new_state) {
  next_index = 3;
  base = 3;
  slices = (codes "rest", 3) ∷ [];
  named = [];
}

finish_accounts-positions_example :
    map (λ (a : ResolvedAccount). a.index) (finish_accounts (bind (codes "vault") 3 none sliced))
    ≡ positions 0 (length (finish_accounts (bind (codes "vault") 3 none sliced)))
finish_accounts-positions_example = finish_accounts-positions (bind (codes "vault") 3 none sliced) (
    Reaches.after_bind (codes "vault") 3 none (
      Reaches.after_tracking 3 3 ((codes "rest", 3) ∷ []) []
        (Reaches.after_bind (codes "owner") 0 (some AccountKind.signer) Reaches.start)))

-- The first account's owner is compared with a constant, and the second's key with a field of the first.
abbrev pinned_comparisons : List Comparison
pinned_comparisons =
    comparison (account_field 0 (codes "owner")) anchor
    ∷ comparison (account_field 1 (codes "key")) (account_field 0 (codes "mint"))
    ∷ []

second_pinned : has (reachable_canonical pinned_comparisons []) 1 ≡ true
unfolding reachable_canonical comparison text_eq
second_pinned = refl

reachable_canonical-Traced_example : Traced (halves pinned_comparisons) [] 1
reachable_canonical-Traced_example =
    reachable_canonical-Traced pinned_comparisons [] 1 second_pinned
