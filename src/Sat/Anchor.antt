-- ===== src/Sat/Anchor.antt =====
-- crates/sat/src/analyzer.rs: the checks of Anchor account structs, as data read off the source. The paths
-- of files are texts as displayed.
pub mod Signer
pub mod Owner
pub mod Mut
pub mod HasOne
pub mod Reinit
pub mod Collisions
pub mod Disjoint
pub mod Amended
pub mod Dedupe
pub mod Distinct
use mathlib.Core.List.{flatten}
use solana_audit_toolkit.Prelude.{
  Text, codes, text_eq, decimal, ends_with, strip_prefix, strip_suffix, trim, rsplit_at, Bool,
  Option, none, some, List, [], ◌∷◌, ◌++◌, ◌||◌, any, is_empty, unwrap_or, if◌then◌else◌,
}
use solana_audit_toolkit.Sat.Types.{Finding}
use solana_audit_toolkit.Sat.Types.Review.{after_text}
use solana_audit_toolkit.Sat.TxReport.Types.{AccountField, AccountsStruct}

-- `findings.push` of what there is to push, in front of what follows.
abbrev pub push_some : Option Finding → List Finding → List Finding
push_some none rest = rest
push_some (some finding) rest = finding ∷ rest

-- What `body` pushes for the fields of a struct, in their order.
abbrev pub each_field :
    (AccountsStruct → AccountField → Option Finding)
    → AccountsStruct
    → List AccountField
    → List Finding
each_field body accts [] = []
each_field body accts (f ∷ fs) = push_some (body accts f) (each_field body accts fs)

-- The loops over the structs and their fields.
abbrev pub each_struct :
    (AccountsStruct → AccountField → Option Finding) → List AccountsStruct → List Finding
each_struct body [] = []
each_struct body (a ∷ rest) = each_field body a a.fields ++ each_struct body rest

unfoldable pub field_location : AccountsStruct → AccountField → Text
unfolding decimal
field_location accts field = flatten (
    accts.file
    ∷ codes ":"
    ∷ decimal field.line
    ∷ codes " ("
    ∷ accts.name
    ∷ codes "::"
    ∷ field.name
    ∷ codes ")"
    ∷ [])

-- The three suffixes of authority names.
unfoldable pub has_authority_suffix : Text → Bool
unfolding ends_with
has_authority_suffix name =
    ends_with name (codes "_authority")
    || (ends_with name (codes "_admin") || ends_with name (codes "_owner"))

abbrev pub among : List Text → Text → Bool
among names name = any (text_eq name) names

-- `split(',').next_back()`
unfoldable pub last_piece : Text → Text
unfolding rsplit_at
last_piece s = elim (rsplit_at b',' s) [ none ↦ s | some (before, after) ↦ after ]

-- Behind `Account<`, at the start or at its first occurrence; up to a `>` at the end.
unfoldable pub account_argument : Text → Option Text
unfolding strip_prefix strip_suffix after_text
account_argument ty = elim (strip_prefix ty (codes "Account<")) [
  | some stripped ↦ some (unwrap_or (strip_suffix stripped (codes ">")) stripped)
  | none ↦ elim (after_text (codes "Account<") ty) [
    | none ↦ none
    | some stripped ↦ some (unwrap_or (strip_suffix stripped (codes ">")) stripped)
  ]
]

unfoldable pub inner_account_type : Text → Option Text
unfolding account_argument last_piece trim
inner_account_type ty_name = elim (account_argument (trim ty_name)) [
  | none ↦ none
  | some inner ↦ let part = trim (last_piece inner) in if is_empty part then none else some part
]

unfoldable pub field_inner_account_type : AccountField → Option Text
unfolding inner_account_type
field_inner_account_type field = inner_account_type field.ty_name
