-- ===== src/Sat/Idl/States.antt =====
-- crates/sat/src/idl.rs: the account states of an IDL. A type of a field is a JSON value; only what the
-- analysis reads of one is kept apart.
use solana_audit_toolkit.Prelude.{
  Text, codes, text_eq, to_lowercase, Bool, true, false, ◌&&◌, ◌||◌, Option, none, some, List, [],
  ◌∷◌, map, any, or_else, if◌then◌else◌,
}
use solana_audit_toolkit.Sat.Idl.{StateInfo}

mutual
  -- `serde_json::Value`
  pub data Value : Type 0 where
    string : Text → Value
    object : Members → Value
    other : Value

  pub data Members : Type 0 where
    end : Members
    member : Text → Value → Members → Members

-- `obj.get(key)`, of what is computed for each member.
unfoldable pub get_member : List (Text × (Text × Text)) → Text → Option (Text × Text)
get_member [] key = none
get_member ((k, v) ∷ rest) key =
    let later = get_member rest key in if text_eq k key then some v else later

-- The object's case: the text of `defined`, else the name of what `vec` or `option` holds.
unfoldable pub object_name : List (Text × (Text × Text)) → Text
unfolding get_member
object_name members = elim (get_member members (codes "defined")) [
  | some (text_or_unknown, name) ↦ text_or_unknown
  | none ↦ elim (get_member members (codes "vec")) [
    | some (text_or_unknown, name) ↦ name
    | none ↦ elim (get_member members (codes "option")) [
      | some (text_or_unknown, name) ↦ name
      | none ↦ codes "complex"
    ]
  ]
]

-- `as_str().unwrap_or("unknown")`
unfoldable pub text_or_unknown : Value → Text
text_or_unknown (string s) = s
text_or_unknown (object members) = codes "unknown"
text_or_unknown other = codes "unknown"

unfoldable mutual
  unfolding object_name text_or_unknown

  pub extract_field_type_name : Value → Text
  extract_field_type_name (string s) = s
  extract_field_type_name (object members) = object_name (member_names members)
  extract_field_type_name other = codes "unknown"

  -- Each member with its text and its type name.
  pub member_names : Members → List (Text × (Text × Text))
  member_names end = []
  member_names (member key value rest) =
      (key, (text_or_unknown value, extract_field_type_name value)) ∷ member_names rest

pub record IdlField : Type 0 where
  pub name : Text
  pub ty : Value

-- The fields of a variant are not read by the analysis.
pub record IdlTypeKind : Type 0 where
  pub kind : Text
  pub fields : List IdlField
  pub variants : List Text

-- `IdlAccountDef` and `IdlTypeDef`
pub record IdlTypeDef : Type 0 where
  pub name : Text
  pub ty : IdlTypeKind

-- `enum_types.get(name)`: of enums with one name the last counts.
unfoldable pub enum_type : List IdlTypeDef → Text → Option IdlTypeDef
enum_type [] name = none
enum_type (t ∷ ts) name =
    or_else (enum_type ts name)
      (if text_eq t.ty.kind (codes "enum") && text_eq t.name name then some t else none)

unfoldable pub is_init_flag : Text → Bool
unfolding to_lowercase
is_init_flag n =
    let lower_name = to_lowercase n in
    text_eq lower_name (codes "is_initialized")
    || (text_eq lower_name (codes "initialized") || text_eq lower_name (codes "isinitialized"))

unfoldable pub is_authority_field : Text → Bool
is_authority_field n =
    text_eq n (codes "authority")
    || (text_eq n (codes "admin") || (text_eq n (codes "owner") || text_eq n (codes "governor")))

unfoldable pub is_status_name : Text → Bool
is_status_name n =
    text_eq n (codes "status")
    || (text_eq n (codes "state") || (text_eq n (codes "phase") || text_eq n (codes "mode")))

-- `has_status_enum`, `status_field` and `status_variants`.
pub record Status : Type 0 where
  pub has_status_enum : Bool
  pub status_field : Option Text
  pub status_variants : List Text

-- The body of the loop over the fields.
unfoldable pub visit_field : List IdlTypeDef → IdlField → Status → Status
unfolding extract_field_type_name enum_type is_status_name
visit_field types field status = elim (enum_type types (extract_field_type_name field.ty)) [
  | none ↦ status
  | some enum_def ↦
      if is_status_name field.name
      then record {
        has_status_enum = true;
        status_field = some field.name;
        status_variants = enum_def.ty.variants;
      }
      else status
]

unfoldable pub visit_fields : List IdlTypeDef → List IdlField → Status → Status
unfolding visit_field
visit_fields types [] status = status
visit_fields types (f ∷ fs) status = visit_fields types fs (visit_field types f status)

abbrev pub no_status : Status
no_status = record { has_status_enum = false; status_field = none; status_variants = [] }

unfoldable pub state_of : List IdlTypeDef → IdlTypeDef → StateInfo
unfolding visit_fields is_init_flag is_authority_field
state_of types account =
    let field_names = map (λ (f : IdlField). f.name) account.ty.fields in
    let status = visit_fields types account.ty.fields no_status in
    record {
      name = account.name;
      field_names = field_names;
      has_init_flag = any is_init_flag field_names;
      has_bump = any (λ n. text_eq n (codes "bump")) field_names;
      has_authority = any is_authority_field field_names;
      has_status_enum = status.has_status_enum;
      status_field = status.status_field;
      status_variants = status.status_variants;
    }

unfoldable pub identify_states : List IdlTypeDef → List IdlTypeDef → List StateInfo
unfolding state_of
identify_states types [] = []
identify_states types (account ∷ rest) =
    let later = identify_states types rest in
    if text_eq account.ty.kind (codes "struct") then state_of types account ∷ later else later
