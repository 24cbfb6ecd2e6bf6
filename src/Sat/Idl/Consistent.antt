-- ===== src/Sat/Idl/Consistent.antt =====
-- crates/sat/src/idl.rs: what holds of the states that are identified, and the numbering of the findings.
use mathlib.Core.Path.{subst}
use solana_audit_toolkit.Prelude.{
  Text, codes, text_eq, text_eq_refl, any-append, append_assoc, not, ◌&&◌, ltb, ℕ, zero, suc, ◌+◌,
  Bool, true, false, ◌||◌, Option, none, some, List, [], ◌∷◌, ◌++◌, map, length, ◌≡◌, refl, sym, ap,
  ◌∙◌, Bool-cases, Option-cases, inl, inr, All, or_right,
}
use solana_audit_toolkit.Sat.Types.{Finding}
use solana_audit_toolkit.Sat.Idl.{StateInfo, InstructionInfo, has_text}
use solana_audit_toolkit.Sat.Idl.AccessCheck.{pad3, next_id}
use solana_audit_toolkit.Sat.Idl.States.{
  IdlField, IdlTypeDef, Status, no_status, enum_type, extract_field_type_name, is_status_name,
  visit_field, visit_fields, state_of, identify_states,
}
use solana_audit_toolkit.Sat.Idl.Reinit.{
  state_named, is_state_pda, overwrite_finding, weak_finding, reinit_of, check_write, check_writes,
  check_initializers, is_initializer, check_reinitialization,
}

-- The status field is one of the fields, and there are variants only with one.
abbrev IsFit : List Text → Bool → Option Text → List Text → Type 0
IsFit names has_status_enum none variants = (has_status_enum ≡ false) × (variants ≡ [])
IsFit names has_status_enum (some field) variants =
    (has_status_enum ≡ true) × (has_text names field ≡ true)

pub IsConsistent : StateInfo → Type 0
IsConsistent s = IsFit s.field_names s.has_status_enum s.status_field s.status_variants

abbrev Fits : List Text → Status → Type 0
Fits names s = IsFit names s.has_status_enum s.status_field s.status_variants

visit_field-Fits :
    (types : List IdlTypeDef) (names : List Text) (f : IdlField) (s : Status)
    → has_text names f.name ≡ true
    → Fits names s
    → Fits names (visit_field types f s)
unfolding visit_field
visit_field-Fits types names f s h v =
    elim (Option-cases (enum_type types (extract_field_type_name f.ty))) [
      | inl e ↦ rw (e, visit_field) v
      | inr (d, e) ↦ elim (Bool-cases (is_status_name f.name)) [
        | inl t ↦ rw (visit_field, e, t) (refl, h)
        | inr t ↦ rw (visit_field, e, t) v
      ]
    ]

visit_fields-Fits :
    (types : List IdlTypeDef) (names : List Text) (fs : List IdlField) (s : Status)
    → All (λ f. has_text names f.name ≡ true) fs
    → Fits names s
    → Fits names (visit_fields types fs s)
unfolding visit_fields
visit_fields-Fits types names [] s h v = v
visit_fields-Fits types names (f ∷ fs) s h v =
    visit_fields-Fits types names fs (visit_field types f s) h.1
      (visit_field-Fits types names f s h.0 v)

-- The names of some fields among more names.
names_hold :
    (before : List Text) (fs : List IdlField)
    → All
        (λ (f : IdlField). has_text (before ++ map (λ (g : IdlField). g.name) fs) f.name ≡ true)
        fs
names_hold before [] = tt
names_hold before (f ∷ fs) = (
  any-append (λ y. text_eq y f.name) before (f.name ∷ map (λ (g : IdlField). g.name) fs)
      ∙ or_right (has_text before f.name)
          (text_eq f.name f.name || has_text (map (λ (g : IdlField). g.name) fs) f.name)
          (rw (text_eq_refl f.name) refl),
  subst (λ names. All (λ (x : IdlField). has_text names x.name ≡ true) fs)
      (append_assoc before (f.name ∷ []) (map (λ (g : IdlField). g.name) fs))
      (names_hold (before ++ f.name ∷ []) fs),
)

-- Every state that is identified either has a status field, which is one of its fields, and is said to have
-- a status enum, or has neither and no variants.
pub identify_states-IsConsistent :
    (types accounts : List IdlTypeDef) → All IsConsistent (identify_states types accounts)
unfolding identify_states state_of IsConsistent
identify_states-IsConsistent types [] = tt
identify_states-IsConsistent types (a ∷ rest) =
    elim (Bool-cases (text_eq a.ty.kind (codes "struct"))) [
      | inl e ↦ rw e (one, identify_states-IsConsistent types rest)
      | inr e ↦ rw e (identify_states-IsConsistent types rest)
    ]
  where
    one : IsConsistent (state_of types a)
    one =
        visit_fields-Fits types (map (λ (f : IdlField). f.name) a.ty.fields) a.ty.fields no_status
          (names_hold [] a.ty.fields) (refl, refl)

-- The ids of `n` findings, from the first.
unfoldable pub ids_to : ℕ → List Text
unfolding pad3
ids_to zero = []
ids_to (suc n) = ids_to n ++ (codes "SAT-IDL-" ++ pad3 (n + 1)) ∷ []

abbrev IsNumbered : List Finding → Type 0
IsNumbered fs = map (λ (f : Finding). f.id) fs ≡ ids_to (length fs)

map-append :
    (fs : List Finding) (g : Finding)
    → map (λ (f : Finding). f.id) (fs ++ g ∷ []) ≡ map (λ (f : Finding). f.id) fs ++ g.id ∷ []
map-append [] g = refl
map-append (f ∷ fs) g = ap (◌∷◌ f.id) (map-append fs g)

length-push : (fs : List Finding) (g : Finding) → length (fs ++ g ∷ []) ≡ suc (length fs)
length-push [] g = refl
length-push (f ∷ fs) g = ap suc (length-push fs g)

push-IsNumbered :
    (fs : List Finding) (g : Finding)
    → g.id ≡ next_id fs
    → IsNumbered fs
    → IsNumbered (fs ++ g ∷ [])
unfolding next_id ids_to
push-IsNumbered fs g e h =
    map-append fs g
    ∙ (ap (λ ids. ids ++ g.id ∷ []) h
        ∙ (ap (λ i. ids_to (length fs) ++ i ∷ []) e ∙ ap ids_to (sym (length-push fs g))))

-- A finding takes the id that it is given.
abbrev SetsId : Option (Text → Finding) → Type 0
SetsId none = Unit
SetsId (some finding) = (id : Text) → (finding id).id ≡ id

reinit_of-SetsId : (ix : InstructionInfo) (state : StateInfo) → SetsId (reinit_of ix state)
unfolding reinit_of overwrite_finding weak_finding
reinit_of-SetsId ix state = elim (Bool-cases (not state.has_init_flag)) [
  | inl e ↦ elim (Bool-cases (state.has_status_enum && ltb (length state.status_variants) 2)) [
    | inl f ↦ rw (reinit_of, e, f) tt
    | inr f ↦ rw (reinit_of, e, f) (λ id. refl)
  ]
  | inr e ↦ elim (Bool-cases (not ix.has_pda && not ix.has_signer)) [
    | inl f ↦ rw (reinit_of, e, f) (λ id. refl)
    | inr f ↦ rw (reinit_of, e, f) tt
  ]
]

check_write-IsNumbered :
    (states : List StateInfo) (ix : InstructionInfo) (name : Text) (fs : List Finding)
    → IsNumbered fs
    → IsNumbered (check_write states ix name fs)
unfolding check_write
check_write-IsNumbered states ix name fs h = elim (Option-cases (state_named states name)) [
  | inl e ↦ rw (check_write, e) h
  | inr (state, e) ↦ elim (Bool-cases (is_state_pda ix name)) [
    | inl p ↦ rw (check_write, e, p) h
    | inr p ↦ elim (Option-cases (reinit_of ix state)) [
      | inl r ↦ rw (check_write, e, p, r) h
      | inr (finding, r) ↦
          rw (check_write, e, p, r)
            (push-IsNumbered fs (finding (next_id fs))
              (subst SetsId r (reinit_of-SetsId ix state) (next_id fs)) h)
    ]
  ]
]

check_writes-IsNumbered :
    (states : List StateInfo) (ix : InstructionInfo) (names : List Text) (fs : List Finding)
    → IsNumbered fs
    → IsNumbered (check_writes states ix names fs)
unfolding check_writes
check_writes-IsNumbered states ix [] fs h = h
check_writes-IsNumbered states ix (n ∷ ns) fs h =
    check_writes-IsNumbered states ix ns (check_write states ix n fs)
      (check_write-IsNumbered states ix n fs h)

check_initializers-IsNumbered :
    (states : List StateInfo) (instructions : List InstructionInfo) (fs : List Finding)
    → IsNumbered fs
    → IsNumbered (check_initializers states instructions fs)
unfolding check_initializers
check_initializers-IsNumbered states [] fs h = h
check_initializers-IsNumbered states (ix ∷ rest) fs h = elim (Bool-cases (is_initializer ix.role)) [
  | inl e ↦
      rw (check_initializers, e)
        (check_initializers-IsNumbered states rest (check_writes states ix ix.writable_states fs)
          (check_writes-IsNumbered states ix ix.writable_states fs h))
  | inr e ↦ rw (check_initializers, e) (check_initializers-IsNumbered states rest fs h)
]

-- The ids of the reinitialization findings are numbered from one in their order, without a gap.
pub check_reinitialization-ids_to :
    (states : List StateInfo) (instructions : List InstructionInfo)
    → map (λ (f : Finding). f.id) (check_reinitialization states instructions)
      ≡ ids_to (length (check_reinitialization states instructions))
unfolding check_reinitialization ids_to
check_reinitialization-ids_to states instructions =
    check_initializers-IsNumbered states instructions [] refl
