-- ===== src/Sat/Idl/Places.antt =====
-- Where the findings of the access control check of crates/sat/src/idl.rs are.
use solana_audit_toolkit.Prelude.{
  Text, codes, Option, some, sym, map, retain, append-nil, append_assoc, ◌≡◌, refl, ◌∙◌, ap, Bool,
  true, false, not, ◌&&◌, ◌||◌, List, [], ◌∷◌, ◌++◌, is_empty, length, ◌==◌, unwrap_or, first,
  if◌then◌else◌, Bool-cases, inl, inr,
}
use solana_audit_toolkit.Sat.Types.{Severity, Finding}
use solana_audit_toolkit.Sat.Idl.{InstructionInfo}
use solana_audit_toolkit.Sat.Idl.AccessCheck.{
  is_read_only, is_mutator, is_terminator, has_pda_target, missing_access, unconstrained_writable,
  next_id, push_access, check_access_from,
}

-- The severities of a missing access control.
abbrev pub is_severe : Severity → Bool
is_severe Severity.critical = true
is_severe Severity.high = true
is_severe _ = false

-- Where the findings that pass the test are.
abbrev pub places : (Severity → Bool) → List Finding → List (Option Text)
places q fs = map (λ (f : Finding). f.location) (retain (λ (f : Finding). q f.severity) fs)

abbrev pub instruction_place : InstructionInfo → Option Text
instruction_place ix = some (codes "Instruction: " ++ ix.name)

abbrev pub account_place : InstructionInfo → Option Text
account_place ix = some (
    codes "Instruction: "
    ++ (ix.name ++ (codes " → Account: " ++ unwrap_or (first ix.writable_states) [])))

places-append :
    (q : Severity → Bool) (fs gs : List Finding) → places q (fs ++ gs) ≡ places q fs ++ places q gs
places-append q [] gs = refl
places-append q (f ∷ fs) gs = elim (Bool-cases (q f.severity)) [
  | inl e ↦ rw (e, places-append q fs gs) refl
  | inr e ↦ rw (e, places-append q fs gs) refl
]

pushed_places :
    (q : Severity → Bool) (signer b : Bool) (fs : List Finding) (x y : Finding)
    → places q (
        if not signer && b
        then (if not signer then fs ++ (x ∷ []) else fs) ++ (y ∷ [])
        else (if not signer then fs ++ (x ∷ []) else fs))
      ≡ places q fs
        ++ (if signer then [] else places q (x ∷ []) ++ (if b then places q (y ∷ []) else []))
pushed_places q true b fs x y = sym (append-nil (places q fs))
pushed_places q false true fs x y =
    places-append q (fs ++ (x ∷ [])) (y ∷ [])
    ∙ (ap (λ l. l ++ places q (y ∷ [])) (places-append q fs (x ∷ []))
        ∙ append_assoc (places q fs) (places q (x ∷ [])) (places q (y ∷ [])))
pushed_places q false false fs x y =
    places-append q fs (x ∷ []) ∙ ap (λ l. places q fs ++ l) (sym (append-nil (places q (x ∷ []))))

missing_access-severe :
    (ix : InstructionInfo) (id : Text) → is_severe (missing_access ix id).severity ≡ true
unfolding missing_access
missing_access-severe ix id = elim (Bool-cases (is_terminator ix.role)) [
  | inl e ↦ rw e refl
  | inr e ↦ rw e refl
]

missing_access-place :
    (ix : InstructionInfo) (id : Text) → (missing_access ix id).location ≡ instruction_place ix
unfolding missing_access
missing_access-place ix id = refl

-- The finding for one instruction, by the test on its severity.
abbrev placed : Bool → Option Text → List (Option Text)
placed b p = if b then p ∷ [] else []

pub push_access-severe :
    (ix : InstructionInfo) (fs : List Finding)
    → places is_severe (push_access ix fs)
      ≡ places is_severe fs ++ placed (not ix.has_signer) (instruction_place ix)
unfolding push_access unconstrained_writable
push_access-severe ix fs =
    let reported = if not ix.has_signer then fs ++ (missing_access ix (next_id fs) ∷ []) else fs in
    let b =
      not (has_pda_target ix)
      && ((length ix.writable_states == 1) && (is_mutator ix.role || is_terminator ix.role)) in
    pushed_places is_severe ix.has_signer b fs (missing_access ix (next_id fs))
      (unconstrained_writable ix (unwrap_or (first ix.writable_states) []) (next_id reported))
    ∙ ap (λ l. places is_severe fs ++ l)
        (rw (missing_access-severe ix (next_id fs), missing_access-place ix (next_id fs))
          (on ix.has_signer b))
  where
    on :
        (signer b : Bool)
        → ◌≡◌ {A = List (Option Text)}
            (if signer then [] else instruction_place ix ∷ (if b then [] else []))
            (placed (not signer) (instruction_place ix))
    on true b = refl
    on false true = refl
    on false false = refl

pub push_access-mild :
    (ix : InstructionInfo) (fs : List Finding)
    → places (λ s. not (is_severe s)) (push_access ix fs)
      ≡ places (λ s. not (is_severe s)) fs
        ++ placed
            (not ix.has_signer
              && (not (has_pda_target ix)
                  && ((length ix.writable_states == 1)
                      && (is_mutator ix.role || is_terminator ix.role))))
            (account_place ix)
unfolding push_access unconstrained_writable
push_access-mild ix fs =
    let reported = if not ix.has_signer then fs ++ (missing_access ix (next_id fs) ∷ []) else fs in
    let b =
      not (has_pda_target ix)
      && ((length ix.writable_states == 1) && (is_mutator ix.role || is_terminator ix.role)) in
    pushed_places (λ s. not (is_severe s)) ix.has_signer b fs (missing_access ix (next_id fs))
      (unconstrained_writable ix (unwrap_or (first ix.writable_states) []) (next_id reported))
    ∙ ap (λ l. places (λ s. not (is_severe s)) fs ++ l)
        (rw (missing_access-severe ix (next_id fs)) (on ix.has_signer b))
  where
    on :
        (signer b : Bool)
        → ◌≡◌ {A = List (Option Text)}
            (if signer then [] else (if b then account_place ix ∷ [] else []))
            (placed (not signer && b) (account_place ix))
    on true b = refl
    on false true = refl
    on false false = refl

pub check_access_from-places :
    (q : Severity → Bool) (test : InstructionInfo → Bool) (place : InstructionInfo → Option Text)
    → ((ix : InstructionInfo) (fs : List Finding)
        → places q
            (if is_read_only ix.role || is_empty ix.writable_states then fs else push_access ix fs)
          ≡ places q fs ++ placed (test ix) (place ix))
    → (ixs : List InstructionInfo) (fs : List Finding)
    → places q (check_access_from ixs fs) ≡ places q fs ++ map place (retain test ixs)
unfolding check_access_from
check_access_from-places q test place h [] fs = sym (append-nil (places q fs))
check_access_from-places q test place h (ix ∷ ixs) fs =
    check_access_from-places q test place h ixs
      (if is_read_only ix.role || is_empty ix.writable_states then fs else push_access ix fs)
    ∙ (ap (λ l. l ++ map place (retain test ixs)) (h ix fs)
        ∙ (append_assoc (places q fs) (placed (test ix) (place ix)) (map place (retain test ixs))
            ∙ ap (λ l. places q fs ++ l) (one (test ix))))
  where
    one :
        (b : Bool)
        → placed b (place ix) ++ map place (retain test ixs)
          ≡ map place (if b then ix ∷ retain test ixs else retain test ixs)
    one true = refl
    one false = refl

pub by_skip :
    (q : Severity → Bool) (skip t u : Bool) (fs gs : List Finding) (p : Option Text)
    → u ≡ (not skip && t)
    → places q gs ≡ places q fs ++ placed t p
    → places q (if skip then fs else gs) ≡ places q fs ++ placed u p
by_skip q true t u fs gs p e h = rw e (sym (append-nil (places q fs)))
by_skip q false t u fs gs p e h = rw e h
