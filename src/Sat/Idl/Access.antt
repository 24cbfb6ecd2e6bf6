-- ===== src/Sat/Idl/Access.antt =====
-- The access control check of crates/sat/src/idl.rs.
use solana_audit_toolkit.Prelude.{
  map, retain, ◌≡◌, refl, ◌∙◌, ap, Bool, true, false, not, ◌&&◌, ◌||◌, List, [], ◌∷◌, ◌++◌, any,
  is_empty, length, ◌==◌, unwrap_or, first, if◌then◌else◌, arith, Bool-cases, inl, inr,
}
use solana_audit_toolkit.Sat.Types.{Finding}
use solana_audit_toolkit.Sat.Idl.{InstructionInfo}
use solana_audit_toolkit.Sat.Idl.AccessCheck.{
  is_read_only, is_mutator, is_terminator, has_pda_target, missing_access, unconstrained_writable,
  next_id, push_access, check_access_from, check_access_control,
}
use solana_audit_toolkit.Sat.Idl.Places.{
  is_severe, places, instruction_place, account_place, push_access-severe, push_access-mild,
  check_access_from-places, by_skip,
}

-- The instruction writes state, by its role and by its accounts, and asks for no signature.
abbrev pub is_exposed : InstructionInfo → Bool
is_exposed ix = not (is_read_only ix.role || is_empty ix.writable_states) && not ix.has_signer

is_empty_more : (fs gs : List Finding) → is_empty (fs ++ gs) ≡ (is_empty fs && is_empty gs)
is_empty_more [] gs = refl
is_empty_more (f ∷ fs) gs = refl

pushed :
    (signer b : Bool) (fs : List Finding) (x y : Finding)
    → is_empty (
        if not signer && b
        then (if not signer then fs ++ (x ∷ []) else fs) ++ (y ∷ [])
        else (if not signer then fs ++ (x ∷ []) else fs))
      ≡ (is_empty fs && signer)
pushed true b fs x y = ground arith
pushed false true [] x y = refl
pushed false true (f ∷ fs) x y = refl
pushed false false [] x y = refl
pushed false false (f ∷ fs) x y = refl

push_access-is_empty :
    (ix : InstructionInfo) (fs : List Finding)
    → is_empty (push_access ix fs) ≡ (is_empty fs && ix.has_signer)
unfolding push_access
push_access-is_empty ix fs =
    let reported = if not ix.has_signer then fs ++ (missing_access ix (next_id fs) ∷ []) else fs in
    pushed ix.has_signer
      (not (has_pda_target ix)
        && ((length ix.writable_states == 1) && (is_mutator ix.role || is_terminator ix.role)))
      fs (missing_access ix (next_id fs))
      (unconstrained_writable ix (unwrap_or (first ix.writable_states) []) (next_id reported))

check_access_from-is_empty :
    (ixs : List InstructionInfo) (fs : List Finding)
    → is_empty (check_access_from ixs fs) ≡ (is_empty fs && not (any is_exposed ixs))
unfolding check_access_from
check_access_from-is_empty [] fs = ground arith
check_access_from-is_empty (ix ∷ ixs) fs =
    elim (Bool-cases (is_read_only ix.role || is_empty ix.writable_states)) [
      | inl e ↦ rw e (check_access_from-is_empty ixs fs)
      | inr e ↦ rw e (
          check_access_from-is_empty ixs (push_access ix fs)
          ∙ (ap (λ b. b && not (any is_exposed ixs)) (push_access-is_empty ix fs)
              ∙ regroup (is_empty fs) ix.has_signer (any is_exposed ixs)))
    ]
  where
    regroup : (a b c : Bool) → ((a && b) && not c) ≡ (a && not (not b || c))
    regroup a b c = ground arith

-- The exposed instruction also writes its one state, which no program address guards.
abbrev pub is_unconstrained : InstructionInfo → Bool
is_unconstrained ix =
    is_exposed ix
    && (not (has_pda_target ix)
        && ((length ix.writable_states == 1) && (is_mutator ix.role || is_terminator ix.role)))

unconstrained_split :
    (skip signer b : Bool) → ((not skip && not signer) && b) ≡ (not skip && (not signer && b))
unconstrained_split skip signer b = ground arith

-- The access control check reports nothing exactly if no instruction is exposed, that is, writes a state by
-- its role and its accounts and has no signer. The critical and high findings are one for each exposed
-- instruction, in the order of the instructions and each located at its name; the others are one for each of
-- them that changes or ends its only writable state and has no program address among its accounts, located
-- at the instruction and that state.
pub check_access_control_lem :
    (ixs : List InstructionInfo)
    → (is_empty (check_access_control ixs) ≡ not (any is_exposed ixs))
      × (places is_severe (check_access_control ixs)
          ≡ map instruction_place (retain is_exposed ixs))
      × (places (λ s. not (is_severe s)) (check_access_control ixs)
          ≡ map account_place (retain is_unconstrained ixs))
unfolding check_access_control
check_access_control_lem ixs = (
  check_access_from-is_empty ixs [],
  check_access_from-places is_severe is_exposed instruction_place
      (λ ix fs.
        by_skip is_severe (is_read_only ix.role || is_empty ix.writable_states) (not ix.has_signer)
          (is_exposed ix) fs (push_access ix fs) (instruction_place ix) refl
          (push_access-severe ix fs))
      ixs [],
  check_access_from-places (λ s. not (is_severe s)) is_unconstrained account_place
      (λ ix fs.
        by_skip (λ s. not (is_severe s)) (is_read_only ix.role || is_empty ix.writable_states) _
          (is_unconstrained ix) fs (push_access ix fs) (account_place ix)
          (unconstrained_split (is_read_only ix.role || is_empty ix.writable_states) ix.has_signer (
            not (has_pda_target ix)
            && ((length ix.writable_states == 1) && (is_mutator ix.role || is_terminator ix.role))))
          (push_access-mild ix fs))
      ixs [],
)
