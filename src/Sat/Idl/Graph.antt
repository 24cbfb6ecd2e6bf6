-- ===== src/Sat/Idl/Graph.antt =====
-- The transition graphs of crates/sat/src/idl.rs.
use solana_audit_toolkit.Prelude.{
  or_right, Text, codes, text_eq, text_eq_iff, text_eq_refl, ℕ, suc, ◌==◌, Bool, true, false, not,
  ◌&&◌, ◌||◌, Option, none, some, List, [], ◌∷◌, any, any-append, is_empty, first, or_else,
  unwrap_or, arith, ◌≡◌, refl, sym, ap, ◌∙◌, Bool-cases, contains, inl, inr, ◌⊎◌,
}
use solana_audit_toolkit.Sat.Idl.{
  StateInfo, InstructionInfo, InstructionRole, initializer, mutator, terminator, read_only,
  TransitionEdge, has_text, last, to_variant, variant_edges, touches_state, instruction_edges,
  state_edges, add_state, all_states, graph_of, is_locked_out,
}

abbrev leaves : Text → TransitionEdge → Bool
leaves s e = text_eq e.from_state s

abbrev enters : Text → TransitionEdge → Bool
enters s e = text_eq e.to_state s

variant_edges-leaves :
    (variants : List Text) (ix : InstructionInfo) (i : ℕ) (vs : List Text) (s : Text)
    → any (leaves s) (variant_edges variants ix i vs) ≡ has_text vs s
unfolding variant_edges
variant_edges-leaves variants ix i [] s = refl
variant_edges-leaves variants ix i (v ∷ vs) s =
    ap (λ b. text_eq v s || b) (variant_edges-leaves variants ix (suc i) vs s)

last_in :
    (vs : List Text) (x s : Text) → last vs ≡ some x → text_eq x s ≡ true → has_text vs s ≡ true
last_in [] x s h k = absurd (cc)
last_in (v ∷ vs) x s h k = last_in_rest (last vs) (last_in vs x s) refl h
  where
    last_in_rest :
        (o : Option Text)
        → (last vs ≡ some x → text_eq x s ≡ true → has_text vs s ≡ true)
        → last vs ≡ o
        → or_else o (some v) ≡ some x
        → has_text (v ∷ vs) s ≡ true
    last_in_rest none f e q = ground arith
    last_in_rest (some y) f e q = or_right (text_eq v s) (has_text vs s) (f (e ∙ q) k)

head_in :
    (vs : List Text) (x s : Text) → first vs ≡ some x → text_eq x s ≡ true → has_text vs s ≡ true
head_in [] x s h k = absurd (cc)
head_in (v ∷ vs) x s h k = ground arith

same_in :
    (vs : List Text) (x s : Text) → has_text vs x ≡ true → text_eq x s ≡ true → has_text vs s ≡ true
same_in vs x s h k = ap (has_text vs) (sym ((text_eq_iff x s).0 k)) ∙ h

chosen_in :
    (o : Option Text) (vs : List Text) (v s : Text)
    → ((x : Text) → o ≡ some x → text_eq x s ≡ true → has_text vs s ≡ true)
    → has_text vs v ≡ true
    → text_eq (unwrap_or o v) s ≡ true
    → has_text vs s ≡ true
chosen_in none vs v s f h k = same_in vs v s h k
chosen_in (some x) vs v s f h k = f x refl k

-- The variant after an instruction is one of the variants.
to_variant_in :
    (variants : List Text) (role : InstructionRole) (i : ℕ) (v s : Text)
    → has_text variants v ≡ true
    → text_eq (to_variant variants role i v) s ≡ true
    → has_text variants s ≡ true
unfolding to_variant
to_variant_in variants initializer i v s h k = elim (Bool-cases (i == 0)) [
  | inl e ↦ chosen_in (first variants) variants v s (λ x. head_in variants x s) h (rw e at k)
  | inr e ↦ same_in variants v s h (rw e at k)
]
to_variant_in variants terminator i v s h k =
    chosen_in (last variants) variants v s (λ x. last_in variants x s) h k
to_variant_in variants mutator i v s h k = same_in variants v s h k
to_variant_in variants read_only i v s h k = same_in variants v s h k

-- What the edges of one instruction enter is a variant.
variant_edges-enters :
    (variants : List Text) (ix : InstructionInfo) (i : ℕ) (vs : List Text) (s : Text)
    → ((v : Text) → has_text vs v ≡ true → has_text variants v ≡ true)
    → any (enters s) (variant_edges variants ix i vs) ≡ true
    → has_text variants s ≡ true
unfolding variant_edges
variant_edges-enters variants ix i [] s f h = absurd (cc)
variant_edges-enters variants ix i (v ∷ vs) s f h =
    elim (Bool-cases (text_eq (to_variant variants ix.role i v) s)) [
      | inl e ↦ to_variant_in variants ix.role i v s (f v (rw (text_eq_refl v) refl)) e
      | inr e ↦
          variant_edges-enters variants ix (suc i) vs s
            (λ w k. f w (or_right (text_eq v w) (has_text vs w) k)) (rw e at h)
    ]

-- Where every instruction's edges can be left again, all edges can.
left_again :
    (state : StateInfo) (s : Text)
    → ((ix : InstructionInfo)
        → any (enters s) (instruction_edges state ix) ≡ true
        → any (leaves s) (instruction_edges state ix) ≡ true)
    → (ixs : List InstructionInfo) → any (enters s) (state_edges state ixs) ≡ true
    → any (leaves s) (state_edges state ixs) ≡ true
unfolding state_edges
left_again state s f [] h = absurd (cc)
left_again state s f (ix ∷ ixs) h =
    let entered = any-append (enters s) (instruction_edges state ix) (state_edges state ixs) in
    any-append (leaves s) (instruction_edges state ix) (state_edges state ixs)
    ∙ either (any (enters s) (instruction_edges state ix)) (any (enters s) (state_edges state ixs))
        (any (leaves s) (instruction_edges state ix)) (any (leaves s) (state_edges state ixs))
        (f ix) (left_again state s f ixs) (sym entered ∙ h)
  where
    either :
        (a b c d : Bool)
        → (a ≡ true → c ≡ true)
        → (b ≡ true → d ≡ true)
        → (a || b) ≡ true
        → (c || d) ≡ true
    either a b c d p q r = ground arith

status_edges :
    (state : StateInfo) (ix : InstructionInfo)
    → state.has_status_enum ≡ true
    → is_empty state.status_variants ≡ false
    → (instruction_edges state ix ≡ [])
      ⊎ (instruction_edges state ix
          ≡ variant_edges state.status_variants ix 0 state.status_variants)
unfolding instruction_edges
status_edges state ix h k = elim (Bool-cases (touches_state state ix)) [
  | inl e ↦ inr (rw (e, h, k) refl)
  | inr e ↦ inl (rw e refl)
]

none_entered :
    (es : List TransitionEdge) (s : Text)
    → es ≡ []
    → any (enters s) es ≡ true
    → any (leaves s) es ≡ true
none_entered [] s e h = h
none_entered (x ∷ xs) s e h = absurd (cc)

status_left :
    (state : StateInfo) (ix : InstructionInfo) (s : Text)
    → (instruction_edges state ix ≡ [])
      ⊎ (instruction_edges state ix
          ≡ variant_edges state.status_variants ix 0 state.status_variants)
    → any (enters s) (instruction_edges state ix) ≡ true
    → any (leaves s) (instruction_edges state ix) ≡ true
status_left state ix s (inl e) h = none_entered (instruction_edges state ix) s e h
status_left state ix s (inr e) h = rw e (
    variant_edges-leaves state.status_variants ix 0 state.status_variants s
    ∙ variant_edges-enters state.status_variants ix 0 state.status_variants s (λ v k. k)
        (rw e at h))

-- An account state with a status enum that has variants is never reported as locked out: whatever
-- the instructions are, each of them that touches the state has an edge out of every variant, so
-- every variant that can be entered can be left.
pub status_never_locked :
    (instructions : List InstructionInfo) (state : StateInfo) (s : Text)
    → state.has_status_enum ≡ true
    → is_empty state.status_variants ≡ false
    → is_locked_out (graph_of instructions state) s ≡ false
unfolding graph_of is_locked_out
status_never_locked instructions state s h k =
    locked _ (not (contains s (codes "Closed"))) (not (contains s (codes "Terminated"))) _
      (left_again state s (λ ix. status_left state ix s (status_edges state ix h k)) instructions)
  where
    locked : (a b c d : Bool) → (d ≡ true → a ≡ true) → (not a && (b && (c && d))) ≡ false
    locked a b c d f = ground arith

add_state_lem :
    (states : List Text) (x s : Text)
    → has_text (add_state states x) s ≡ (has_text states s || text_eq x s)
unfolding add_state
add_state_lem states x s = elim (Bool-cases (has_text states x)) [
  | inl e ↦ rw e (sym (kept_states (has_text states s) (text_eq x s) (λ k. same_in states x s e k)))
  | inr e ↦
      rw e (
        any-append (λ y. text_eq y s) states (x ∷ []) ∙ last_test (has_text states s) (text_eq x s))
]
  where
    kept_states : (a b : Bool) → (b ≡ true → a ≡ true) → (a || b) ≡ a
    kept_states a b f = ground arith

    last_test : (a b : Bool) → (a || (b || false)) ≡ (a || b)
    last_test a b = ground arith

all_states_lem :
    (es : List TransitionEdge) (states : List Text) (s : Text)
    → has_text (all_states es states) s
      ≡ (has_text states s || any (λ e. leaves s e || enters s e) es)
unfolding all_states
all_states_lem [] states s = sym (or_false (has_text states s))
  where
    or_false : (a : Bool) → (a || false) ≡ a
    or_false a = ground arith
all_states_lem (e ∷ es) states s =
    all_states_lem es (add_state (add_state states e.from_state) e.to_state) s
    ∙ rw
        (
          add_state_lem (add_state states e.from_state) e.to_state s,
          add_state_lem states e.from_state s,
        )
        (regroup (has_text states s) (text_eq e.from_state s) (text_eq e.to_state s)
          (any (λ f. leaves s f || enters s f) es))
  where
    regroup : (a b c d : Bool) → (((a || b) || c) || d) ≡ (a || ((b || c) || d))
    regroup a b c d = ground arith

-- The states of a graph are exactly those that an edge of the graph leaves or enters.
pub graph_of-states :
    (instructions : List InstructionInfo) (state : StateInfo) (s : Text)
    → has_text (graph_of instructions state).states s
      ≡ any
          (λ (e : TransitionEdge). text_eq e.from_state s || text_eq e.to_state s)
          (graph_of instructions state).edges
unfolding graph_of
graph_of-states instructions state s = all_states_lem (state_edges state instructions) [] s
