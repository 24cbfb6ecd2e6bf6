-- ===== src/Sat/Idl.antt =====
-- crates/sat/src/idl.rs: the instructions of an Anchor IDL, their roles, the transition graph of each
-- account state.
-- The access control check is in AccessCheck, the identification of the states in States, and the
-- reinitialization check in Reinit. Reading the IDL and the printed report are not modelled.
pub mod Graph
pub mod AccessCheck
pub mod Access
pub mod Places
pub mod States
pub mod Reinit
pub mod Consistent
use solana_audit_toolkit.Prelude.{
  Text, codes, text_eq, contains, starts_with, to_lowercase, ℕ, zero, suc, ◌==◌, Bool, true, false,
  not, ◌&&◌, ◌||◌, Option, none, some, List, [], ◌∷◌, ◌++◌, map, any, is_empty, is_some, first,
  or_else, unwrap_or, length, if◌then◌else◌, ltb, decimal, ◌+◌,
}

pub record StateInfo : Type 0 where
  pub name : Text
  pub field_names : List Text
  pub has_init_flag : Bool
  pub has_bump : Bool
  pub has_authority : Bool
  pub has_status_enum : Bool
  pub status_field : Option Text
  pub status_variants : List Text

pub data InstructionRole : Type 0 where
  initializer mutator terminator read_only : InstructionRole

pub record InstructionAccountInfo : Type 0 where
  pub name : Text
  pub is_mut : Bool
  pub is_signer : Bool
  pub is_pda : Bool

pub record InstructionInfo : Type 0 where
  pub name : Text
  pub role : InstructionRole
  pub writable_states : List Text
  pub readable_states : List Text
  pub has_signer : Bool
  pub has_pda : Bool
  pub target_accounts : List InstructionAccountInfo

pub record IdlSeed : Type 0 where
  pub kind : Text
  pub value : Option (List ℕ)
  pub path : Option Text
  pub account : Option Text

pub record IdlPda : Type 0 where
  pub seeds : List IdlSeed

pub record IdlAccountItem : Type 0 where
  pub name : Text
  pub is_mut : Bool
  pub is_signer : Bool
  pub pda : Option IdlPda
  pub desc : Option Text

-- Its arguments, which are JSON values, and its discriminator are not read by the analysis.
pub record IdlInstruction : Type 0 where
  pub name : Text
  pub accounts : List IdlAccountItem

-- `state_name_map.get`: of states with one name in lower case the last counts.
unfoldable pub state_name_of : List StateInfo → Text → Option Text
state_name_of [] key = none
state_name_of (s ∷ ss) key =
    or_else (state_name_of ss key) (if text_eq (to_lowercase s.name) key then some s.name else none)

-- `contains` of a list of texts.
abbrev pub has_text : List Text → Text → Bool
has_text xs x = any (λ y. text_eq y x) xs

unfoldable pub names_one_of : List Text → Text → Bool
names_one_of keywords name = any (λ kw. starts_with name kw || contains name kw) keywords

abbrev pub init_keywords : List Text
init_keywords =
    codes "initialize"
    ∷ codes "init"
    ∷ codes "create"
    ∷ codes "new"
    ∷ codes "open"
    ∷ codes "setup"
    ∷ codes "deploy"
    ∷ codes "register"
    ∷ codes "mint"
    ∷ []

abbrev pub term_keywords : List Text
term_keywords =
    codes "close"
    ∷ codes "delete"
    ∷ codes "destroy"
    ∷ codes "remove"
    ∷ codes "shutdown"
    ∷ codes "freeze"
    ∷ codes "terminate"
    ∷ codes "burn"
    ∷ []

unfoldable pub classify_role : Text → List Text → InstructionRole
classify_role name_lower writable_states =
    if names_one_of init_keywords name_lower
    then initializer
    else if names_one_of term_keywords name_lower
    then terminator
    else if not (is_empty writable_states)
    then mutator
    else read_only

-- The loop over the accounts of an instruction, on the variables that it fills.
unfoldable pub visit_accounts :
    List StateInfo → List IdlAccountItem → InstructionInfo → InstructionInfo
visit_accounts states [] info = info
visit_accounts states (acct ∷ rest) info =
    let known = state_name_of states (to_lowercase acct.name) in
    let resolved_name = unwrap_or known acct.name in
    let is_state = is_some known in
    visit_accounts states rest (record info {
      target_accounts =
          info.target_accounts
          ++ (record {
            name = resolved_name;
            is_mut = acct.is_mut;
            is_signer = acct.is_signer;
            is_pda = is_some acct.pda;
          }
              ∷ []);
      writable_states =
          if acct.is_mut && is_state
          then info.writable_states ++ (resolved_name ∷ [])
          else info.writable_states;
      readable_states =
          if not (acct.is_mut && is_state) && is_state
          then info.readable_states ++ (resolved_name ∷ [])
          else info.readable_states;
      has_signer = info.has_signer || acct.is_signer;
      has_pda = info.has_pda || is_some acct.pda;
    })

unfoldable pub categorize_instruction : List StateInfo → IdlInstruction → InstructionInfo
categorize_instruction states ix =
    let info = visit_accounts states ix.accounts (record {
      name = ix.name;
      role = read_only;
      writable_states = [];
      readable_states = [];
      has_signer = false;
      has_pda = false;
      target_accounts = [];
    }) in
    record info { role = classify_role (to_lowercase ix.name) info.writable_states }

unfoldable pub categorize_instructions : List StateInfo → List IdlInstruction → List InstructionInfo
categorize_instructions states instructions = map (categorize_instruction states) instructions

pub record TransitionEdge : Type 0 where
  pub from_state : Text
  pub to_state : Text
  pub instruction : Text

pub record StateGraph : Type 0 where
  pub account_name : Text
  pub states : List Text
  pub edges : List TransitionEdge

abbrev pub last : List Text → Option Text
last [] = none
last (x ∷ xs) = or_else (last xs) (some x)

-- The variant after an instruction in variant number `i`, which is `from_variant`.
unfoldable pub to_variant : List Text → InstructionRole → ℕ → Text → Text
to_variant variants initializer i from_variant =
    if i == 0 then unwrap_or (first variants) from_variant else from_variant
to_variant variants terminator i from_variant = unwrap_or (last variants) from_variant
to_variant variants mutator i from_variant = from_variant
to_variant variants read_only i from_variant = from_variant

abbrev pub edge : Text → Text → Text → TransitionEdge
edge from_state to_state instruction = record {
  from_state = from_state;
  to_state = to_state;
  instruction = instruction;
}

-- The loop over the variants, from number `i` on.
unfoldable pub variant_edges : List Text → InstructionInfo → ℕ → List Text → List TransitionEdge
unfolding to_variant
variant_edges variants ix i [] = []
variant_edges variants ix i (v ∷ vs) =
    edge v (to_variant variants ix.role i v) ix.name ∷ variant_edges variants ix (suc i) vs

-- The edge of an instruction on a state that has no status enum and is `base` while it is in use.
unfoldable pub life_edge : Text → InstructionInfo → TransitionEdge
life_edge base ix = elim ix.role [
  | initializer ↦ edge (codes "Uninitialized") base ix.name
  | terminator ↦ edge base (codes "Closed") ix.name
  | mutator ↦ edge base base ix.name
  | read_only ↦ edge base base ix.name
]

unfoldable pub touches_state : StateInfo → InstructionInfo → Bool
touches_state state ix =
    has_text ix.writable_states state.name || has_text ix.readable_states state.name

-- The body of the loop over the instructions.
unfoldable pub instruction_edges : StateInfo → InstructionInfo → List TransitionEdge
unfolding variant_edges life_edge touches_state
instruction_edges state ix =
    if not (touches_state state ix)
    then []
    else if state.has_status_enum && not (is_empty state.status_variants)
    then variant_edges state.status_variants ix 0 state.status_variants
    else if state.has_init_flag
    then life_edge (codes "Initialized") ix ∷ []
    else life_edge (codes "Active") ix ∷ []

unfoldable pub state_edges : StateInfo → List InstructionInfo → List TransitionEdge
unfolding instruction_edges
state_edges state [] = []
state_edges state (ix ∷ ixs) = instruction_edges state ix ++ state_edges state ixs

unfoldable pub add_state : List Text → Text → List Text
add_state states s = if not (has_text states s) then states ++ (s ∷ []) else states

unfoldable pub all_states : List TransitionEdge → List Text → List Text
unfolding add_state
all_states [] states = states
all_states (e ∷ es) states = all_states es (add_state (add_state states e.from_state) e.to_state)

unfoldable pub graph_of : List InstructionInfo → StateInfo → StateGraph
unfolding state_edges all_states
graph_of instructions state = record {
  account_name = state.name;
  states = all_states (state_edges state instructions) [];
  edges = state_edges state instructions;
}

unfoldable pub build_transition_graph : List StateInfo → List InstructionInfo → List StateGraph
unfolding graph_of
build_transition_graph states instructions = map (graph_of instructions) states

-- The tests under which `check_state_lockout` reports a state of a graph. The order in which it
-- visits the states is that of a hash map, and is left open.
unfoldable pub is_locked_out : StateGraph → Text → Bool
is_locked_out graph state =
    not (any (λ (e : TransitionEdge). text_eq e.from_state state) graph.edges)
    && (not (contains state (codes "Closed"))
        && (not (contains state (codes "Terminated"))
            && any (λ (e : TransitionEdge). text_eq e.to_state state) graph.edges))
