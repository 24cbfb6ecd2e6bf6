-- ===== src/Sat/Cpi.antt =====
-- crates/sat/src/cpi.rs: how deep the instructions of a program invoke each other. Finding the invoke
-- calls in a syntax tree is not modelled: the call graph is a list of entries, in the order in which the
-- hash map is visited, and the order of the map of depths is a parameter.
pub mod Depth
pub mod Chains
use mathlib.Core.List.{flatten}
use solana_audit_toolkit.Prelude.{
  Text, codes, text_eq, ends_with, decimal, ℕ, zero, suc, ltb, Bool, true, false, not, ◌&&◌, ◌||◌,
  Option, none, some, List, [], ◌∷◌, ◌++◌, map, any, retain, length, is_empty, if◌then◌else◌,
}
use solana_audit_toolkit.Sat.Types.{Finding, Severity}

pub record CpiCall : Type 0 where
  pub caller : Text
  pub callee : Text
  pub depth : ℕ
  pub is_internal : Bool
  pub resolved : Bool

unfoldable pub callee_contains_invoke : Text → Bool
callee_contains_invoke callee =
    text_eq callee (codes "invoke")
    || (text_eq callee (codes "invoke_signed")
        || (ends_with callee (codes "::invoke") || ends_with callee (codes "::invoke_signed")))

-- `graph.get(node)`, with no calls for a node that is not there.
unfoldable pub calls_of : List (Text × List CpiCall) → Text → List CpiCall
calls_of [] node = []
calls_of ((name, calls) ∷ graph) node =
    let rest = calls_of graph node in if text_eq name node then calls else rest

unfoldable pub visits : List Text → Text → Bool
visits visiting node = any (text_eq node) visiting

-- `visiting.remove(node)`
unfoldable pub leave : Text → List Text → List Text
leave node = retain (λ t. not (text_eq node t))

-- The body of the loop over the calls, with the recursive call as an argument.
unfoldable pub visit_call :
    (Text → List Text → ℕ × List Text) → CpiCall → ℕ → List Text → ℕ × List Text
visit_call recur call deepest visiting =
    if call.is_internal && call.resolved
    then (let (next_depth, visiting_after) = recur call.callee visiting in
        ((if ltb deepest next_depth then next_depth else deepest), visiting_after))
    else (deepest, visiting)

unfoldable pub visit_calls :
    (Text → List Text → ℕ × List Text) → List CpiCall → ℕ → List Text → ℕ × List Text
unfolding visit_call
visit_calls recur [] deepest visiting = (deepest, visiting)
visit_calls recur (call ∷ calls) deepest visiting =
    let (deeper, visiting_after) = visit_call recur call deepest visiting in
    visit_calls recur calls deeper visiting_after

-- `compute_max_depth` with fuel: the result, and the set of nodes after it.
unfoldable pub compute_max_depth :
    ℕ → Text → List (Text × List CpiCall) → ℕ → List Text → ℕ × List Text
unfolding visit_calls leave visits calls_of
compute_max_depth zero node graph current_depth visiting = (current_depth, visiting)
compute_max_depth (suc n) node graph current_depth visiting = elim (ltb 10 current_depth) [
  | true ↦ (current_depth, visiting)
  | false ↦ elim (visits visiting node) [
    | true ↦ (current_depth, visiting)
    | false ↦
        let (deepest, visiting_after) =
          visit_calls (λ callee v. compute_max_depth n callee graph (suc current_depth) v)
            (calls_of graph node) current_depth (node ∷ visiting) in
        (deepest, leave node visiting_after)
  ]
]

-- The depth of an instruction: eleven levels of fuel and one for the call that finds the limit.
unfoldable pub depth_of : List (Text × List CpiCall) → Text → ℕ
unfolding compute_max_depth
depth_of graph ix_name = (compute_max_depth 12 ix_name graph 0 []).0

-- The lines on the calls that could not be resolved.
unfoldable pub unresolved_of : List (Text × List CpiCall) → List Text
unresolved_of [] = []
unresolved_of ((caller, calls) ∷ graph) =
    map (λ _. caller ++ codes " → (unknown target)") (retain (λ call. not call.resolved) calls)
    ++ unresolved_of graph

-- `unresolved.join("; ")`
unfoldable pub join : Text → List Text → Text
join separator [] = []
join separator (t ∷ []) = t
join separator (t ∷ u ∷ ts) = t ++ (separator ++ join separator (u ∷ ts))

unfoldable pub unresolved_finding : List Text → Finding
unfolding join
unresolved_finding unresolved = record {
  id = [];
  title = flatten (
      codes "CPI Depth Unresolved: "
      ∷ decimal (length unresolved)
      ∷ codes " call(s) could not be statically traced"
      ∷ []);
  severity = Severity.informational;
  description = flatten (
      codes "The following CPI call targets could not be resolved statically: "
      ∷ join (codes "; ") unresolved
      ∷ codes
          ". These may involve dynamically constructed instruction data, function pointers, or macro-generated dispatch logic."
      ∷ []);
  location = some (codes "Source: #[program] module");
  suggestion = some (
      codes
        "Manually audit these CPI call sites to verify the aggregate CPI depth does not exceed 4.");
}

unfoldable pub overflow_finding : Text → ℕ → Finding
overflow_finding ix_name depth = record {
  id = [];
  title = flatten (
      codes "CPI Depth Overflow: `"
      ∷ ix_name
      ∷ codes "` reaches depth "
      ∷ decimal depth
      ∷ codes " (limit is 4)"
      ∷ []);
  severity = Severity.critical;
  description = flatten (
      codes "The instruction `"
      ∷ ix_name
      ∷ codes "` has a CPI depth of "
      ∷ decimal depth
      ∷ codes
          " which exceeds the Solana maximum CPI depth of 4. This will cause the transaction to fail at runtime. Nested program invocations accumulate depth, and each `invoke()` or `invoke_signed()` call within the same transaction adds 1 to the depth counter."
      ∷ []);
  location = some (codes "Instruction: " ++ ix_name);
  suggestion = some (
      flatten (
        codes "Reduce the call chain depth from "
        ∷ decimal depth
        ∷ codes
            " to ≤4 by flattening or restructuring the CPI call chain. Consider merging adjacent instructions or performing operations sequentially in a single instruction."
        ∷ []));
}

unfoldable pub overflows : List (Text × ℕ) → List Finding
unfolding overflow_finding
overflows [] = []
overflows ((ix_name, depth) ∷ max_depths) =
    (if ltb 4 depth then overflow_finding ix_name depth ∷ [] else []) ++ overflows max_depths

-- `analyze_cpi_depth` from the call graph on; `visit` is the order of the map of depths.
unfoldable pub analyze_cpi_depth :
    (List (Text × ℕ) → List (Text × ℕ)) → List (Text × List CpiCall) → List Finding
unfolding overflows unresolved_of unresolved_finding depth_of
analyze_cpi_depth visit graph =
    let unresolved = unresolved_of graph in
    (if is_empty unresolved then [] else unresolved_finding unresolved ∷ [])
    ++ overflows (visit (map (λ entry. (entry.0, depth_of graph entry.0)) graph))
