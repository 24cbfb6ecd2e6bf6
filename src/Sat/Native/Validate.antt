-- ===== src/Sat/Native/Validate.antt =====
-- crates/sat/src/native/rules/validate.rs: the accounts that the comparisons of an instruction pin to
-- canonical state. The comparisons are read off syntax trees, and are an argument here; a hash set of
-- account positions is the list of its elements.
pub mod Pinned
pub mod Chains
pub mod UnionFind
pub mod Roots
pub mod Links
pub mod Forest
pub mod History
pub mod Moves
pub mod Counts
pub mod Joins
pub mod Steps
pub mod Anchors
pub mod Report
pub mod Nodes
pub mod Run
pub mod Start
pub mod Flatten
pub mod Reported
pub mod Risk
pub mod Parents
pub mod Reports
use solana_audit_toolkit.Prelude.{
  Text, codes, text_eq, trim, leb, ℕ, zero, suc, ◌+◌, ◌==◌, Bool, true, false, not, ◌&&◌, ◌||◌,
  Option, none, some, List, [], ◌∷◌, ◌++◌, any, all, is_empty, is_some, if◌then◌else◌,
}
use solana_audit_toolkit.Sat.Native.Model.{
  AccountKind, program, sysvar, system_program, ResolvedAccount, NativeInstruction,
}

-- An account field, as a node of the comparison graph.
abbrev pub Node : Type 0
Node = ℕ × Text

pub data Side : Type 0 where
  anchor unknown : Side
  account_field : ℕ → Text → Side

unfoldable pub node_of : Side → Option Node
node_of (account_field acc field) = some (acc, field)
node_of anchor = none
node_of unknown = none

unfoldable pub is_anchor : Side → Bool
is_anchor anchor = true
is_anchor _ = false

pub record Comparison : Type 0 where
  pub left : Side
  pub right : Side
  pub left_node : Option Node
  pub right_node : Option Node

-- What `push_comparison` pushes once the sides are resolved.
unfoldable pub comparison : Side → Side → Comparison
unfolding node_of
comparison left right = record {
  left = left;
  right = right;
  left_node = node_of left;
  right_node = node_of right;
}

abbrev pub has : List ℕ → ℕ → Bool
has set k = any (λ x. x == k) set

-- `char::is_alphabetic`, of ASCII characters
unfoldable pub is_alphabetic : ℕ → Bool
is_alphabetic c = (leb 65 c && leb c 90) || (leb 97 c && leb c 122)

-- The loop of `is_literal_seed`, with the open quote if the place is in a string.
unfoldable pub literal_from : Option ℕ → Text → Bool
unfolding is_alphabetic
literal_from quote [] = true
literal_from none (c ∷ cs) =
    if (c == b'\'') || (c == b'"')
    then literal_from (some c) cs
    else if is_alphabetic c || (c == b'_')
    then false
    else literal_from none cs
literal_from (some q) (c ∷ cs) =
    if ((c == b'\'') || (c == b'"')) && (c == q)
    then literal_from none cs
    else literal_from (some q) cs

unfoldable pub is_literal_seed : Text → Bool
unfolding literal_from
is_literal_seed seed =
    let trimmed = trim seed in if is_empty trimmed then false else literal_from none trimmed

unfoldable pub is_builtin : AccountKind → Bool
is_builtin sysvar = true
is_builtin program = true
is_builtin system_program = true
is_builtin _ = false

-- The loop of `seed_canonical` over the accounts from position `i` on.
unfoldable pub seed_from : ℕ → List ResolvedAccount → List ℕ
unfolding is_builtin is_literal_seed
seed_from i [] = []
seed_from i (acc ∷ rest) =
    let later = seed_from (suc i) rest in
    if is_builtin acc.kind || (acc.is_pda && all is_literal_seed acc.seeds)
    then i ∷ later
    else later

unfoldable pub seed_canonical : NativeInstruction → List ℕ
unfolding seed_from
seed_canonical ix = seed_from 0 ix.accounts

-- One of the two `pairs` of a comparison: the node that may be pinned, and the other side.
pub record Half : Type 0 where
  pub node : Option Node
  pub other : Side
  pub other_node : Option Node

abbrev pub halves : List Comparison → List Half
halves [] = []
halves (c ∷ cs) =
    record { node = c.left_node; other = c.right; other_node = c.right_node }
    ∷ record { node = c.right_node; other = c.left; other_node = c.left_node }
    ∷ halves cs

-- `other_node` is of a canonical account.
unfoldable pub in_canonical : List ℕ → Option Node → Bool
in_canonical canonical none = false
in_canonical canonical (some (acc, field)) = has canonical acc

unfoldable pub is_identity : Text → Bool
is_identity field = text_eq field (codes "owner") || text_eq field (codes "key")

-- `pinned`
unfoldable pub is_pinned : List ℕ → Half → Bool
unfolding is_anchor in_canonical
is_pinned canonical h = is_anchor h.other || in_canonical canonical h.other_node

-- The body of the loop over the pairs: the set, and whether it changed.
unfoldable pub pin : Half → List ℕ × Bool → List ℕ × Bool
unfolding is_identity is_pinned
pin h (canonical, changed) = elim h.node [
  | none ↦ (canonical, changed)
  | some (acc, field) ↦
      if has canonical acc || not (is_identity field)
      then (canonical, changed)
      else if is_pinned canonical h
      then (acc ∷ canonical, true)
      else (canonical, changed)
]

unfoldable pub pin_all : List Half → List ℕ × Bool → List ℕ × Bool
unfolding pin
pin_all [] s = s
pin_all (h ∷ hs) s = pin_all hs (pin h s)

-- At most `n` rounds, up to the first that changes nothing.
unfoldable pub rounds : ℕ → List Half → List ℕ → List ℕ
unfolding pin_all
rounds zero hs canonical = canonical
rounds (suc n) hs canonical =
    let next = pin_all hs (canonical, false) in
    let rest = rounds n hs next.0 in if next.1 then rest else next.0

unfoldable pub reachable_canonical : List Comparison → List ℕ → List ℕ
unfolding rounds
reachable_canonical comparisons seeded = rounds 8 (halves comparisons) seeded
