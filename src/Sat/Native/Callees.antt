-- ===== src/Sat/Native/Callees.antt =====
-- crates/sat/src/native/rules/cpi.rs: the blocks of a handler and of the helpers that it calls. A block, the
-- calls in it, and the function of a name are parameters: they are read off the syntax trees.
pub mod Reached
use solana_audit_toolkit.Prelude.{
  Text, text_eq, text_cmp, sort_by, ℕ, zero, suc, Bool, true, false, not, Option, none, some, List,
  [], ◌∷◌, ◌++◌, any, if◌then◌else◌,
}

-- `dedup`: of neighbours that are equal, and so the same text, one is kept.
unfoldable pub dedup : List Text → List Text
dedup [] = []
dedup (t ∷ []) = t ∷ []
dedup (t ∷ u ∷ ts) = let rest = dedup (u ∷ ts) in if text_eq t u then rest else t ∷ rest

abbrev pub is_visited : List Text → Text → Bool
is_visited visited name = any (text_eq name) visited

module _ (Block : Type 0) where
  -- The visited names, and the blocks with the files that they stand in.
  abbrev pub Collected : Type 0
  Collected = List Text × List (Block × ℕ)

  -- The loop over the callees, with the recursive call as an argument.
  unfoldable pub visit_callees :
      (Text → Option (Block × ℕ))
      → (Block → ℕ → List Text → List (Block × ℕ) → Collected)
      → List Text
      → List Text
      → List (Block × ℕ)
      → Collected
  visit_callees lookup recur [] visited out = (visited, out)
  visit_callees lookup recur (name ∷ callees) visited out = elim (is_visited visited name) [
    | true ↦ visit_callees lookup recur callees visited out
    | false ↦ elim (lookup name) [
      | none ↦ visit_callees lookup recur callees (name ∷ visited) out
      | some (block, file_idx) ↦
          let (visited_after, out_after) = recur block file_idx (name ∷ visited) out in
          visit_callees lookup recur callees visited_after out_after
    ]
  ]

  -- `collect_blocks` with the number of levels that are left: two at the handler.
  unfoldable pub collect_blocks :
      (Text → Option (Block × ℕ))
      → (Block → List Text)
      → ℕ
      → Block
      → ℕ
      → List Text
      → List (Block × ℕ)
      → Collected
  unfolding visit_callees dedup
  collect_blocks lookup callees_in zero block file_idx visited out =
      (visited, out ++ ((block, file_idx) ∷ []))
  collect_blocks lookup callees_in (suc levels) block file_idx visited out =
      visit_callees lookup (λ b i v o. collect_blocks lookup callees_in levels b i v o)
        (dedup (sort_by text_cmp (callees_in block))) visited (out ++ ((block, file_idx) ∷ []))

  -- The handler's blocks.
  unfoldable pub handler_blocks :
      (Text → Option (Block × ℕ)) → (Block → List Text) → Text → Block → ℕ → List (Block × ℕ)
  unfolding collect_blocks
  handler_blocks lookup callees_in name block file_idx =
      (collect_blocks lookup callees_in 2 block file_idx (name ∷ []) []).1
