-- ===== src/Sat/Native/Callees/Reached.antt =====
-- crates/sat/src/native/rules/cpi.rs: every block collected is reached from the handler by calls.
use mathlib.Core.List.{Memᴰ}
use solana_audit_toolkit.Prelude.{
  Text, text_eq, text_cmp, sort_by, sort_by-All, ℕ, zero, suc, ◌≡◌, refl, Option, some, List, [],
  ◌∷◌, ◌++◌, All, All-imp, All-append, Bool-cases, Option-cases, inl, inr,
}
use solana_audit_toolkit.Sat.Native.Callees.{
  dedup, is_visited, Collected, visit_callees, collect_blocks, handler_blocks,
}

All-self {ℓ} : {A : Type ℓ} (xs : List A) → All (λ x. Memᴰ x xs) xs
All-self [] = tt
All-self (x ∷ xs) = (Memᴰ.head refl, All-imp (λ y m. Memᴰ.tail m) xs (All-self xs))

dedup-All {ℓ} : (P : Text → Type ℓ) (ts : List Text) → All P ts → All P (dedup ts)
unfolding dedup
dedup-All P [] h = tt
dedup-All P (t ∷ []) h = h
dedup-All P (t ∷ u ∷ ts) h = elim (Bool-cases (text_eq t u)) [
  | inl e ↦ rw (e, dedup) (dedup-All P (u ∷ ts) h.1)
  | inr e ↦ rw (e, dedup) (h.0, dedup-All P (u ∷ ts) h.1)
]

module _ (Block : Type 0) (lookup : Text → Option (Block × ℕ))
    (callees_in : Block → List Text) where
  -- The second block is reached from the first by at most the given number of calls, each of a name that the
  -- calling block calls.
  pub data Reached : ℕ → Block × ℕ → Block × ℕ → Type 0 where
    itself : (levels : ℕ) (at_block : Block × ℕ) → Reached levels at_block at_block
    calls :
        (levels : ℕ) (caller callee other : Block × ℕ) (name : Text)
        → Memᴰ name (callees_in caller.0)
        → lookup name ≡ some callee
        → Reached levels callee other
        → Reached (suc levels) caller other

  module _ {ℓ} (P : Block × ℕ → Type ℓ) where
    visit_callees-All :
        (recur : Block → ℕ → List Text → List (Block × ℕ) → Collected Block)
        (names visited : List Text) (out : List (Block × ℕ))
        → All P out
        → All
            (λ (name : Text).
              (callee : Block × ℕ)
              → lookup name ≡ some callee
              → (v : List Text) (o : List (Block × ℕ)) → All P o
              → All P (recur callee.0 callee.1 v o).1)
            names
        → All P (visit_callees Block lookup recur names visited out).1
    unfolding visit_callees
    visit_callees-All recur [] visited out h k = h
    visit_callees-All recur (name ∷ names) visited out h k =
        elim (Bool-cases (is_visited visited name)) [
          | inl e ↦ rw (e, visit_callees) (visit_callees-All recur names visited out h k.1)
          | inr e ↦ elim (Option-cases (lookup name)) [
            | inl n ↦
                rw (e, n, visit_callees) (visit_callees-All recur names (name ∷ visited) out h k.1)
            | inr ((b, i), n) ↦
                rw (e, n, visit_callees)
                  (visit_callees-All recur names (recur b i (name ∷ visited) out).0
                    (recur b i (name ∷ visited) out).1 (k.0 (b, i) n (name ∷ visited) out h) k.1)
          ]
        ]

    collect_blocks-All :
        (levels : ℕ) (block : Block) (file_idx : ℕ) (visited : List Text) (out : List (Block × ℕ))
        → All P out
        → ((other : Block × ℕ) → Reached levels (block, file_idx) other → P other)
        → All P (collect_blocks Block lookup callees_in levels block file_idx visited out).1
    unfolding collect_blocks
    collect_blocks-All zero block file_idx visited out h k =
        All-append P out ((block, file_idx) ∷ []) h
          (k (block, file_idx) (itself zero (block, file_idx)), tt)
    collect_blocks-All (suc levels) block file_idx visited out h k =
        visit_callees-All (λ b i v o. collect_blocks Block lookup callees_in levels b i v o)
          (dedup (sort_by text_cmp (callees_in block))) visited (out ++ ((block, file_idx) ∷ []))
          (All-append P out ((block, file_idx) ∷ []) h
            (k (block, file_idx) (itself (suc levels) (block, file_idx)), tt))
          (All-imp
            (λ name m callee found v o p.
              collect_blocks-All levels callee.0 callee.1 v o p
                (λ other r. k other (calls levels (block, file_idx) callee other name m found r)))
            (dedup (sort_by text_cmp (callees_in block)))
            (dedup-All (λ name. Memᴰ name (callees_in block)) (sort_by text_cmp (callees_in block))
              (sort_by-All text_cmp (λ name. Memᴰ name (callees_in block)) (callees_in block)
                (All-self (callees_in block)))))

  -- Every block collected for a handler is its own or reached from it by at most two calls.
  pub handler_blocks-Reached :
      (name : Text) (block : Block) (file_idx : ℕ)
      → All
          (Reached 2 (block, file_idx))
          (handler_blocks Block lookup callees_in name block file_idx)
  unfolding handler_blocks
  handler_blocks-Reached name block file_idx =
      collect_blocks-All (Reached 2 (block, file_idx)) 2 block file_idx (name ∷ []) [] tt
        (λ other r. r)
