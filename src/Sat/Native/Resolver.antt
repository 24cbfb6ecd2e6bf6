-- ===== src/Sat/Native/Resolver.antt =====
-- crates/sat/src/native/frontend.rs: the account table that the walk over a handler fills. Which
-- operations the walk makes, in which order, is read off syntax trees and not modelled; the fields of
-- the state that only the walk reads are left out.
pub mod Table
pub mod Positions
use solana_audit_toolkit.Prelude.{
  Text, codes, text_eq, decimal, ℕ, zero, suc, ◌+◌, max, ltb, ◌==◌, compare, Ordering, Bool, true,
  false, not, ◌&&◌, Option, none, some, List, [], ◌∷◌, ◌++◌, map, any, is_empty, unwrap_or, sort_by,
  if◌then◌else◌,
}
use solana_audit_toolkit.Sat.Native.Model.{AccountKind, unchecked, ResolvedAccount, is_unchecked}
use solana_audit_toolkit.Sat.Native.Kinds.{kind_from_name}

-- A hash map of accounts by position, as the list of its entries by rising key: nothing that is
-- modelled reads its order but the final sort.
abbrev pub AccountTable : Type 0
AccountTable = List (ℕ × ResolvedAccount)

pub record ResolutionState : Type 0 where
  pub table : AccountTable
  pub next_index : ℕ
  pub base : ℕ
  pub slices : List (Text × ℕ)
  pub named : List (Text × ℕ)

-- `ResolutionState::new`
abbrev pub new_state : ResolutionState
new_state = record { table = []; next_index = 0; base = 0; slices = []; named = [] }

unfoldable pub fallback_name : ℕ → Text
fallback_name idx = codes "account_" ++ decimal idx

unfoldable pub fresh_account : ℕ → ResolvedAccount
fresh_account idx = record {
  name = fallback_name idx;
  index = idx;
  kind = unchecked;
  is_signer_checked = false;
  owner_checked = false;
  key_checked = false;
  written = false;
  seeds = [];
  is_pda = false;
}

-- `entry(idx).or_insert(d)`, and the change `f` that the caller makes to the entry.
unfoldable pub upsert :
    ℕ → ResolvedAccount → (ResolvedAccount → ResolvedAccount) → AccountTable → AccountTable
upsert idx d f [] = (idx, f d) ∷ []
upsert idx d f (e ∷ es) =
    let rest = upsert idx d f es in
    elim (compare idx e.0) [
      | Ordering.lt ↦ (idx, f d) ∷ e ∷ es
      | Ordering.eq ↦ (e.0, f e.1) ∷ es
      | Ordering.gt ↦ e ∷ rest
    ]

-- `ensure(idx)`, and the change that the caller makes.
unfoldable pub ensure : ℕ → (ResolvedAccount → ResolvedAccount) → AccountTable → AccountTable
unfolding upsert fresh_account
ensure idx f t = upsert idx (fresh_account idx) f t

-- `insert` of a map from names.
unfoldable pub insert_name : Text → ℕ → List (Text × ℕ) → List (Text × ℕ)
insert_name name idx [] = (name, idx) ∷ []
insert_name name idx (e ∷ es) =
    let rest = insert_name name idx es in if text_eq e.0 name then (name, idx) ∷ es else e ∷ rest

unfoldable pub get_name : Text → List (Text × ℕ) → Option ℕ
get_name name [] = none
get_name name (e ∷ es) = let rest = get_name name es in if text_eq e.0 name then some e.1 else rest

-- The change that `bind` and `bind_field` make to the entry.
unfoldable pub name_entry : ℕ → Text → AccountKind → ResolvedAccount → ResolvedAccount
name_entry idx name inferred a = record a {
  name = if text_eq a.name (fallback_name idx) then name else a.name;
  kind = if is_unchecked a.kind && not (is_unchecked inferred) then inferred else a.kind;
}

unfoldable pub bind : Text → ℕ → Option AccountKind → ResolutionState → ResolutionState
unfolding ensure insert_name name_entry
bind name idx kind st = record st {
  table = ensure idx (name_entry idx name (unwrap_or kind (kind_from_name name))) st.table;
  named = insert_name name idx st.named;
  next_index = max st.next_index (idx + 1);
}

unfoldable pub bind_field : Text → ℕ → AccountKind → ResolutionState → ResolutionState
unfolding ensure name_entry
bind_field name idx kind st = record st {
  table =
      ensure idx (name_entry idx name (if is_unchecked kind then kind_from_name name else kind))
        st.table;
}

unfoldable pub set_signer_checked : ℕ → ResolutionState → ResolutionState
set_signer_checked idx st = record st {
  table = ensure idx (λ a. record a { is_signer_checked = true }) st.table;
}

unfoldable pub set_owner_checked : ℕ → ResolutionState → ResolutionState
set_owner_checked idx st = record st {
  table = ensure idx (λ a. record a { owner_checked = true }) st.table;
}

unfoldable pub set_key_checked : ℕ → ResolutionState → ResolutionState
set_key_checked idx st = record st {
  table = ensure idx (λ a. record a { key_checked = true }) st.table;
}

unfoldable pub set_written : ℕ → ResolutionState → ResolutionState
set_written idx st = record st { table = ensure idx (λ a. record a { written = true }) st.table }

-- The loop of `set_pda` over the seeds.
unfoldable pub add_seeds : List Text → List Text → List Text
add_seeds [] known = known
add_seeds (s ∷ ss) known =
    add_seeds ss (if not (any (λ k. text_eq k s) known) then known ++ (s ∷ []) else known)

unfoldable pub set_pda : ℕ → List Text → ResolutionState → ResolutionState
unfolding add_seeds
set_pda idx seeds st = record st {
  table = ensure idx (λ a. record a { is_pda = true; seeds = add_seeds seeds a.seeds }) st.table;
}

-- The position that `consume` takes.
unfoldable pub consumed : Text → ResolutionState → ℕ
consumed iter st = if is_empty iter then st.base else unwrap_or (get_name iter st.slices) st.base

unfoldable pub consume : Text → ResolutionState → ℕ × ResolutionState
unfolding consumed
consume iter st =
    let idx = consumed iter st in
    (
      idx,
      record st {
        table = ensure idx (λ a. a) st.table;
        slices = if not (is_empty iter) then insert_name iter (idx + 1) st.slices else st.slices;
        base = max st.base (idx + 1);
        next_index = max st.next_index (idx + 1);
      },
    )

-- `ensure(i)` for the `n` positions from `i` on.
unfoldable pub ensure_range : ℕ → ℕ → AccountTable → AccountTable
unfolding ensure
ensure_range zero i t = t
ensure_range (suc n) i t = ensure_range n (suc i) (ensure i (λ a. a) t)

-- `keys().max()`
unfoldable pub max_key : AccountTable → Option ℕ
max_key [] = none
max_key (e ∷ es) = elim (max_key es) [ none ↦ some e.0 | some m ↦ some (max e.0 m) ]

unfoldable pub filled : AccountTable → AccountTable
unfolding ensure_range max_key
filled t = elim (max_key t) [ none ↦ t | some m ↦ ensure_range (suc m) 0 t ]

-- The accounts of a table, by position.
unfoldable pub by_index : AccountTable → List ResolvedAccount
by_index t = sort_by (λ a b. compare a.index b.index) (map (λ (e : ℕ × ResolvedAccount). e.1) t)

unfoldable pub finish_accounts : ResolutionState → List ResolvedAccount
unfolding filled by_index
finish_accounts st = by_index (filled st.table)

-- What a shank account changes in the entry at its position.
unfoldable pub merge_entry : ResolvedAccount → ResolvedAccount → ResolvedAccount
merge_entry s e = record e {
  name = if not (text_eq s.name (fallback_name s.index)) then s.name else e.name;
  kind = if is_unchecked e.kind then s.kind else e.kind;
}

-- The loop over the handler's accounts.
unfoldable pub insert_all : List ResolvedAccount → AccountTable → AccountTable
unfolding upsert
insert_all [] t = t
insert_all (a ∷ rest) t = insert_all rest (upsert a.index a (λ _. a) t)

-- The loop over the shank accounts.
unfoldable pub merge_all : List ResolvedAccount → AccountTable → AccountTable
unfolding upsert merge_entry
merge_all [] t = t
merge_all (s ∷ ss) t = merge_all ss (upsert s.index s (merge_entry s) t)

unfoldable pub merge_shank_accounts :
    List ResolvedAccount → List ResolvedAccount → List ResolvedAccount
unfolding insert_all merge_all by_index
merge_shank_accounts handler shank = by_index (merge_all shank (insert_all handler []))
