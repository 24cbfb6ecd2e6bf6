-- ===== src/Sat/Native/Resolver/Positions.antt =====
-- The accounts that the resolution emits (crates/sat/src/native/frontend.rs) stand at their positions.
use solana_audit_toolkit.Prelude.{
  false_ne_true, Text, ℕ, zero, suc, ◌+◌, ◌≤◌, ◌<◌, ◌≡◌, ◌≢◌, ◌⊎◌, inl, inr, refl, sym, ap, ◌∙◌,
  true, false, ◌||◌, ◌==◌, max, compare, Ordering, Option, none, some, List, [], ◌∷◌, map, All,
  All-imp, IsPairwise, sort_by_sorted, length, length-map, arith, compare-ne-gt, unwrap_or,
  if◌then◌else◌, Bool-cases, Option-cases,
}
use solana_audit_toolkit.Sat.Native.Model.{AccountKind, ResolvedAccount, is_unchecked}
use solana_audit_toolkit.Sat.Native.Kinds.{kind_from_name}
use solana_audit_toolkit.Sat.Native.Resolver.{
  AccountTable, ResolutionState, new_state, ensure, fresh_account, name_entry, bind, bind_field,
  set_signer_checked, set_owner_checked, set_key_checked, set_written, set_pda, add_seeds, consumed,
  consume, ensure_range, max_key, filled, by_index, finish_accounts,
}
use solana_audit_toolkit.Sat.Native.Resolver.Table.{
  IsTable, has_key, upsert-has_key, upsert-All, upsert-IsTable,
}

-- The states that the walk leads to. Besides the operations, it writes its cursors and its maps from names
-- directly: where it slices or splits the accounts, binds the fields of a struct, and enters and leaves a
-- helper. The last constructor has any such write, of any of the four fields; none writes the table.
pub data Reaches : ResolutionState → Type 0 where
  start : Reaches new_state
  after_bind :
      (name : Text) (idx : ℕ) (kind : Option AccountKind) {st : ResolutionState}
      → Reaches st
      → Reaches (bind name idx kind st)
  after_bind_field :
      (name : Text) (idx : ℕ) (kind : AccountKind) {st : ResolutionState}
      → Reaches st
      → Reaches (bind_field name idx kind st)
  after_signer : (idx : ℕ) {st : ResolutionState} → Reaches st → Reaches (set_signer_checked idx st)
  after_owner : (idx : ℕ) {st : ResolutionState} → Reaches st → Reaches (set_owner_checked idx st)
  after_key : (idx : ℕ) {st : ResolutionState} → Reaches st → Reaches (set_key_checked idx st)
  after_written : (idx : ℕ) {st : ResolutionState} → Reaches st → Reaches (set_written idx st)
  after_pda :
      (idx : ℕ) (seeds : List Text) {st : ResolutionState}
      → Reaches st
      → Reaches (set_pda idx seeds st)
  after_consume : (iter : Text) {st : ResolutionState} → Reaches st → Reaches (consume iter st).1
  after_tracking :
      (next_index base : ℕ) (slices named : List (Text × ℕ)) {st : ResolutionState}
      → Reaches st
      → Reaches (record st { next_index = next_index; base = base; slices = slices; named = named })

ensure-IsTable :
    (i : ℕ) (f : ResolvedAccount → ResolvedAccount) (t : AccountTable)
    → ((a : ResolvedAccount) → (f a).index ≡ a.index)
    → IsTable t
    → IsTable (ensure i f t)
unfolding ensure fresh_account
ensure-IsTable i f t g v = upsert-IsTable i (fresh_account i) f t refl g v

Reaches-IsTable : {st : ResolutionState} → Reaches st → IsTable st.table
unfolding bind bind_field set_signer_checked set_owner_checked set_key_checked set_written set_pda
    consume name_entry
Reaches-IsTable start = record { rising = tt; in_place = tt }
Reaches-IsTable (after_bind name idx kind {st} h) =
    ensure-IsTable idx (name_entry idx name (unwrap_or kind (kind_from_name name))) st.table
      (λ a. refl) (Reaches-IsTable h)
Reaches-IsTable (after_bind_field name idx kind {st} h) =
    ensure-IsTable idx
      (name_entry idx name (if is_unchecked kind then kind_from_name name else kind)) st.table
      (λ a. refl) (Reaches-IsTable h)
Reaches-IsTable (after_signer idx {st} h) =
    ensure-IsTable idx (λ a. record a { is_signer_checked = true }) st.table (λ a. refl)
      (Reaches-IsTable h)
Reaches-IsTable (after_owner idx {st} h) =
    ensure-IsTable idx (λ a. record a { owner_checked = true }) st.table (λ a. refl)
      (Reaches-IsTable h)
Reaches-IsTable (after_key idx {st} h) =
    ensure-IsTable idx (λ a. record a { key_checked = true }) st.table (λ a. refl)
      (Reaches-IsTable h)
Reaches-IsTable (after_written idx {st} h) =
    ensure-IsTable idx (λ a. record a { written = true }) st.table (λ a. refl) (Reaches-IsTable h)
Reaches-IsTable (after_pda idx seeds {st} h) =
    ensure-IsTable idx (λ a. record a { is_pda = true; seeds = add_seeds seeds a.seeds }) st.table
      (λ a. refl) (Reaches-IsTable h)
Reaches-IsTable (after_consume iter {st} h) =
    ensure-IsTable (consumed iter st) (λ a. a) st.table (λ a. refl) (Reaches-IsTable h)
Reaches-IsTable (after_tracking next_index base slices named h) = Reaches-IsTable h

ensure_range-IsTable : (n i : ℕ) (t : AccountTable) → IsTable t → IsTable (ensure_range n i t)
unfolding ensure_range
ensure_range-IsTable zero i t v = v
ensure_range-IsTable (suc n) i t v =
    ensure_range-IsTable n (suc i) (ensure i (λ a. a) t) (ensure-IsTable i (λ a. a) t (λ a. refl) v)

ensure_range_kept :
    (n i k : ℕ) (t : AccountTable) → has_key k t ≡ true → has_key k (ensure_range n i t) ≡ true
unfolding ensure_range ensure
ensure_range_kept zero i k t h = h
ensure_range_kept (suc n) i k t h =
    ensure_range_kept n (suc i) k (ensure i (λ a. a) t)
      (ground (arith, upsert-has_key i k (fresh_account i) (λ a. a) t))

ensure_range-has_key :
    (n i k : ℕ) (t : AccountTable) → i ≤ k → k < i + n → has_key k (ensure_range n i t) ≡ true
unfolding ensure_range ensure
ensure_range-has_key zero i k t h l = absurd (omega arith)
ensure_range-has_key (suc n) i k t h l = elim (Bool-cases (i == k)) [
  | inl e ↦
      ensure_range_kept n (suc i) k (ensure i (λ a. a) t)
        (ground (arith, upsert-has_key i k (fresh_account i) (λ a. a) t))
  | inr e ↦ ensure_range-has_key n (suc i) k (ensure i (λ a. a) t) (ground arith) (omega arith)
]

ensure_range_below :
    (n i m : ℕ) (t : AccountTable)
    → i + n ≤ m
    → All (λ (x : ℕ × ResolvedAccount). x.0 < m) t
    → All (λ (x : ℕ × ResolvedAccount). x.0 < m) (ensure_range n i t)
unfolding ensure_range ensure
ensure_range_below zero i m t h k = k
ensure_range_below (suc n) i m t h k =
    ensure_range_below n (suc i) m (ensure i (λ a. a) t) (omega arith) (
      upsert-All (λ (x : ℕ × ResolvedAccount). x.0 < m) i (fresh_account i) (λ a. a) t (omega arith)
        (λ a j p. p) k)

some_inj : (j k : ℕ) → some j ≡ some k → j ≡ k
some_inj j k q = cc

max_key-All :
    (t : AccountTable) (m : ℕ)
    → ((k : ℕ) → max_key t ≡ some k → k < m)
    → All (λ (x : ℕ × ResolvedAccount). x.0 < m) t
unfolding max_key
max_key-All [] m h = tt
max_key-All (e ∷ es) m h = elim (Option-cases (max_key es)) [
  | inl o ↦ (h e.0 (rw o refl), max_key-All es m (λ k q. absurd (some_ne_none k (sym q ∙ o))))
  | inr (k, o) ↦
      let below : max e.0 k < m = h (max e.0 k) (rw o refl) in
      (
        omega arith,
        max_key-All es m (λ j q. let same : j ≡ k = some_inj j k (sym q ∙ o) in omega arith),
      )
]
  where
    some_ne_none : (k : ℕ) → some k ≢ none
    some_ne_none k q = cc

-- `n` positions from `lo` on.
abbrev pub positions : ℕ → ℕ → List ℕ
positions lo zero = []
positions lo (suc n) = lo ∷ positions (suc lo) n

no_earlier :
    (k : ℕ) (t : AccountTable) → All (λ (x : ℕ × ResolvedAccount). k < x.0) t → has_key k t ≢ true
no_earlier k [] l h = cc
no_earlier k (e ∷ es) l h = no_earlier k es l.1 (ground arith)

-- Entries that rise and fill a range are those of the range.
rising_full :
    (lo n : ℕ) (t : AccountTable)
    → IsPairwise (λ (x y : ℕ × ResolvedAccount). x.0 < y.0) t
    → All (λ (x : ℕ × ResolvedAccount). lo ≤ x.0) t
    → All (λ (x : ℕ × ResolvedAccount). x.0 < lo + n) t
    → ((k : ℕ) → lo ≤ k → k < lo + n → has_key k t ≡ true)
    → map (λ (x : ℕ × ResolvedAccount). x.0) t ≡ positions lo n
rising_full lo zero [] r a b f = refl
rising_full lo (suc n) [] r a b f = absurd (false_ne_true (f lo (omega arith) (omega arith)))
rising_full lo zero (e ∷ es) r a b f = absurd (omega arith)
rising_full lo (suc n) (e ∷ es) r a b f =
    let here : e.0 ≡ lo = first_is_lo (Bool-cases (e.0 == lo)) in
    cons_eq here (
      rising_full (suc lo) n es r.1 (All-imp (λ x l. omega arith) es r.0)
        (All-imp (λ x l. omega arith) es b.1)
        (λ k l h. later k (ground arith) (f k (omega arith) (omega arith))))
  where
    later : (k : ℕ) → (e.0 == k) ≡ false → ((e.0 == k) || has_key k es) ≡ true → has_key k es ≡ true
    later k q h = ground arith

    first_is_lo : ((e.0 == lo) ≡ true) ⊎ ((e.0 == lo) ≡ false) → e.0 ≡ lo
    first_is_lo (inl q) = ground arith
    first_is_lo (inr q) = absurd (
        no_earlier lo es (All-imp (λ x l. omega arith) es r.0)
          (later lo q (f lo (omega arith) (omega arith))))

    cons_eq : {x y : ℕ} {xs ys : List ℕ} → x ≡ y → xs ≡ ys → x ∷ xs ≡ y ∷ ys
    cons_eq q h = rw (q, h) refl

map-index :
    (t : AccountTable)
    → All (λ (x : ℕ × ResolvedAccount). x.1.index ≡ x.0) t
    → map (λ (a : ResolvedAccount). a.index) (map (λ (e : ℕ × ResolvedAccount). e.1) t)
      ≡ map (λ (x : ℕ × ResolvedAccount). x.0) t
map-index [] h = refl
map-index (e ∷ es) h = rw (h.0, map-index es h.1) refl

accounts_rise :
    (t : AccountTable)
    → IsTable t
    → IsPairwise
        (λ (a b : ResolvedAccount). compare a.index b.index ≢ Ordering.gt)
        (map (λ (e : ℕ × ResolvedAccount). e.1) t)
accounts_rise [] v = tt
accounts_rise (e ∷ es) v = (
  later es v.in_place.0 v.rising.0 v.in_place.1,
  accounts_rise es (record { rising = v.rising.1; in_place = v.in_place.1 }),
)
  where
    later :
        (t : AccountTable)
        → e.1.index ≡ e.0
        → All (λ (x : ℕ × ResolvedAccount). e.0 < x.0) t
        → All (λ (x : ℕ × ResolvedAccount). x.1.index ≡ x.0) t
        → All
            (λ (b : ResolvedAccount). compare e.1.index b.index ≢ Ordering.gt)
            (map (λ (x : ℕ × ResolvedAccount). x.1) t)
    later [] p l q = tt
    later (x ∷ xs) p l q = (compare-ne-gt e.1.index x.1.index (omega arith), later xs p l.1 q.1)

-- The accounts of a table are emitted in the order of their positions.
pub by_index_lem :
    (t : AccountTable) → IsTable t → by_index t ≡ map (λ (e : ℕ × ResolvedAccount). e.1) t
unfolding by_index
by_index_lem t v = sort_by_sorted _ (map (λ (e : ℕ × ResolvedAccount). e.1) t) (accounts_rise t v)

filled-none : (t : AccountTable) → max_key t ≡ none → filled t ≡ t
unfolding filled
filled-none t o = rw (o, filled) refl

filled-some : (t : AccountTable) (m : ℕ) → max_key t ≡ some m → filled t ≡ ensure_range (suc m) 0 t
unfolding filled
filled-some t m o = rw (o, filled) refl

max_key-none : (t : AccountTable) → max_key t ≡ none → t ≡ []
unfolding max_key
max_key-none [] o = refl
max_key-none (e ∷ es) o = elim (Option-cases (max_key es)) [
  | inl q ↦ absurd (some_ne_none (rw q at o))
  | inr (m, q) ↦ absurd (some_ne_none (rw q at o))
]
  where
    some_ne_none : {k : ℕ} → some k ≢ none
    some_ne_none q = cc

filled-IsTable : (t : AccountTable) → IsTable t → IsTable (filled t)
unfolding filled
filled-IsTable t v = elim (Option-cases (max_key t)) [
  | inl o ↦ rw (filled-none t o) v
  | inr (m, o) ↦ rw (filled-some t m o) (ensure_range-IsTable (suc m) 0 t v)
]

-- The keys of a filled table are all positions from 0 on.
filled-positions :
    (t : AccountTable)
    → IsTable t
    → (n : ℕ) × (map (λ (x : ℕ × ResolvedAccount). x.0) (filled t) ≡ positions 0 n)
unfolding filled
filled-positions t v = elim (Option-cases (max_key t)) [
  | inl o ↦ (0, ap (map (λ (x : ℕ × ResolvedAccount). x.0)) (filled-none t o ∙ max_key-none t o))
  | inr (m, o) ↦ (
    suc m,
    rw (filled-some t m o) (
        rising_full 0 (suc m) (ensure_range (suc m) 0 t) (ensure_range-IsTable (suc m) 0 t v).rising
          (any_below (ensure_range (suc m) 0 t))
          (All-imp (λ x l. omega arith) (ensure_range (suc m) 0 t)
            (ensure_range_below (suc m) 0 (suc m) t (omega arith)
              (max_key-All t (suc m) (λ k q. below k m (sym q ∙ o)))))
          (λ k l h. ensure_range-has_key (suc m) 0 k t (omega arith) (omega arith))),
  )
]
  where
    any_below : (u : AccountTable) → All (λ (x : ℕ × ResolvedAccount). 0 ≤ x.0) u
    any_below [] = tt
    any_below (x ∷ xs) = (omega arith, any_below xs)

    below : (k m : ℕ) → some k ≡ some m → k < suc m
    below k m q = let same : k ≡ m = some_inj k m q in omega arith

length-positions : (lo n : ℕ) → length (positions lo n) ≡ n
length-positions lo zero = refl
length-positions lo (suc n) = ap suc (length-positions (suc lo) n)

-- Whatever operations the walk makes, in whatever order, and whatever it writes between them to the cursors
-- and to the maps from names, the accounts that are emitted stand at the positions 0, 1, 2 and so on,
-- without a gap and each once: the order is that of the account metas.
pub finish_accounts-positions :
    (st : ResolutionState)
    → Reaches st
    → map (λ (a : ResolvedAccount). a.index) (finish_accounts st)
      ≡ positions 0 (length (finish_accounts st))
unfolding finish_accounts
finish_accounts-positions st h =
    let v = filled-IsTable st.table (Reaches-IsTable h) in
    let (n, k) = filled-positions st.table (Reaches-IsTable h) in
    rw (by_index_lem (filled st.table) v) (
      numbered (map (λ (e : ℕ × ResolvedAccount). e.1) (filled st.table)) n
        (map-index (filled st.table) v.in_place ∙ k))
  where
    numbered :
        (xs : List ResolvedAccount) (n : ℕ)
        → map (λ (a : ResolvedAccount). a.index) xs ≡ positions 0 n
        → map (λ (a : ResolvedAccount). a.index) xs ≡ positions 0 (length xs)
    numbered xs n k =
        k
        ∙ ap (positions 0)
            (sym (length-positions 0 n) ∙ (sym (ap length k) ∙ length-map (λ a. a.index) xs))
