-- ===== src/Sat/Native/Validate/Pinned.antt =====
-- What `reachable_canonical` (crates/sat/src/native/rules/validate.rs) computes.
use solana_audit_toolkit.Prelude.{
  false_ne_true, Text, ℕ, zero, suc, ◌+◌, ◌≤◌, ◌==◌, ◌≡◌, refl, sym, ap, ◌⊎◌, inl, inr, Bool, true,
  false, not, ◌&&◌, Option, none, some, List, [], ◌∷◌, All, length, if◌then◌else◌, arith,
  Bool-cases, Option-cases, ==_iff,
}
use mathlib.Core.Path.{subst}
use solana_audit_toolkit.Sat.Native.Validate.{
  Node, Comparison, Half, halves, has, is_anchor, in_canonical, is_identity, is_pinned, pin,
  pin_all, rounds, reachable_canonical,
}

abbrev pub Occurs : Half → List Half → Type 0
Occurs x [] = ⊥
Occurs x (y ∷ ys) = (x ≡ y) ⊎ Occurs x ys

-- The account can be traced to canonical state: it is among the seeds, or its owner or key is compared
-- with an anchor, or with some field of an account that can be traced.
pub data Traced (hs : List Half) (seeds : List ℕ) : ℕ → Type 0 where
  seeded : (k : ℕ) → has seeds k ≡ true → Traced hs seeds k
  anchored :
      (k : ℕ) (h : Half) (field : Text)
      → Occurs h hs
      → h.node ≡ some (k, field)
      → is_identity field ≡ true
      → is_anchor h.other ≡ true
      → Traced hs seeds k
  compared :
      (k : ℕ) (h : Half) (field : Text) (j : ℕ) (other_field : Text)
      → Occurs h hs
      → h.node ≡ some (k, field)
      → is_identity field ≡ true
      → h.other_node ≡ some (j, other_field)
      → Traced hs seeds j
      → Traced hs seeds k

-- A half whose account is not canonical yet, though it is compared by owner or key with something
-- canonical.
abbrev pub is_pending : List ℕ → Half → Bool
is_pending canonical h = elim h.node [
  | none ↦ false
  | some (acc, field) ↦ not (has canonical acc) && (is_identity field && is_pinned canonical h)
]

pin-cases :
    (h : Half) (canonical : List ℕ) (b : Bool)
    → ((is_pending canonical h ≡ false) × (pin h (canonical, b) ≡ (canonical, b)))
      ⊎ ((acc : ℕ) × (field : Text) × (h.node ≡ some (acc, field))
          × (is_identity field ≡ true)
          × (is_pinned canonical h ≡ true)
          × (pin h (canonical, b) ≡ (acc ∷ canonical, true)))
unfolding pin
pin-cases h canonical b = go h.node refl
  where
    go :
        (o : Option Node)
        → h.node ≡ o
        → ((is_pending canonical h ≡ false) × (pin h (canonical, b) ≡ (canonical, b)))
          ⊎ ((acc : ℕ) × (field : Text) × (h.node ≡ some (acc, field))
              × (is_identity field ≡ true)
              × (is_pinned canonical h ≡ true)
              × (pin h (canonical, b) ≡ (acc ∷ canonical, true)))
    go none e = inl (rw e refl, rw (e, pin) refl)
    go (some (acc, field)) e = elim (Bool-cases (has canonical acc)) [
      | inl q ↦ inl (rw (e, q) refl, rw (e, q, pin) refl)
      | inr q ↦ elim (Bool-cases (is_identity field)) [
        | inr i ↦ inl (rw (e, q, i) refl, rw (e, q, i, pin) refl)
        | inl i ↦ elim (Bool-cases (is_pinned canonical h)) [
          | inr p ↦ inl (rw (e, q, i, p) refl, rw (e, q, i, p, pin) refl)
          | inl p ↦ inr (acc, field, e, i, p, rw (e, q, i, p, pin) refl)
        ]
      ]
    ]

-- What a pass over `gs` from `canonical` leads to: nothing, where nothing was pending, or more.
abbrev Outcome : List Half → List ℕ → Bool → List ℕ × Bool → Type 0
Outcome gs canonical b r =
    (length canonical ≤ length r.0)
    × (((r ≡ (canonical, b)) × All (λ h. is_pending canonical h ≡ false) gs)
        ⊎ ((r.1 ≡ true) × (length canonical + 1 ≤ length r.0)))

Outcome-kept :
    (g : Half) (gs : List Half) (c : List ℕ) (b : Bool) (r : List ℕ × Bool)
    → is_pending c g ≡ false
    → Outcome gs c b r
    → Outcome (g ∷ gs) c b r
Outcome-kept g gs c b r q (l, inl (e, a)) = (l, inl (e, (q, a)))
Outcome-kept g gs c b r q (l, inr k) = (l, inr k)

Outcome-added :
    (g : Half) (gs : List Half) (c : List ℕ) (acc : ℕ) (b : Bool) (r : List ℕ × Bool)
    → Outcome gs (acc ∷ c) true r
    → Outcome (g ∷ gs) c b r
Outcome-added g gs c acc b r (l, inl (e, a)) = (omega arith, inr (ap (λ s. s.1) e, omega arith))
Outcome-added g gs c acc b r (l, inr (e, k)) = (omega arith, inr (e, omega arith))

pin_all-cases :
    (gs : List Half) (canonical : List ℕ) (b : Bool)
    → Outcome gs canonical b (pin_all gs (canonical, b))
unfolding pin_all
pin_all-cases [] canonical b = (omega arith, inl (refl, tt))
pin_all-cases (g ∷ gs) canonical b = elim (pin-cases g canonical b) [
  | inl (q, e) ↦
      subst (λ s. Outcome (g ∷ gs) canonical b (pin_all gs s)) (sym e)
        (Outcome-kept g gs canonical b (pin_all gs (canonical, b)) q (pin_all-cases gs canonical b))
  | inr (acc, field, n, i, p, e) ↦
      subst (λ s. Outcome (g ∷ gs) canonical b (pin_all gs s)) (sym e)
        (Outcome-added g gs canonical acc b (pin_all gs (acc ∷ canonical, true))
          (pin_all-cases gs (acc ∷ canonical) true))
]

-- The rounds end closed, or each of them has found at least one more account.
rounds-cases :
    (n : ℕ) (hs : List Half) (canonical : List ℕ)
    → All (λ h. is_pending (rounds n hs canonical) h ≡ false) hs
      ⊎ (length canonical + n ≤ length (rounds n hs canonical))
unfolding rounds
rounds-cases zero hs canonical = inr (omega arith)
rounds-cases (suc n) hs canonical = elim (pin_all-cases hs canonical false).1 [
  | inl (e, a) ↦ inl (
      subst (λ s. All (λ h. is_pending (if s.1 then rounds n hs s.0 else s.0) h ≡ false) hs) (sym e)
        a)
  | inr (t, l) ↦ again t l (rounds-cases n hs (pin_all hs (canonical, false)).0)
]
  where
    again :
        (pin_all hs (canonical, false)).1 ≡ true
        → length canonical + 1 ≤ length (pin_all hs (canonical, false)).0
        → All (λ h. is_pending (rounds n hs (pin_all hs (canonical, false)).0) h ≡ false) hs
          ⊎ (length (pin_all hs (canonical, false)).0 + n
              ≤ length (rounds n hs (pin_all hs (canonical, false)).0))
        → All (λ h. is_pending (rounds (suc n) hs canonical) h ≡ false) hs
          ⊎ (length canonical + suc n ≤ length (rounds (suc n) hs canonical))
    again t l (inl a) = rw (t, rounds) (inl a)
    again t l (inr m) = rw (t, rounds) (inr (omega arith))

-- The eight rounds of `reachable_canonical` are enough unless each of them adds an account: either no
-- half of a comparison is left whose account is compared by owner or key with something canonical and
-- is not canonical itself, or at least eight accounts were added to the seeds.
pub reachable_canonical_closed :
    (cs : List Comparison) (seeds : List ℕ)
    → All (λ h. is_pending (reachable_canonical cs seeds) h ≡ false) (halves cs)
      ⊎ (length seeds + 8 ≤ length (reachable_canonical cs seeds))
unfolding reachable_canonical
reachable_canonical_closed cs seeds = rounds-cases 8 (halves cs) seeds

AllTraced : List Half → List ℕ → List ℕ → Type 0
AllTraced hs seeds canonical = (k : ℕ) → has canonical k ≡ true → Traced hs seeds k

pinned-Traced :
    (hs : List Half) (seeds : List ℕ) (h : Half) (canonical : List ℕ) (acc : ℕ) (field : Text)
    → Occurs h hs
    → h.node ≡ some (acc, field)
    → is_identity field ≡ true
    → is_pinned canonical h ≡ true
    → AllTraced hs seeds canonical
    → Traced hs seeds acc
unfolding AllTraced is_pinned in_canonical
pinned-Traced hs seeds h canonical acc field o n i p t = elim (Bool-cases (is_anchor h.other)) [
  | inl a ↦ anchored acc h field o n i a
  | inr a ↦ elim (Option-cases h.other_node) [
    | inl none_there ↦ absurd (false_ne_true (rw (a, none_there) at p))
    | inr ((j, other_field), e) ↦ compared acc h field j other_field o n i e (t j (rw (a, e) at p))
  ]
]

added_traced :
    (hs : List Half) (seeds : List ℕ) (h : Half) (canonical : List ℕ) (acc : ℕ) (field : Text)
    → Occurs h hs
    → h.node ≡ some (acc, field)
    → is_identity field ≡ true
    → is_pinned canonical h ≡ true
    → AllTraced hs seeds canonical
    → AllTraced hs seeds (acc ∷ canonical)
unfolding AllTraced
added_traced hs seeds h canonical acc field o n i p t k q = elim (Bool-cases (acc == k)) [
  | inl e ↦
      let same : acc ≡ k = (==_iff acc k).0 e in
      subst (Traced hs seeds) same (pinned-Traced hs seeds h canonical acc field o n i p t)
  | inr e ↦ t k (rw e at q)
]

pin-AllTraced :
    (hs : List Half) (seeds : List ℕ) (h : Half) (canonical : List ℕ) (b : Bool)
    → Occurs h hs
    → AllTraced hs seeds canonical
    → AllTraced hs seeds (pin h (canonical, b)).0
unfolding AllTraced
pin-AllTraced hs seeds h canonical b o t = elim (pin-cases h canonical b) [
  | inl (q, e) ↦ rw e t
  | inr (acc, field, n, i, p, e) ↦ rw e (added_traced hs seeds h canonical acc field o n i p t)
]

pin_all-AllTraced :
    (hs : List Half) (seeds : List ℕ) (gs : List Half) (canonical : List ℕ) (b : Bool)
    → ((h : Half) → Occurs h gs → Occurs h hs)
    → AllTraced hs seeds canonical
    → AllTraced hs seeds (pin_all gs (canonical, b)).0
unfolding pin_all
pin_all-AllTraced hs seeds [] canonical b o t = t
pin_all-AllTraced hs seeds (g ∷ gs) canonical b o t =
    pin_all-AllTraced hs seeds gs (pin g (canonical, b)).0 (pin g (canonical, b)).1
      (λ h m. o h (inr m)) (pin-AllTraced hs seeds g canonical b (o g (inl refl)) t)

rounds-AllTraced :
    (n : ℕ) (hs : List Half) (seeds canonical : List ℕ)
    → AllTraced hs seeds canonical
    → AllTraced hs seeds (rounds n hs canonical)
unfolding rounds
rounds-AllTraced zero hs seeds canonical t = t
rounds-AllTraced (suc n) hs seeds canonical t =
    let next = pin_all-AllTraced hs seeds hs canonical false (λ h m. m) t in
    elim (Bool-cases (pin_all hs (canonical, false)).1) [
      | inl e ↦ rw (e, rounds) (rounds-AllTraced n hs seeds (pin_all hs (canonical, false)).0 next)
      | inr e ↦ rw (e, rounds) next
    ]

-- Every account that `reachable_canonical` returns can be traced to the seeds or to an anchor through
-- the comparisons.
pub reachable_canonical-Traced :
    (cs : List Comparison) (seeds : List ℕ) (k : ℕ)
    → has (reachable_canonical cs seeds) k ≡ true
    → Traced (halves cs) seeds k
unfolding reachable_canonical AllTraced
reachable_canonical-Traced cs seeds k h =
    rounds-AllTraced 8 (halves cs) seeds seeds (λ j q. seeded j q) k h
