-- ===== src/Sat/Cpi/Chains.antt =====
-- crates/sat/src/cpi.rs: the depth of an instruction against the chains of invocations of the call graph.
use mathlib.Core.Path.{subst}
use mathlib.Core.List.Memᴰ
use mathlib.Core.List.{Memᴰ}
use solana_audit_toolkit.Prelude.{
  Text, text_eq_refl, ℕ, zero, suc, ◌+◌, ◌≤◌, ltb, ◌≡◌, refl, sym, ap, ◌∙◌, Bool, true, false, ◌&&◌,
  List, [], ◌∷◌, Bool-cases, inl, inr, arith,
}
use solana_audit_toolkit.Sat.Cpi.{
  CpiCall, calls_of, visits, visit_call, visit_calls, compute_max_depth, depth_of,
}
use solana_audit_toolkit.Sat.Cpi.Depth.{Restores, visit_call_restored, compute_max_depth-Restores}

-- The call is counted: its target is known and is an instruction of the program.
abbrev pub is_counted : CpiCall → Bool
is_counted call = call.is_internal && call.resolved

-- A chain of invocations of the given length from an instruction.
pub data Chain (graph : List (Text × List CpiCall)) : Text → ℕ → Type 0 where
  stays : (node : Text) → Chain graph node 0
  invokes :
      (node : Text) (call : CpiCall) (k : ℕ)
      → Memᴰ call (calls_of graph node)
      → is_counted call ≡ true
      → Chain graph call.callee k
      → Chain graph node (suc k)

-- A chain that enters no instruction twice, nor one of the given ones; its last instruction is not
-- entered.
pub data SimpleChain (graph : List (Text × List CpiCall)) : List Text → Text → ℕ → Type 0 where
  stays : (entered : List Text) (node : Text) → SimpleChain graph entered node 0
  invokes :
      (entered : List Text) (node : Text) (call : CpiCall) (k : ℕ)
      → visits entered node ≡ false
      → Memᴰ call (calls_of graph node)
      → is_counted call ≡ true
      → SimpleChain graph (node ∷ entered) call.callee k
      → SimpleChain graph entered node (suc k)

module _ (recur : Text → List Text → ℕ × List Text) (r : Restores recur) where
  visit_call_holds {ℓ} :
      (P : ℕ → Type ℓ) (c : CpiCall) (deepest : ℕ) (visiting : List Text)
      → P deepest
      → (is_counted c ≡ true → P (recur c.callee visiting).0)
      → P (visit_call recur c deepest visiting).0
  unfolding visit_call
  visit_call_holds P c deepest v p h = elim (Bool-cases (c.is_internal && c.resolved)) [
    | inr e ↦ rw (e, visit_call) p
    | inl e ↦ elim (Bool-cases (ltb deepest (recur c.callee v).0)) [
      | inl q ↦ rw (e, q, visit_call) (h e)
      | inr q ↦ rw (e, q, visit_call) p
    ]
  ]

  visit_call_least :
      (c : CpiCall) (deepest : ℕ) (visiting : List Text)
      → deepest ≤ (visit_call recur c deepest visiting).0
  unfolding visit_call
  visit_call_least c deepest v = ground arith

  visit_call_reaches :
      (c : CpiCall) (deepest : ℕ) (visiting : List Text)
      → is_counted c ≡ true
      → (recur c.callee visiting).0 ≤ (visit_call recur c deepest visiting).0
  unfolding visit_call
  visit_call_reaches c deepest v t = ground arith

  -- What holds of the start and of every result of a counted call holds of the greatest.
  visit_calls_holds {ℓ} :
      (P : ℕ → Type ℓ) (calls : List CpiCall) (deepest : ℕ) (visiting : List Text)
      → P deepest
      → ((c : CpiCall) → Memᴰ c calls → is_counted c ≡ true → P (recur c.callee visiting).0)
      → P (visit_calls recur calls deepest visiting).0
  unfolding visit_calls
  visit_calls_holds P [] deepest v p h = p
  visit_calls_holds P (c ∷ cs) deepest v p h =
      visit_calls_holds P cs (visit_call recur c deepest v).0 (visit_call recur c deepest v).1 first
        (λ e m t.
          subst (λ w. P (recur e.callee w).0) (sym (visit_call_restored recur c deepest v r))
            (h e (Memᴰ.tail m) t))
    where
      first : P (visit_call recur c deepest v).0
      first = visit_call_holds P c deepest v p (h c (Memᴰ.head refl))

  visit_calls_least :
      (calls : List CpiCall) (deepest : ℕ) (visiting : List Text)
      → deepest ≤ (visit_calls recur calls deepest visiting).0
  unfolding visit_calls
  visit_calls_least [] deepest v = omega arith
  visit_calls_least (c ∷ cs) deepest v =
      let here = visit_call_least c deepest v in
      let rest =
        visit_calls_least cs (visit_call recur c deepest v).0 (visit_call recur c deepest v).1 in
      omega arith

  visit_calls_reaches :
      (calls : List CpiCall) (deepest : ℕ) (visiting : List Text) (c : CpiCall)
      → Memᴰ c calls
      → is_counted c ≡ true
      → (recur c.callee visiting).0 ≤ (visit_calls recur calls deepest visiting).0
  unfolding visit_calls
  visit_calls_reaches [] deepest v c m t = absurd (Memᴰ.not-nil m)
  visit_calls_reaches (d ∷ cs) deepest v c m t = elim (Memᴰ.cases_cons m) [
    | inl e ↦
        let same : (recur c.callee v).0 ≡ (recur d.callee v).0 =
          ap (λ (x : CpiCall). (recur x.callee v).0) e in
        let here = visit_call_reaches d deepest v (subst (λ x. is_counted x ≡ true) e t) in
        let rest =
          visit_calls_least cs (visit_call recur d deepest v).0 (visit_call recur d deepest v).1 in
        omega arith
    | inr k ↦
        let after : (recur c.callee (visit_call recur d deepest v).1).0 ≡ (recur c.callee v).0 =
          ap (λ w. (recur c.callee w).0) (visit_call_restored recur d deepest v r) in
        let rest =
          visit_calls_reaches cs (visit_call recur d deepest v).0 (visit_call recur d deepest v).1 c
            k t in
        omega arith
  ]

-- The depth that the search finds below an instruction, from some depth on and with some instructions
-- entered, is that depth and the length of a chain of invocations.
pub compute_max_depth-Chain :
    (n : ℕ) (node : Text) (graph : List (Text × List CpiCall)) (d : ℕ) (visiting : List Text)
    → (k : ℕ) × ((compute_max_depth n node graph d visiting).0 ≡ d + k) × Chain graph node k
unfolding compute_max_depth
compute_max_depth-Chain zero node graph d v = (0, add_zero, Chain.stays node)
  where
    add_zero : d ≡ d + 0
    add_zero = omega arith
compute_max_depth-Chain (suc n) node graph d v = elim (Bool-cases (ltb 10 d)) [
  | inl e ↦ rw (e, compute_max_depth) (0, add_zero, Chain.stays node)
  | inr e ↦ elim (Bool-cases (visits v node)) [
    | inl q ↦ rw (e, q, compute_max_depth) (0, add_zero, Chain.stays node)
    | inr q ↦
        rw (e, q, compute_max_depth)
          (visit_calls_holds recur (compute_max_depth-Restores n graph (suc d)) IsReached
            (calls_of graph node) d (node ∷ v) (0, add_zero, Chain.stays node)
            (λ c m t. longer c m t (compute_max_depth-Chain n c.callee graph (suc d) (node ∷ v))))
  ]
]
  where
    add_zero : d ≡ d + 0
    add_zero = omega arith

    recur : Text → List Text → ℕ × List Text
    recur callee w = compute_max_depth n callee graph (suc d) w

    IsReached : ℕ → Type 0
    IsReached r = (k : ℕ) × (r ≡ d + k) × Chain graph node k

    longer :
        (c : CpiCall)
        → Memᴰ c (calls_of graph node)
        → is_counted c ≡ true
        → (k : ℕ) × ((recur c.callee (node ∷ v)).0 ≡ suc d + k) × Chain graph c.callee k
        → IsReached (recur c.callee (node ∷ v)).0
    longer c m t (k, p, chain) = (suc k, p ∙ add_suc k, Chain.invokes node c k m t chain)
      where
        add_suc : (k : ℕ) → suc d + k ≡ d + suc k
        add_suc k = omega arith

compute_max_depth_least :
    (n : ℕ) (node : Text) (graph : List (Text × List CpiCall)) (d : ℕ) (visiting : List Text)
    → d ≤ (compute_max_depth n node graph d visiting).0
compute_max_depth_least n node graph d v =
    let (k, p, chain) = compute_max_depth-Chain n node graph d v in
    let reached : (compute_max_depth n node graph d v).0 ≡ d + k = p in omega arith

compute_max_depth-SimpleChain :
    (n : ℕ) (node : Text) (graph : List (Text × List CpiCall)) (d : ℕ) (visiting : List Text)
    (k : ℕ)
    → SimpleChain graph visiting node k
    → d + k ≤ 11
    → k ≤ n
    → d + k ≤ (compute_max_depth n node graph d visiting).0
unfolding compute_max_depth
compute_max_depth-SimpleChain n node graph d v zero chain h b =
    let least = compute_max_depth_least n node graph d v in omega arith
compute_max_depth-SimpleChain zero node graph d v (suc k) chain h b = omega arith
compute_max_depth-SimpleChain (suc n) node graph d v (suc k)
      (SimpleChain.invokes _ _ c _ fresh m t chain) h b =
    let rest =
      compute_max_depth-SimpleChain n c.callee graph (suc d) (node ∷ v) k chain (omega arith)
        (omega arith) in
    let best =
      visit_calls_reaches (λ callee w. compute_max_depth n callee graph (suc d) w)
        (compute_max_depth-Restores n graph (suc d)) (calls_of graph node) d (node ∷ v) c m t in
    rw (within, fresh, compute_max_depth) (omega arith)
  where
    within : ltb 10 d ≡ false
    within = ground arith

-- The depth of an instruction is the length of a chain of invocations from it.
pub depth_of-Chain :
    (graph : List (Text × List CpiCall)) (ix_name : Text)
    → Chain graph ix_name (depth_of graph ix_name)
unfolding depth_of
depth_of-Chain graph ix_name =
    let (k, p, chain) = compute_max_depth-Chain 12 ix_name graph 0 [] in
    subst (Chain graph ix_name) (sym (p ∙ zero_add k)) chain
  where
    zero_add : (k : ℕ) → 0 + k ≡ k
    zero_add k = omega arith

-- Every chain of at most eleven invocations that enters no instruction twice is at most as long as the
-- depth of the instruction that it starts from.
pub depth_of-SimpleChain :
    (graph : List (Text × List CpiCall)) (ix_name : Text) (k : ℕ)
    → SimpleChain graph [] ix_name k
    → k ≤ 11
    → k ≤ depth_of graph ix_name
unfolding depth_of
depth_of-SimpleChain graph ix_name k chain h =
    let found =
      compute_max_depth-SimpleChain 12 ix_name graph 0 [] k chain (omega arith) (omega arith) in
    omega arith

compute_max_depth_recursive :
    (n : ℕ) (graph : List (Text × List CpiCall)) (ix_name : Text) (call : CpiCall)
    → calls_of graph ix_name ≡ call ∷ []
    → call.is_internal ≡ true
    → call.resolved ≡ true
    → call.callee ≡ ix_name
    → (compute_max_depth (suc (suc n)) ix_name graph 0 []).0 ≡ 1
unfolding compute_max_depth visit_calls visit_call visits
compute_max_depth_recursive n graph ix_name call only i r self =
    rw (compute_max_depth, only, i, r, self, text_eq_refl ix_name) refl

-- An instruction whose only invocation is counted and invokes the instruction itself has depth one, though
-- there are chains of invocations of every length from it.
pub depth_of_recursive :
    (graph : List (Text × List CpiCall)) (ix_name : Text) (call : CpiCall) (k : ℕ)
    → calls_of graph ix_name ≡ call ∷ []
    → call.is_internal ≡ true
    → call.resolved ≡ true
    → call.callee ≡ ix_name
    → (depth_of graph ix_name ≡ 1) × Chain graph ix_name k
unfolding depth_of
depth_of_recursive graph ix_name call k only i r self =
    (compute_max_depth_recursive 10 graph ix_name call only i r self, chain k)
  where
    chain : (k : ℕ) → Chain graph ix_name k
    chain zero = Chain.stays ix_name
    chain (suc k) =
        Chain.invokes ix_name call k (subst (Memᴰ call) (sym only) (Memᴰ.head refl)) (counted i r)
          (subst (λ x. Chain graph x k) (sym self) (chain k))
      where
        counted : call.is_internal ≡ true → call.resolved ≡ true → is_counted call ≡ true
        counted i r = rw (i, r) refl

compute_max_depth_bound :
    (n : ℕ) (node : Text) (graph : List (Text × List CpiCall)) (d : ℕ) (visiting : List Text)
    → d ≤ 11
    → (compute_max_depth n node graph d visiting).0 ≤ 11
unfolding compute_max_depth
compute_max_depth_bound zero node graph d v h = h
compute_max_depth_bound (suc n) node graph d v h = elim (Bool-cases (ltb 10 d)) [
  | inl e ↦ rw (e, compute_max_depth) h
  | inr e ↦ elim (Bool-cases (visits v node)) [
    | inl q ↦ rw (e, q, compute_max_depth) h
    | inr q ↦
        let within : suc d ≤ 11 = ground arith in
        rw (e, q, compute_max_depth)
          (visit_calls_holds (λ callee w. compute_max_depth n callee graph (suc d) w)
            (compute_max_depth-Restores n graph (suc d)) (λ r. r ≤ 11) (calls_of graph node) d
            (node ∷ v) h
            (λ c m t. compute_max_depth_bound n c.callee graph (suc d) (node ∷ v) within))
  ]
]

-- The depth of an instruction is at most eleven, whatever the call graph.
pub depth_of_bound :
    (graph : List (Text × List CpiCall)) (ix_name : Text) → depth_of graph ix_name ≤ 11
unfolding depth_of
depth_of_bound graph ix_name = compute_max_depth_bound 12 ix_name graph 0 [] (omega arith)
