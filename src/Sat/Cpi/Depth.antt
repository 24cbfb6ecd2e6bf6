-- ===== src/Sat/Cpi/Depth.antt =====
-- crates/sat/src/cpi.rs: the search leaves the set of nodes as it was, ends, and stays within its limit.
use mathlib.Core.Path.{fun_ext}
use solana_audit_toolkit.Prelude.{
  true_ne_false, Text, text_eq_refl, text_eq, ℕ, zero, suc, ◌+◌, ◌≤◌, ltb, ◌≡◌, refl, ap, ◌∙◌, Bool,
  true, false, not, ◌&&◌, List, [], ◌∷◌, any, retain, Bool-cases, inl, inr, arith,
}
use solana_audit_toolkit.Sat.Cpi.{
  CpiCall, calls_of, visits, leave, visit_call, visit_calls, compute_max_depth,
}

-- A search that leaves the set of nodes as it found it.
pub Restores : (Text → List Text → ℕ × List Text) → Type 0
Restores recur = (callee : Text) (visiting : List Text) → (recur callee visiting).1 ≡ visiting

pub visit_call_restored :
    (recur : Text → List Text → ℕ × List Text) (call : CpiCall) (deepest : ℕ) (visiting : List Text)
    → Restores recur
    → (visit_call recur call deepest visiting).1 ≡ visiting
unfolding visit_call Restores
visit_call_restored recur call deepest visiting h =
    elim (Bool-cases (call.is_internal && call.resolved)) [
      | inl e ↦ rw (e, visit_call) (h call.callee visiting)
      | inr e ↦ rw (e, visit_call) refl
    ]

visit_calls_restored :
    (recur : Text → List Text → ℕ × List Text) (calls : List CpiCall) (deepest : ℕ)
    (visiting : List Text)
    → Restores recur
    → (visit_calls recur calls deepest visiting).1 ≡ visiting
unfolding visit_calls
visit_calls_restored recur [] deepest visiting h = refl
visit_calls_restored recur (c ∷ cs) deepest visiting h =
    visit_calls_restored recur cs (visit_call recur c deepest visiting).0
      (visit_call recur c deepest visiting).1 h
    ∙ visit_call_restored recur c deepest visiting h

retain_unhit {ℓ} :
    {A : Type ℓ} (p : A → Bool) (xs : List A) → any p xs ≡ false → retain (λ x. not (p x)) xs ≡ xs
retain_unhit p [] h = refl
retain_unhit p (x ∷ xs) h = elim (Bool-cases (p x)) [
  | inl e ↦ absurd (true_ne_false (rw (e) at h))
  | inr e ↦ rw (e, retain_unhit p xs (rw (e) at h)) refl
]

leave_entered :
    (node : Text) (visiting : List Text)
    → visits visiting node ≡ false
    → leave node (node ∷ visiting) ≡ visiting
unfolding leave visits
leave_entered node visiting h = rw (text_eq_refl node) (retain_unhit (text_eq node) visiting h)

pub compute_max_depth-Restores :
    (n : ℕ) (graph : List (Text × List CpiCall)) (current_depth : ℕ)
    → Restores (λ node visiting. compute_max_depth n node graph current_depth visiting)
unfolding compute_max_depth Restores
compute_max_depth-Restores zero graph d node v = refl
compute_max_depth-Restores (suc n) graph d node v = elim (Bool-cases (ltb 10 d)) [
  | inl e ↦ rw (e, compute_max_depth) refl
  | inr e ↦ elim (Bool-cases (visits v node)) [
    | inl q ↦ rw (e, q, compute_max_depth) refl
    | inr q ↦
        rw (e, q, compute_max_depth)
          (rw
            (visit_calls_restored (λ callee w. compute_max_depth n callee graph (suc d) w)
              (calls_of graph node) d (node ∷ v) (compute_max_depth-Restores n graph (suc d)))
            (leave_entered node v q))
  ]
]

compute_max_depth_step :
    (n : ℕ) (node : Text) (graph : List (Text × List CpiCall)) (d : ℕ) (visiting : List Text)
    → 11 ≤ n + d
    → compute_max_depth (suc n) node graph d visiting ≡ compute_max_depth n node graph d visiting
unfolding compute_max_depth
compute_max_depth_step zero node graph d v h = rw (over, compute_max_depth) refl
  where
    over : ltb 10 d ≡ true
    over = ground arith
compute_max_depth_step (suc n) node graph d v h = elim (Bool-cases (ltb 10 d)) [
  | inl e ↦ rw (e, compute_max_depth) refl
  | inr e ↦ elim (Bool-cases (visits v node)) [
    | inl q ↦ rw (e, q, compute_max_depth) refl
    | inr q ↦
        rw (e, q, compute_max_depth)
          (ap
            (λ recur.
              let (deepest, after) = visit_calls recur (calls_of graph node) d (node ∷ v) in
              (deepest, leave node after))
            (fun_ext (λ callee.
              fun_ext (λ w. compute_max_depth_step n callee graph (suc d) w (omega arith)))))
  ]
]

-- Fuel that makes at least eleven with the current depth is enough: more of it changes neither the
-- depth that is found nor the set of nodes that is left.
pub compute_max_depth_fuel :
    (m n : ℕ) (node : Text) (graph : List (Text × List CpiCall)) (d : ℕ) (visiting : List Text)
    → 11 ≤ n + d
    → compute_max_depth (m + n) node graph d visiting ≡ compute_max_depth n node graph d visiting
compute_max_depth_fuel zero n node graph d v h =
    ap (λ k. compute_max_depth k node graph d v) zero_add
  where
    zero_add : 0 + n ≡ n
    zero_add = omega arith
compute_max_depth_fuel (suc m) n node graph d v h =
    ap (λ k. compute_max_depth k node graph d v) suc_add
    ∙ (compute_max_depth_step (m + n) node graph d v (omega arith)
        ∙ compute_max_depth_fuel m n node graph d v h)
  where
    suc_add : suc m + n ≡ suc (m + n)
    suc_add = omega arith
