-- ===== src/Parity/Compare/Growth/Additions.antt =====
-- What is added to the findings of crates/parity/src/engine.rs, and that additions compose.
use solana_audit_toolkit.Prelude.{
  ℕ, suc, ◌+◌, ◌≤◌, ◌<◌, ◌≡◌, refl, sym, ap, ◌∙◌, Option, none, some, List, [], ◌∷◌, ◌++◌,
  append-nil, append_assoc, All, All-append, All-imp, arith, get_or_insert, or_else, first,
}
use mathlib.Core.Option
use solana_audit_toolkit.Parity.Engine.{Divergence, Violation, Findings, push_divergence}

abbrev pub DivergesIn : ℕ → ℕ → Divergence → Type 0
DivergesIn lo hi d = (lo ≤ d.op_index) × (d.op_index < hi)

abbrev pub ViolatesIn : ℕ → ℕ → Violation → Type 0
ViolatesIn lo hi v = (lo ≤ v.op_index) × (v.op_index < hi)

-- `op_index` of the first of some divergences.
abbrev pub first_index : List Divergence → Option ℕ
first_index ds = Option.map (λ (d : Divergence). d.op_index) (first ds)

-- The findings `g` are `f` with divergences and violations of the operations from `lo` to below
-- `hi` at the end, and the first divergence is the first that was ever added.
pub record Extends (lo hi : ℕ) (f g : Findings) : Type 0 where
  pub added : List Divergence
  pub grown : g.divergences ≡ f.divergences ++ added
  pub placed : All (DivergesIn lo hi) added
  pub led : g.first_divergence_op ≡ or_else f.first_divergence_op (first_index added)
  pub noted : List Violation
  pub recorded : g.violations ≡ f.violations ++ noted
  pub noted_in : All (ViolatesIn lo hi) noted

pub or_else-none {ℓ} : {A : Type ℓ} (o : Option A) → o ≡ or_else o none
or_else-none none = refl
or_else-none (some a) = refl

pub Extends-refl : (lo hi : ℕ) (f : Findings) → Extends lo hi f f
Extends-refl lo hi f = record {
  added = [];
  grown = sym (append-nil _);
  placed = tt;
  led = or_else-none _;
  noted = [];
  recorded = sym (append-nil _);
  noted_in = tt;
}

pub Extends-agree :
    (lo hi : ℕ) (f : Findings) → Extends lo hi f (record f { agreed_errors = f.agreed_errors + 1 })
Extends-agree lo hi f = record {
  added = [];
  grown = sym (append-nil _);
  placed = tt;
  led = or_else-none _;
  noted = [];
  recorded = sym (append-nil _);
  noted_in = tt;
}

first_index-append :
    (o : Option ℕ) (xs ys : List Divergence)
    → or_else (or_else o (first_index xs)) (first_index ys) ≡ or_else o (first_index (xs ++ ys))
first_index-append none [] ys = refl
first_index-append none (x ∷ xs) ys = refl
first_index-append (some a) xs ys = refl

pub Extends-then :
    (lo hi : ℕ) {f g h : Findings} → Extends lo hi f g → Extends lo hi g h → Extends lo hi f h
Extends-then lo hi {f} {g} {h} p q = record {
  added = p.added ++ q.added;
  grown = q.grown ∙ ap (λ ds. ds ++ q.added) p.grown ∙ append_assoc f.divergences p.added q.added;
  placed = All-append (DivergesIn lo hi) p.added q.added p.placed q.placed;
  led =
      q.led
      ∙ ap (λ o. or_else o (first_index q.added)) p.led
      ∙ first_index-append f.first_divergence_op p.added q.added;
  noted = p.noted ++ q.noted;
  recorded =
      q.recorded ∙ ap (λ vs. vs ++ q.noted) p.recorded ∙ append_assoc f.violations p.noted q.noted;
  noted_in = All-append (ViolatesIn lo hi) p.noted q.noted p.noted_in q.noted_in;
}

pub Extends-widen :
    (lo hi lo' hi' : ℕ) {f g : Findings}
    → lo' ≤ lo
    → hi ≤ hi'
    → Extends lo hi f g
    → Extends lo' hi' f g
Extends-widen lo hi lo' hi' a b p = record {
  added = p.added;
  grown = p.grown;
  led = p.led;
  noted = p.noted;
  recorded = p.recorded;
  placed = All-imp (λ d x. omega arith) p.added p.placed;
  noted_in = All-imp (λ v x. omega arith) p.noted p.noted_in;
}

pub Extends-trans :
    (lo mid hi : ℕ) {f g h : Findings}
    → lo ≤ mid
    → mid ≤ hi
    → Extends lo mid f g
    → Extends mid hi g h
    → Extends lo hi f h
Extends-trans lo mid hi a b p q =
    Extends-then lo hi (Extends-widen lo mid lo hi (omega arith) b p)
      (Extends-widen mid hi lo hi a (omega arith) q)

pub Extends-push :
    (d : Divergence) (f : Findings) → Extends d.op_index (suc d.op_index) f (push_divergence d f)
unfolding push_divergence
Extends-push d f = record {
  added = d ∷ [];
  grown = refl;
  placed = omega arith;
  led = insert_or_else f.first_divergence_op d.op_index;
  noted = [];
  recorded = sym (append-nil _);
  noted_in = tt;
}
  where
    insert_or_else : (o : Option ℕ) (i : ℕ) → get_or_insert o i ≡ or_else o (some i)
    insert_or_else none i = refl
    insert_or_else (some j) i = refl
