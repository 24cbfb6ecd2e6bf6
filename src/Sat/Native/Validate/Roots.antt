-- ===== src/Sat/Native/Validate/Roots.antt =====
-- crates/sat/src/native/rules/validate.rs: following parents to a root, and `find` against it.
use mathlib.Core.Path.{subst}
use solana_audit_toolkit.Prelude.{
  lt_or_le, false_ne_true, ℕ, zero, suc, ◌<◌, ◌==◌, ==_iff, ◌≡◌, ◌≢◌, ◌⊎◌, inl, inr, refl, sym, ap,
  ◌∙◌, false, List, length, length-set, set, get_or-set, get_or_beyond, Bool-cases,
}
use solana_audit_toolkit.Sat.Native.Validate.UnionFind.{parent_of, find_root}

-- `n` steps from a node to its parents.
unfoldable pub chase : ℕ → List ℕ → ℕ → ℕ
chase zero p i = i
chase (suc n) p i = chase n p (parent_of p i)

abbrev pub IsRoot : List ℕ → ℕ → Type 0
IsRoot p r = parent_of p r ≡ r

-- Every node is at most `d` steps from a root.
abbrev pub IsShallow : ℕ → List ℕ → Type 0
IsShallow d p = (i : ℕ) → IsRoot p (chase d p i)

pub chase-IsRoot : (n : ℕ) (p : List ℕ) (r : ℕ) → IsRoot p r → chase n p r ≡ r
unfolding chase
chase-IsRoot zero p r h = refl
chase-IsRoot (suc n) p r h = ap (chase n p) h ∙ chase-IsRoot n p r h

pub chase_comm :
    (n : ℕ) (p : List ℕ) (i : ℕ) → chase n p (parent_of p i) ≡ parent_of p (chase n p i)
unfolding chase
chase_comm zero p i = refl
chase_comm (suc n) p i = chase_comm n p (parent_of p i)

pub chase_add : (m n : ℕ) (p : List ℕ) (i : ℕ) → chase m p (chase n p i) ≡ chase n p (chase m p i)
unfolding chase
chase_add zero n p i = refl
chase_add (suc m) n p i = ap (chase m p) (sym (chase_comm n p i)) ∙ chase_add m n p (parent_of p i)

-- A root that is met is the one met after `d` steps.
pub chase_unique :
    (d n : ℕ) (p : List ℕ) (i : ℕ)
    → IsShallow d p
    → IsRoot p (chase n p i)
    → chase n p i ≡ chase d p i
chase_unique d n p i s h =
    sym (chase-IsRoot d p (chase n p i) h)
    ∙ (chase_add d n p i ∙ chase-IsRoot n p (chase d p i) (s i))

pub chase-parent_of :
    (d : ℕ) (p : List ℕ) (i : ℕ) → IsShallow d p → chase d p (parent_of p i) ≡ chase d p i
chase-parent_of d p i s = chase_comm d p i ∙ s i

-- Each node of `q` has its parent in `p` or its root.
abbrev pub IsFlatter : ℕ → List ℕ → List ℕ → Type 0
IsFlatter d p q = (j : ℕ) → (parent_of q j ≡ parent_of p j) ⊎ (parent_of q j ≡ chase d p j)

pub IsFlatter-IsRoot : (d : ℕ) (p q : List ℕ) (r : ℕ) → IsFlatter d p q → IsRoot p r → IsRoot q r
IsFlatter-IsRoot d p q r f h = elim (f r) [ inl e ↦ e ∙ h | inr e ↦ e ∙ chase-IsRoot d p r h ]

flatter_steps :
    (d k : ℕ) (p q : List ℕ) (j r : ℕ)
    → IsShallow d p
    → IsFlatter d p q
    → IsRoot p r
    → chase k p j ≡ r
    → chase d p j ≡ r
    → chase k q j ≡ r
unfolding chase
flatter_steps d zero p q j r s f h a b = a
flatter_steps d (suc k) p q j r s f h a b = elim (f j) [
  | inl e ↦
      ap (chase k q) e
      ∙ flatter_steps d k p q (parent_of p j) r s f h a (chase-parent_of d p j s ∙ b)
  | inr e ↦ ap (chase k q) (e ∙ b) ∙ chase-IsRoot k q r (IsFlatter-IsRoot d p q r f h)
]

-- Flattening keeps every root and does not deepen.
pub IsFlatter-chase :
    (d : ℕ) (p q : List ℕ) (i : ℕ) → IsShallow d p → IsFlatter d p q → chase d q i ≡ chase d p i
IsFlatter-chase d p q i s f = flatter_steps d d p q i (chase d p i) s f (s i) refl refl

pub IsFlatter-IsShallow : (d : ℕ) (p q : List ℕ) → IsShallow d p → IsFlatter d p q → IsShallow d q
IsFlatter-IsShallow d p q s f i =
    subst (IsRoot q) (sym (IsFlatter-chase d p q i s f))
      (IsFlatter-IsRoot d p q (chase d p i) f (s i))

-- What `find` gives: the root, with flatter parents.
pub record Finds (d : ℕ) (p : List ℕ) (i : ℕ) (found : List ℕ × ℕ) : Type 0 where
  pub root : found.1 ≡ chase d p i
  pub flatter : IsFlatter d p found.0
  pub same_length : length found.0 ≡ length p

pub not_in_place : (p : List ℕ) (i : ℕ) → (parent_of p i == i) ≡ false → i < length p
not_in_place p i h = elim (lt_or_le i (length p)) [
  | inl l ↦ l
  | inr l ↦ absurd (differs (get_or_beyond p i i l))
]
  where
    differs : parent_of p i ≢ i
    differs e = false_ne_true (sym h ∙ (==_iff (parent_of p i) i).1 e)

set-IsFlatter :
    (d : ℕ) (p q : List ℕ) (i : ℕ)
    → IsFlatter d p q
    → i < length q
    → IsFlatter d p (set q i (chase d p i))
set-IsFlatter d p q i f h j = elim (Bool-cases (i == j)) [
  | inl e ↦ inr (get_or-set q i (chase d p i) j j h ∙ (rw e (ap (chase d p) ((==_iff i j).0 e))))
  | inr e ↦ elim (f j) [
    | inl k ↦ inl (get_or-set q i (chase d p i) j j h ∙ (rw e k))
    | inr k ↦ inr (get_or-set q i (chase d p i) j j h ∙ (rw e k))
  ]
]

-- With fuel that reaches the root, `find` gives it.
pub find_root-Finds :
    (n d : ℕ) (p : List ℕ) (i : ℕ)
    → IsShallow d p
    → IsRoot p (chase n p i)
    → Finds d p i (find_root n p i)
unfolding find_root chase
find_root-Finds zero d p i s h = record {
  root = chase_unique d 0 p i s h;
  flatter = λ j. inl refl;
  same_length = refl;
}
find_root-Finds (suc n) d p i s h = elim (Bool-cases (parent_of p i == i)) [
  | inl e ↦
      rw (find_root, e)
        (record {
          root = chase_unique d 0 p i s ((==_iff (parent_of p i) i).0 e);
          flatter = λ j. inl refl;
          same_length = refl;
        })
  | inr e ↦
      rw (find_root, e) (found (find_root-Finds n d p (parent_of p i) s h) (not_in_place p i e))
]
  where
    found :
        Finds d p (parent_of p i) (find_root n p (parent_of p i))
        → i < length p
        → Finds d p i (
          set (find_root n p (parent_of p i)).0 i (find_root n p (parent_of p i)).1,
          (find_root n p (parent_of p i)).1,
        )
    found v l = record {
      root = v.root ∙ chase-parent_of d p i s;
      flatter =
          subst (λ r. IsFlatter d p (set (find_root n p (parent_of p i)).0 i r))
            (sym (v.root ∙ chase-parent_of d p i s))
            (set-IsFlatter d p (find_root n p (parent_of p i)).0 i v.flatter
              (subst (λ m. i < m) (sym v.same_length) l));
      same_length =
          length-set (find_root n p (parent_of p i)).0 i (find_root n p (parent_of p i)).1
          ∙ v.same_length;
    }
