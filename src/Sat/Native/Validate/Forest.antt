-- ===== src/Sat/Native/Validate/Forest.antt =====
-- crates/sat/src/native/rules/validate.rs: what the union-find holds about the steps taken so far.
use mathlib.Core.Path.{subst}
use mathlib.Core.List.Memᴰ
use mathlib.Core.List.{Memᴰ}
use solana_audit_toolkit.Prelude.{
  ℕ, suc, ◌≤◌, ◌<◌, ◌≡◌, ◌≢◌, refl, sym, ◌∙◌, true, false, List, ◌++◌, length, get_or,
}
use solana_audit_toolkit.Sat.Native.Validate.UnionFind.{UnionFind}
use solana_audit_toolkit.Sat.Native.Validate.Roots.{
  chase, chase-IsRoot, IsRoot, IsShallow, IsFlatter, IsFlatter-chase, IsFlatter-IsRoot,
  chase-parent_of,
}

-- A step on the nodes: two components become one, or the component of a node is anchored.
pub data Step : Type 0 where
  links : ℕ → ℕ → Step
  marks : ℕ → Step

-- Two nodes of one chain: the equivalence that the links span.
pub data Linked (steps : List Step) : ℕ → ℕ → Type 0 where
  itself : (i : ℕ) → Linked steps i i
  by_link : (i j : ℕ) → Memᴰ (links i j) steps → Linked steps i j
  back : {i j : ℕ} → Linked steps i j → Linked steps j i
  through : {i j k : ℕ} → Linked steps i j → Linked steps j k → Linked steps i k

pub Linked-append :
    {steps : List Step} (more : List Step) {i j : ℕ} → Linked steps i j → Linked (steps ++ more) i j
Linked-append more (itself i) = itself i
Linked-append more (by_link i j m) = by_link i j (Memᴰ.append_left more m)
Linked-append more (back l) = back (Linked-append more l)
Linked-append more (through l k) = through (Linked-append more l) (Linked-append more k)

-- What every link keeps, every chain keeps.
pub Linked-respects :
    {steps : List Step} (f : ℕ → ℕ)
    → ((i j : ℕ) → Memᴰ (links i j) steps → f i ≡ f j)
    → {i j : ℕ} → Linked steps i j
    → f i ≡ f j
Linked-respects f h (itself i) = refl
Linked-respects f h (by_link i j m) = h i j m
Linked-respects f h (back l) = sym (Linked-respects f h l)
Linked-respects f h (through l k) = Linked-respects f h l ∙ Linked-respects f h k

-- The forest against the steps: the root of a node says its chain, the flag of a root whether the chain has
-- a marked node, and its count whether the chain has another node. `d` bounds the depth.
pub record Holds (steps : List Step) (d : ℕ) (uf : UnionFind) : Type 0 where
  pub root : ℕ → ℕ
  pub rooted : (i : ℕ) → chase d uf.parent i ≡ root i
  pub stays : (i : ℕ) → IsRoot uf.parent (root i)
  pub bounded : (i : ℕ) → i < length uf.parent → root i < length uf.parent
  pub counts_sized : length uf.node_count ≡ length uf.parent
  pub anchored_sized : length uf.anchored ≡ length uf.parent
  pub same_root : (i j : ℕ) → Memᴰ (links i j) steps → root i ≡ root j
  pub linked : (i : ℕ) → Linked steps i (root i)
  pub flagged : (i : ℕ) → Memᴰ (marks i) steps → get_or uf.anchored (root i) false ≡ true
  pub marked :
      (r : ℕ)
      → root r ≡ r
      → get_or uf.anchored r false ≡ true
      → (i : ℕ) × (root i ≡ r) × Memᴰ (marks i) steps
  pub counted : (r : ℕ) → root r ≡ r → r < length uf.parent → 1 ≤ get_or uf.node_count r 0
  pub many : (i : ℕ) → root i ≢ i → 2 ≤ get_or uf.node_count (root i) 0
  pub several :
      (r : ℕ) → root r ≡ r → 2 ≤ get_or uf.node_count r 0 → (i : ℕ) × (root i ≡ r) × (i ≢ r)

pub root-root :
    {steps : List Step} {d : ℕ} {uf : UnionFind} (h : Holds steps d uf) (i : ℕ)
    → h.root (h.root i) ≡ h.root i
root-root {d} {uf} h i = sym (h.rooted (h.root i)) ∙ chase-IsRoot d uf.parent (h.root i) (h.stays i)

pub Holds-IsShallow :
    {steps : List Step} {d : ℕ} {uf : UnionFind} → Holds steps d uf → IsShallow d uf.parent
Holds-IsShallow {d} {uf} h i = subst (IsRoot uf.parent) (sym (h.rooted i)) (h.stays i)

-- Flatter parents keep what holds, and so does a larger bound on the depth.
unfoldable pub Holds-flatter :
    {steps : List Step} {d : ℕ} {uf : UnionFind} (q : List ℕ)
    → Holds steps d uf
    → IsFlatter d uf.parent q
    → length q ≡ length uf.parent
    → Holds steps d (record uf { parent = q })
Holds-flatter {steps} {d} {uf} q h f l = record {
  root = h.root;
  rooted = λ i. IsFlatter-chase d uf.parent q i (Holds-IsShallow h) f ∙ h.rooted i;
  stays = λ i. IsFlatter-IsRoot d uf.parent q (h.root i) f (h.stays i);
  bounded = λ i b. subst (λ n. h.root i < n) (sym l) (h.bounded i (subst (λ n. i < n) l b));
  counts_sized = h.counts_sized ∙ sym l;
  anchored_sized = h.anchored_sized ∙ sym l;
  same_root = h.same_root;
  linked = h.linked;
  flagged = h.flagged;
  marked = h.marked;
  counted = λ r e b. h.counted r e (subst (λ n. r < n) l b);
  many = h.many;
  several = h.several;
}

pub Holds-deeper :
    {steps : List Step} {d : ℕ} {uf : UnionFind} → Holds steps d uf → Holds steps (suc d) uf
unfolding chase
Holds-deeper {steps} {d} {uf} h = record {
  root = h.root;
  rooted = λ i. chase-parent_of d uf.parent i (Holds-IsShallow h) ∙ h.rooted i;
  stays = h.stays;
  bounded = h.bounded;
  counts_sized = h.counts_sized;
  anchored_sized = h.anchored_sized;
  same_root = h.same_root;
  linked = h.linked;
  flagged = h.flagged;
  marked = h.marked;
  counted = h.counted;
  many = h.many;
  several = h.several;
}
