-- ===== src/Sat/Calibrate/Counts.antt =====
-- The counts per rule (crates/sat/src/calibrate.rs).
use solana_audit_toolkit.Prelude.{
  Ordering-cases, Text, text_eq, text_eq_iff, text_cmp, ◌≡◌, ◌⊎◌, inl, inr, true, false, List, [],
  ◌∷◌, ◌++◌, if◌then◌else◌, refl, sym, ap, ◌∙◌, Bool-cases, arith, IsPairwise, All, All-imp,
}
use Prim.Native.Nat.Ordering.{lt, eq, gt}
use solana_audit_toolkit.Sat.Calibrate.{
  CalibrationLabel, LabeledFinding, RepoState, LabelCounts, default_counts, count_label,
  count_entry, count_findings, aggregate_from, aggregate,
}

-- The counts of a rule in the map: the first entry of the key, and zeros where there is none.
abbrev pub counts_of : Text → List (Text × LabelCounts) → LabelCounts
counts_of rule [] = default_counts
counts_of rule (e ∷ es) = let rest = counts_of rule es in if text_eq e.0 rule then e.1 else rest

-- The entries of all repositories, in the order of the scan.
abbrev pub all_findings : List RepoState → List LabeledFinding
all_findings [] = []
all_findings (s ∷ ss) = s.findings ++ all_findings ss

-- The counts of the entries of one rule, added to `c`.
abbrev pub tally : Text → List LabeledFinding → LabelCounts → LabelCounts
tally rule [] c = c
tally rule (f ∷ fs) c =
    tally rule fs (if text_eq f.signature.rule_id rule then count_label f.label c else c)

text_cmp-eq : (s t : Text) → text_cmp s t ≡ eq → text_eq s t ≡ true
unfolding text_cmp text_eq
text_cmp-eq [] [] h = refl
text_cmp-eq [] (b ∷ t) h = ground arith
text_cmp-eq (a ∷ s) [] h = ground arith
text_cmp-eq (a ∷ s) (b ∷ t) h = ground (arith, text_cmp-eq s t)

text_cmp_trans : (s t u : Text) → text_cmp s t ≡ lt → text_cmp t u ≡ lt → text_cmp s u ≡ lt
unfolding text_cmp
text_cmp_trans [] [] u h k = ground arith
text_cmp_trans [] (b ∷ t) [] h k = ground arith
text_cmp_trans [] (b ∷ t) (c ∷ u) h k = refl
text_cmp_trans (a ∷ s) [] u h k = ground arith
text_cmp_trans (a ∷ s) (b ∷ t) [] h k = ground arith
text_cmp_trans (a ∷ s) (b ∷ t) (c ∷ u) h k = ground (arith, text_cmp_trans s t u)

text_cmp_flip : (s t : Text) → text_cmp s t ≡ gt → text_cmp t s ≡ lt
unfolding text_cmp
text_cmp_flip [] [] h = ground arith
text_cmp_flip [] (b ∷ t) h = ground arith
text_cmp_flip (a ∷ s) [] h = refl
text_cmp_flip (a ∷ s) (b ∷ t) h = ground (arith, text_cmp_flip s t)

text_cmp-lt : (s t : Text) → text_cmp s t ≡ lt → text_eq t s ≡ false
unfolding text_cmp text_eq
text_cmp-lt [] [] h = ground arith
text_cmp-lt [] (b ∷ t) h = refl
text_cmp-lt (a ∷ s) [] h = refl
text_cmp-lt (a ∷ s) (b ∷ t) h = ground (arith, text_cmp-lt s t)

text_cmp-lt_left : (s t : Text) → text_cmp s t ≡ lt → text_eq s t ≡ false
unfolding text_cmp text_eq
text_cmp-lt_left [] [] h = ground arith
text_cmp-lt_left [] (b ∷ t) h = refl
text_cmp-lt_left (a ∷ s) [] h = refl
text_cmp-lt_left (a ∷ s) (b ∷ t) h = ground (arith, text_cmp-lt_left s t)

-- The keys rise, as they do in a `BTreeMap`.
abbrev pub IsSorted : List (Text × LabelCounts) → Type 0
IsSorted es = IsPairwise (λ a b. text_cmp a.0 b.0 ≡ lt) es

absent :
    (rule : Text) (es : List (Text × LabelCounts))
    → All (λ e. text_cmp rule e.0 ≡ lt) es
    → counts_of rule es ≡ default_counts
absent rule [] h = refl
absent rule (e ∷ es) h = rw (text_cmp-lt rule e.0 h.0, absent rule es h.1) refl

below :
    (rule : Text) (e : Text × LabelCounts) (es : List (Text × LabelCounts))
    → text_cmp rule e.0 ≡ lt
    → IsSorted (e ∷ es)
    → All (λ x. text_cmp rule x.0 ≡ lt) (e ∷ es)
below rule e es h k = (h, All-imp (λ x l. text_cmp_trans rule e.0 x.0 h l) es k.0)

module _ (r : Text) (l : CalibrationLabel) (e : Text × LabelCounts)
    (es : List (Text × LabelCounts)) where
  entry_lt :
      text_cmp r e.0 ≡ lt → count_entry r l (e ∷ es) ≡ (r, count_label l default_counts) ∷ e ∷ es
  unfolding count_entry
  entry_lt h = rw (h, count_entry) refl

  entry_eq : text_cmp r e.0 ≡ eq → count_entry r l (e ∷ es) ≡ (e.0, count_label l e.1) ∷ es
  unfolding count_entry
  entry_eq h = rw (h, count_entry) refl

  entry_gt : text_cmp r e.0 ≡ gt → count_entry r l (e ∷ es) ≡ e ∷ count_entry r l es
  unfolding count_entry
  entry_gt h = rw (h, count_entry) refl

count_entry-All :
    (P : Text → Type 0) (rule : Text) (l : CalibrationLabel) (es : List (Text × LabelCounts))
    → P rule
    → All (λ e. P e.0) es
    → All (λ e. P e.0) (count_entry rule l es)
unfolding count_entry
count_entry-All P rule l [] h k = (h, tt)
count_entry-All P rule l (e ∷ es) h k = elim (Ordering-cases (text_cmp rule e.0)) [
  | inl o ↦ rw (entry_lt rule l e es o) (h, k)
  | inr (inl o) ↦ rw (entry_eq rule l e es o) k
  | inr (inr o) ↦ rw (entry_gt rule l e es o) (k.0, count_entry-All P rule l es h k.1)
]

count_entry-IsSorted :
    (rule : Text) (l : CalibrationLabel) (es : List (Text × LabelCounts))
    → IsSorted es
    → IsSorted (count_entry rule l es)
unfolding count_entry
count_entry-IsSorted rule l [] h = (tt, tt)
count_entry-IsSorted rule l (e ∷ es) h = elim (Ordering-cases (text_cmp rule e.0)) [
  | inl o ↦ rw (entry_lt rule l e es o) (below rule e es o h, h)
  | inr (inl o) ↦ rw (entry_eq rule l e es o) h
  | inr (inr o) ↦ rw (entry_gt rule l e es o) (
    count_entry-All (λ x. text_cmp e.0 x ≡ lt) rule l es (text_cmp_flip rule e.0 o) h.0,
    count_entry-IsSorted rule l es h.1,
  )
]

differs : (r k rule : Text) → text_cmp k r ≡ lt → text_eq r rule ≡ true → text_eq k rule ≡ false
differs r k rule h q = ap (text_eq k) (sym ((text_eq_iff r rule).0 q)) ∙ text_cmp-lt_left k r h

-- One more entry of rule `r` counts once at `r` and nowhere else.
count_entry_lem :
    (r rule : Text) (l : CalibrationLabel) (es : List (Text × LabelCounts))
    → IsSorted es
    → counts_of rule (count_entry r l es)
      ≡ (if text_eq r rule then count_label l (counts_of rule es) else counts_of rule es)
unfolding count_entry
count_entry_lem r rule l [] h = refl
count_entry_lem r rule l (e ∷ es) h = elim (Ordering-cases (text_cmp r e.0)) [
  | inl o ↦ rw (entry_lt r l e es o) (new_entry (Bool-cases (text_eq r rule)) (below r e es o h))
  | inr (inl o) ↦
      rw (entry_eq r l e es o) (same_entry ((text_eq_iff r e.0).0 (text_cmp-eq r e.0 o)))
  | inr (inr o) ↦ rw (entry_gt r l e es o) (
      later_entry (Bool-cases (text_eq r rule)) (differs r e.0 rule (text_cmp_flip r e.0 o))
        (count_entry_lem r rule l es h.1))
]
  where
    new_entry :
        (text_eq r rule ≡ true) ⊎ (text_eq r rule ≡ false)
        → All (λ x. text_cmp r x.0 ≡ lt) (e ∷ es)
        → (if text_eq r rule then count_label l default_counts else counts_of rule (e ∷ es)) ≡ (
            if text_eq r rule
            then count_label l (counts_of rule (e ∷ es))
            else counts_of rule (e ∷ es))
    new_entry c k = elim c [
      | inl q ↦ rw q (
          ap (count_label l) (
            sym (
              ap (λ x. counts_of x (e ∷ es)) (sym ((text_eq_iff r rule).0 q))
              ∙ absent r (e ∷ es) k)))
      | inr q ↦ rw q refl
    ]

    same_entry :
        r ≡ e.0
        → (if text_eq e.0 rule then count_label l e.1 else counts_of rule es) ≡ (
            if text_eq r rule
            then count_label l (counts_of rule (e ∷ es))
            else counts_of rule (e ∷ es))
    same_entry k =
        rw k (elim (Bool-cases (text_eq e.0 rule)) [ inl q ↦ rw q refl | inr q ↦ rw q refl ])

    later_entry :
        (text_eq r rule ≡ true) ⊎ (text_eq r rule ≡ false)
        → (text_eq r rule ≡ true → text_eq e.0 rule ≡ false)
        → counts_of rule (count_entry r l es)
          ≡ (if text_eq r rule then count_label l (counts_of rule es) else counts_of rule es)
        → counts_of rule (e ∷ count_entry r l es) ≡ (
            if text_eq r rule
            then count_label l (counts_of rule (e ∷ es))
            else counts_of rule (e ∷ es))
    later_entry c d k = elim c [
      | inl q ↦ rw (q, d q) (k ∙ rw q refl)
      | inr q ↦ rw q (ap (λ x. if text_eq e.0 rule then e.1 else x) (k ∙ rw q refl))
    ]

count_findings_lem :
    (rule : Text) (fs : List LabeledFinding) (out : List (Text × LabelCounts))
    → IsSorted out
    → IsSorted (count_findings fs out)
      × (counts_of rule (count_findings fs out) ≡ tally rule fs (counts_of rule out))
unfolding count_findings
count_findings_lem rule [] out h = (h, refl)
count_findings_lem rule (f ∷ fs) out h =
    let rest =
      count_findings_lem rule fs (count_entry f.signature.rule_id f.label out)
        (count_entry-IsSorted f.signature.rule_id f.label out h) in
    (rest.0, rest.1 ∙ ap (tally rule fs) (count_entry_lem f.signature.rule_id rule f.label out h))

tally-append :
    (rule : Text) (xs ys : List LabeledFinding) (c : LabelCounts)
    → tally rule (xs ++ ys) c ≡ tally rule ys (tally rule xs c)
tally-append rule [] ys c = refl
tally-append rule (x ∷ xs) ys c =
    tally-append rule xs ys (if text_eq x.signature.rule_id rule then count_label x.label c else c)

aggregate_from_lem :
    (rule : Text) (ss : List RepoState) (out : List (Text × LabelCounts))
    → IsSorted out
    → IsSorted (aggregate_from ss out)
      × (counts_of rule (aggregate_from ss out) ≡ tally rule (all_findings ss) (counts_of rule out))
unfolding aggregate_from
aggregate_from_lem rule [] out h = (h, refl)
aggregate_from_lem rule (s ∷ ss) out h =
    let first = count_findings_lem rule s.findings out h in
    let rest = aggregate_from_lem rule ss (count_findings s.findings out) first.0 in
    (
      rest.0,
      rest.1
          ∙ (ap (tally rule (all_findings ss)) first.1
              ∙ sym (tally-append rule s.findings (all_findings ss) (counts_of rule out))),
    )

-- The keys of `aggregate` rise, and a rule's counts are those of its entries in all repositories,
-- counted one by one in the order of the scan.
pub aggregate_lem :
    (states : List RepoState) (rule : Text)
    → IsSorted (aggregate states)
      × (counts_of rule (aggregate states) ≡ tally rule (all_findings states) default_counts)
unfolding aggregate
aggregate_lem states rule = aggregate_from_lem rule states [] tt
