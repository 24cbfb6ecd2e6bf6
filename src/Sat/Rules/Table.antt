-- ===== src/Sat/Rules/Table.antt =====
-- The classification of findings (crates/sat/src/sarif.rs) against the rule table.
use solana_audit_toolkit.Prelude.{
  Text, codes, contains, text_eq, text_eq_iff, List, [], ◌∷◌, ◌++◌, ◌≡◌, ◌≢◌, ap, arith, true, any,
  ℕ, suc, some, unwrap_or, get_elem?, Bool-cases, inl, inr,
}
use solana_audit_toolkit.Sat.Rules.{
  rule_ids, classify_title, classify_finding_rule, position, rule_index,
}
use solana_audit_toolkit.Sat.Types.{Finding}

classify_title-in_table : (title : Text) → any (text_eq (classify_title title)) rule_ids ≡ true
unfolding classify_title text_eq
classify_title-in_table title = ground arith

-- A text that is found among others is at its position there.
position_lem :
    (x : Text) (ys : List Text)
    → any (text_eq x) ys ≡ true
    → (i : ℕ) × (position x ys ≡ some i) × (get_elem? ys i ≡ some x)
unfolding position
position_lem x [] h = absurd (cc)
position_lem x (y ∷ ys) h = elim (Bool-cases (text_eq y x)) [
  | inl e ↦ (0, rw e, ap some ((text_eq_iff y x).0 e))
  | inr e ↦
      let (i, p, q) = position_lem x ys (ground (arith, text_eq_iff x y, text_eq_iff y x)) in
      (suc i, rw (e, p), q)
]

position-get_elem? :
    (x : Text) (ys : List Text)
    → any (text_eq x) ys ≡ true
    → get_elem? ys (unwrap_or (position x ys) 0) ≡ some x
position-get_elem? x ys h = let (i, p, q) = position_lem x ys h in rw p q

-- The rule index of a SARIF result is the place of its rule id in the table: the fallback to index
-- 0 is never taken for a missing id.
pub rule_index-classify :
    (f : Finding)
    → get_elem? rule_ids (rule_index (classify_finding_rule f)) ≡ some (classify_finding_rule f)
unfolding rule_index classify_finding_rule
rule_index-classify f =
    position-get_elem? (classify_title f.title) rule_ids (classify_title-in_table f.title)

-- No finding is classified as SAT026, the table's rule for unsafe arithmetic of native programs.
pub classify-ne-sat026 : (f : Finding) → classify_finding_rule f ≢ codes "SAT026"
unfolding classify_finding_rule classify_title
classify-ne-sat026 f e = ground arith

mismatch-ne-sat011 :
    (title : Text)
    → contains title (codes "Mismatch") ≡ true
    → classify_title title ≢ codes "SAT011"
unfolding classify_title
mismatch-ne-sat011 title h e = ground arith

-- A finding whose title is that of a tx-report mismatch, whatever accounts it names, is never
-- classified as SAT011, the table's rule for tx-report mismatches.
pub tx_report_mismatch-ne-sat011 :
    (f : Finding) (rest : Text)
    → f.title ≡ codes "Tx-Report Mismatch: " ++ rest
    → classify_finding_rule f ≢ codes "SAT011"
unfolding classify_finding_rule contains
tx_report_mismatch-ne-sat011 f rest h = mismatch-ne-sat011 f.title (rw h)
