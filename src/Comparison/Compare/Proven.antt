-- ===== src/Comparison/Compare/Proven.antt =====
-- The record that decides whether a rule is proven to have run.
use kubepreflight.Base.{
  ◌≡◌, ap, sym, ◌∙◌, String, true, false, string_eq, some, List, [], ◌∷◌, map, inl, inr,
  Option-cases, eq_iff, arith,
}
use kubepreflight.Findings.Execution.{
  rule_applicability_eq, RuleExecutionState, rule_execution_state_eq, RuleExecutionRecord,
}
use kubepreflight.Comparison.Compare.{find_execution, rule_proven_evaluated}

pub proven_lem :
    (rule_id : String) (recs : List RuleExecutionRecord)
    → rule_proven_evaluated rule_id recs ≡ true
    → (rec : RuleExecutionRecord) × (find_execution rule_id recs ≡ some rec)
      × (rec.state ≡ RuleExecutionState.evaluated)
unfolding rule_proven_evaluated
proven_lem rule_id recs h = elim (Option-cases (find_execution rule_id recs)) [
  | inl e ↦ let k : false ≡ true = rw e at h in cc
  | inr (rec, e) ↦ (rec, e, (let k = rw e at h in ground arith))
]

-- What is found is the record of the head or is found in the tail.
pub find_execution-cons :
    (rule_id : String) (rec : RuleExecutionRecord) (recs : List RuleExecutionRecord)
    (r target : RuleExecutionRecord)
    → find_execution rule_id (rec ∷ recs) ≡ some r
    → (find_execution rule_id recs ≡ some r → r ≡ target)
    → (rec.rule_id ≡ rule_id → rec ≡ target)
    → r ≡ target
unfolding find_execution
find_execution-cons rule_id rec recs r target h later here =
    ground (arith, eq_iff rec.rule_id rule_id)

-- Where each record is built for its ID, the one found is that of the ID.
pub find_execution-map :
    (g : String → RuleExecutionRecord)
    → ((id : String) → (g id).rule_id ≡ id)
    → (rule_id : String) (ids : List String) (r : RuleExecutionRecord)
    → find_execution rule_id (map g ids) ≡ some r
    → r ≡ g rule_id
find_execution-map g named rule_id [] r h = unfold find_execution in cc
find_execution-map g named rule_id (id ∷ ids) r h =
    find_execution-cons rule_id (g id) (map g ids) r (g rule_id) h
      (find_execution-map g named rule_id ids r) (λ e. ap g (sym (named id) ∙ e))
