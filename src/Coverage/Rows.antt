-- ===== src/Coverage/Rows.antt =====
-- internal/report/evaluation_coverage.go: the rows of the table of rule executions.
use Prim.Native.String.{◌++◌ as append}
use kubepreflight.Base.{ℕ, String, Bool, ◌==◌, string_eq, nat_eq, if◌then◌else◌, List, map, count}
use kubepreflight.Base.Order.{string_lt}
use kubepreflight.Base.Sorting.{sort}
use kubepreflight.Findings.Execution.{
  RuleApplicability, rule_applicability_eq, RuleExecutionState, RuleExecutionRecord,
}
use kubepreflight.Findings.Report.{Report}

abbrev pub applicability_label : RuleApplicability → String
applicability_label RuleApplicability.not_applicable = "Not applicable"
applicability_label _ = "Applicable"

abbrev pub execution_state_label : RuleExecutionState → String
execution_state_label RuleExecutionState.evaluated = "Evaluated"
execution_state_label RuleExecutionState.insufficient_evidence = "Insufficient evidence"
execution_state_label RuleExecutionState.failed = "Failed"
execution_state_label _ = "Not evaluated"

abbrev class_of_state : RuleExecutionState → String
class_of_state RuleExecutionState.evaluated = "clean"
class_of_state RuleExecutionState.insufficient_evidence = "insufficient"
class_of_state RuleExecutionState.failed = "blocked"
class_of_state _ = "not-evaluated"

unfoldable pub rule_state_class : RuleApplicability → RuleExecutionState → String
rule_state_class applicability state =
    if applicability == RuleApplicability.not_applicable
    then "not-applicable"
    else class_of_state state

pub record RuleExecutionRow : Type 0 where
  pub rule_id : String
  pub applicability : String
  pub state : String
  pub state_class : String
  pub outcome : String
  pub reason : String

-- The entry of the map `findingCounts`.
abbrev pub finding_count : Report → String → ℕ
finding_count r rule_id = count (λ f. f.rule_id == rule_id) r.findings

abbrev pub less_row : RuleExecutionRow → RuleExecutionRow → Bool
less_row a b = string_lt a.rule_id b.rule_id

module _ (decimal : ℕ → String) where
  unfoldable pub outcome_of_state : RuleExecutionState → ℕ → String
  outcome_of_state RuleExecutionState.evaluated n =
      if n == 0 then "No issue detected" else append (decimal n) " finding(s) reported"
  outcome_of_state RuleExecutionState.insufficient_evidence n = "Unable to verify"
  outcome_of_state RuleExecutionState.failed n = "Evaluation failed"
  outcome_of_state _ n = "Not evaluated"

  unfoldable pub rule_outcome_label : RuleApplicability → RuleExecutionState → ℕ → String
  unfolding outcome_of_state
  rule_outcome_label applicability state finding_count =
      if applicability == RuleApplicability.not_applicable
      then "Not applicable"
      else outcome_of_state state finding_count

  unfoldable pub row_of : Report → RuleExecutionRecord → RuleExecutionRow
  row_of r rec = record {
    rule_id = rec.rule_id;
    applicability = applicability_label rec.applicability;
    state = execution_state_label rec.state;
    state_class = rule_state_class rec.applicability rec.state;
    outcome = rule_outcome_label rec.applicability rec.state (finding_count r rec.rule_id);
    reason = rec.reason;
  }

  -- Rows of one rule ID may change places under Go's `sort.Slice`; here they keep their order.
  unfoldable pub build_rule_execution_rows : Report → List RuleExecutionRow
  unfolding row_of
  build_rule_execution_rows r = sort less_row (map (row_of r) r.rule_executions)
