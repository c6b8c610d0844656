-- ===== src/Examples/Running.antt =====
-- Registries of one rule: API-001 runs cleanly in one and panics in the other.
use kubepreflight.Base.{◌≡◌, String, true, false, Option, none, some, List, [], ◌∷◌, All, refl}
use kubepreflight.Findings.Context.{UpgradeContext}
use kubepreflight.Findings.Execution.{RuleExecutionState}
use kubepreflight.Findings.Report.{Report, is_complete}
use kubepreflight.Rules.Evidence.{EvidencePlane, EvidenceDependency, ScanContext, dependency_state}
use kubepreflight.Rules.Registry.{
  keep_valid, errors_from, Rule, RuleError, returned, panicked, find_rule, run_rule,
  run_all_with_executions, rule_evidence_dependencies,
}
use kubepreflight.Rules.Executions.{IsValid, run_all_with_executions-IsValid}
use kubepreflight.Rules.Evaluated.{evidence_available}
use kubepreflight.Rules.Gaps.{can_run, is_complete-misbehaved}
use mathlib.Core.List.{Mem, mem-cons_self}
use kubepreflight.Base.{inl}
use kubepreflight.Comparison.Compare.{compare, rule_proven_evaluated}
use kubepreflight.Comparison.Compare.Accepted.{document, compare-inl_iff}
use kubepreflight.Comparison.Compare.Membership.{compare-resolved_iff}
use kubepreflight.Rules.FirstError.{FirstError, run_all}
use kubepreflight.Rules.Resolved.{compare-resolved_evaluated}
use kubepreflight.Examples.Data.{new, api_finding, in_order}

abbrev Scan : Type 0
Scan = Option (ScanContext Unit Unit Unit)

abbrev a_scan : Scan
a_scan = some (record {
  k8s = some (record { errors = "pods" ∷ []; evidence = tt });
  aws = none;
  manifests = none;
  upgrade_context = UpgradeContext.unspecified;
  kubernetes_requested = true;
  aws_requested = false;
  manifests_requested = false;
})

abbrev nodes : EvidenceDependency
nodes = record { plane = EvidencePlane.kubernetes; key = "nodes"; prefix = false }

abbrev clean_rule : Rule Scan
clean_rule = record {
  id = "API-001";
  evidence_dependencies_for = none;
  evidence_dependencies = some (nodes ∷ []);
  evaluate = λ sc target. returned [] none;
}

abbrev panicking_rule : Rule Scan
panicking_rule = record clean_rule { evaluate = λ sc target. panicked "nil pointer" }

abbrev reason_of : List RuleError → String
reason_of errors = "an error"

run_all_with_executions-IsValid_example :
    All IsValid (run_all_with_executions reason_of (clean_rule ∷ []) a_scan "1.30").0
run_all_with_executions-IsValid_example =
    run_all_with_executions-IsValid reason_of (clean_rule ∷ []) a_scan "1.30"

abbrev panicked_report : Report
panicked_report = record new {
  rule_executions = (run_all_with_executions reason_of (panicking_rule ∷ []) a_scan "1.30").1;
}

panicking_can_run : can_run reason_of (panicking_rule ∷ []) a_scan "1.30" panicking_rule ≡ true
unfolding rule_evidence_dependencies dependency_state
panicking_can_run = refl

is_complete-misbehaved_example : is_complete panicked_report ≡ false
is_complete-misbehaved_example =
    is_complete-misbehaved reason_of (panicking_rule ∷ []) a_scan "1.30" panicked_report "API-001"
      panicking_rule refl refl refl refl panicking_can_run refl

clean_evaluated :
    (run_rule reason_of (clean_rule ∷ []) a_scan "1.30" "API-001").record_of.state
    ≡ RuleExecutionState.evaluated
unfolding run_rule rule_evidence_dependencies dependency_state
clean_evaluated = refl

-- A finding of API-001 that is gone in a report whose records are those of the clean scan.
abbrev scanned : Report
scanned = record new {
  rule_executions = (run_all_with_executions reason_of (clean_rule ∷ []) a_scan "1.30").1;
}

abbrev before : Report
before = record new { findings = api_finding ∷ [] }

api_proven : rule_proven_evaluated "API-001" scanned.rule_executions ≡ true
unfolding rule_proven_evaluated run_all_with_executions rule_evidence_dependencies dependency_state
api_proven = refl

scanned-accepted : compare in_order before scanned ≡ inl (document in_order before scanned)
scanned-accepted =
    (compare-inl_iff in_order before scanned (document in_order before scanned)).1
      (refl, ((λ e. cc), tt, tt), tt)

api_resolved : Mem api_finding (document in_order before scanned).resolved
api_resolved =
    (compare-resolved_iff in_order before scanned (document in_order before scanned)
        scanned-accepted api_finding).1
      (mem-cons_self, (tt, api_proven))

compare-resolved_evaluated_example :
    (rule : Rule Scan) × (find_rule "API-001" (clean_rule ∷ []) ≡ some rule)
    × (evidence_available reason_of (clean_rule ∷ []) a_scan "1.30" rule ≡ true)
    × (rule.evaluate a_scan "1.30"
        ≡ returned (run_rule reason_of (clean_rule ∷ []) a_scan "1.30" "API-001").findings none)
compare-resolved_evaluated_example =
    compare-resolved_evaluated reason_of (clean_rule ∷ []) a_scan "1.30" in_order before scanned
      (document in_order before scanned) api_finding scanned-accepted refl api_resolved

clean_run_all : run_all a_scan "1.30" (clean_rule ∷ []) ≡ some ([], none)
unfolding run_all keep_valid errors_from
clean_run_all = refl

abbrev no_error : FirstError
no_error = none
