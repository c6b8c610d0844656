-- ===== src/Rules/Resolved.antt =====
-- From the registry to the comparison: what a resolved finding says of the scan.
use mathlib.Core.List.{Mem}
use kubepreflight.Base.{
  ◌≡◌, String, true, string_eq, Option, none, some, List, [], ◌∷◌, inl, sym, ◌∙◌, ap,
}
use kubepreflight.Findings.Execution.{
  rule_applicability_eq, rule_execution_state_eq, RuleExecutionRecord,
}
use kubepreflight.Findings.Finding.{Finding}
use kubepreflight.Findings.Report.{Report}
use kubepreflight.Comparison.Model.{Comparison}
use kubepreflight.Comparison.Compare.{MapOrder, compare, find_execution}
use kubepreflight.Comparison.Compare.Membership.{compare-resolved_iff}
use kubepreflight.Comparison.Compare.Proven.{proven_lem, find_execution-cons}
use kubepreflight.Rules.Evidence.{ScanContext}
use kubepreflight.Rules.Registry.{
  RuleError, Rule, returned, find_rule, run_rule, run_universe, run_all_with_executions,
  all_rule_ids,
}
use kubepreflight.Rules.Executions.{run_rule-rule_id}
use kubepreflight.Rules.Evaluated.{evidence_available, run_rule-evaluated}

module _ {K A M : Type 0} (reason_of : List RuleError → String)
    (rules : List (Rule (Option (ScanContext K A M)))) (sc : Option (ScanContext K A M))
    (target_version : String) where
  find_execution-run_universe :
      (rule_id : String) (ids : List String) (r : RuleExecutionRecord)
      → find_execution rule_id (run_universe reason_of rules sc target_version ids).1 ≡ some r
      → r ≡ (run_rule reason_of rules sc target_version rule_id).record_of
  find_execution-run_universe rule_id [] r h = unfold run_universe find_execution in cc
  find_execution-run_universe rule_id (id ∷ ids) r h =
      find_execution-cons rule_id (run_rule reason_of rules sc target_version id).record_of
        (run_universe reason_of rules sc target_version ids).1 r
        (run_rule reason_of rules sc target_version rule_id).record_of (unfold run_universe in h)
        (find_execution-run_universe rule_id ids r)
        (λ e.
          ap (λ t. (run_rule reason_of rules sc target_version t).record_of)
            (sym (run_rule-rule_id reason_of rules sc target_version id) ∙ e))

  -- If `Compare` succeeds and the current report holds the records of a scan, then a finding is
  -- resolved only if its rule is registered, all the evidence that it depends on and that the scan
  -- requested was collected with no error in it, which is some evidence unless it depends on none, and
  -- it ran without an error or a panic. Evidence of a plane that was not requested may be missing.
  pub compare-resolved_evaluated :
      (o : MapOrder) (b c : Report) (d : Comparison) (f : Finding)
      → compare o b c ≡ inl d
      → c.rule_executions ≡ (run_all_with_executions reason_of rules sc target_version).1
      → Mem f d.resolved
      → (rule : Rule (Option (ScanContext K A M))) × (find_rule f.rule_id rules ≡ some rule)
        × (evidence_available reason_of rules sc target_version rule ≡ true)
        × (rule.evaluate sc target_version
            ≡ returned (run_rule reason_of rules sc target_version f.rule_id).findings none)
  compare-resolved_evaluated o b c d f h e m =
      let (mb, (fresh, p)) = (compare-resolved_iff o b c d h f).0 m in
      let (rec, q, s) = proven_lem f.rule_id c.rule_executions p in
      let k =
        find_execution-run_universe f.rule_id all_rule_ids rec
          (unfold run_all_with_executions in rw e at q) in
      run_rule-evaluated reason_of rules sc target_version f.rule_id (rw k at s)
