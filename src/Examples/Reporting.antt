-- ===== src/Examples/Reporting.antt =====
-- One report: its priorities, its verdict, its scorecard and its coverage.
use kubepreflight.Base.{
  ◌≡◌, ◌≢◌, ◌↔◌, refl, true, false, not, string_eq, if◌then◌else◌, ◌&&◌, ◌||◌, [], ◌∷◌, any, All,
}
use kubepreflight.Base.Int.{pos, ◌≤ℤ◌}
use kubepreflight.Findings.Context.{UpgradeContext, UpgradeGate, upgrade_gate_eq}
use kubepreflight.Findings.Finding.{effective_upgrade_gate}
use kubepreflight.Findings.Priority.{assign_priority}
use kubepreflight.Findings.Priority.Laws.{can_continue_iff}
use kubepreflight.Findings.Readiness.{
  clean, incomplete, passed_with_warnings, verdict_beq, build_upgrade_readiness_summary,
  category_by_rule_id,
}
use kubepreflight.Findings.Readiness.Laws.{AllPassed, readiness_score_bounds}
use kubepreflight.Findings.Readiness.Continue.{HasCategory}
use kubepreflight.Findings.Report.{is_complete, result, new_report_with_upgrade_context}
use kubepreflight.Findings.Report.Verdicts.{
  verdict_of, is_operator_decision, IsConsistent, result-IsConsistent, new_report-IsConsistent,
  upgrade_continue-IsConsistent,
}
use kubepreflight.Coverage.Status.{complete}
use kubepreflight.Coverage.Laws.{is_open, overall, overall-complete_iff}
use kubepreflight.Coverage.Rows.{row_of, rule_outcome_label}
use kubepreflight.Examples.Data.{evaluated_record, api_finding, pdb_finding, new, fresh, decimal}

can_continue_iff_example : ((assign_priority pdb_finding).can_upgrade_continue ≡ true) ↔ (
    (effective_upgrade_gate pdb_finding ≡ UpgradeGate.allow) × (pdb_finding.global_blocker ≡ false))
can_continue_iff_example = can_continue_iff pdb_finding

readiness_score_bounds_example :
    let s = build_upgrade_readiness_summary (api_finding ∷ []) clean in
    (pos 0 ≤ℤ s.readiness_score)
    × (s.readiness_score ≤ℤ pos 100)
    × ((s.readiness_score ≡ pos 100) ↔ AllPassed s.categories)
readiness_score_bounds_example = readiness_score_bounds (api_finding ∷ []) clean

fresh-IsConsistent : IsConsistent fresh
fresh-IsConsistent =
    new_report-IsConsistent (λ parts. "") "1.30" "test" "" UpgradeContext.unspecified 0
      (api_finding ∷ pdb_finding ∷ [])

pdb-HasCategory : HasCategory pdb_finding
unfolding category_by_rule_id
pdb-HasCategory = (_, refl)

result-IsConsistent_example :
    result fresh ≡ (if is_complete fresh then verdict_of fresh.findings else incomplete)
result-IsConsistent_example = result-IsConsistent fresh fresh-IsConsistent

api-HasCategory : HasCategory api_finding
unfolding category_by_rule_id
api-HasCategory = (_, refl)

fresh-HasCategory : All HasCategory fresh.findings
unfolding new_report_with_upgrade_context assign_priority
fresh-HasCategory = (api-HasCategory, (pdb-HasCategory, tt))

upgrade_continue-IsConsistent_example :
    (build_upgrade_readiness_summary fresh.findings (result fresh)).upgrade_continue ≡ (
      verdict_beq (result fresh) clean
      || verdict_beq (result fresh) passed_with_warnings
        && not (any is_operator_decision fresh.findings))
upgrade_continue-IsConsistent_example =
    upgrade_continue-IsConsistent fresh
      (build_upgrade_readiness_summary fresh.findings (result fresh)) fresh-IsConsistent
      fresh-HasCategory fresh-IsConsistent.scored

overall-complete_iff_example : ((overall new).status ≡ complete) ↔ (
    (is_complete new ≡ true)
    × (new.rule_executions ≢ [])
    × (new.rule_executions_normalized ≡ false)
    × (any is_open new.rule_executions ≡ false))
overall-complete_iff_example = overall-complete_iff new

api_row_clean : (row_of decimal new (evaluated_record "API-001")).outcome ≡ "No issue detected"
unfolding row_of rule_outcome_label
api_row_clean = refl
