-- ===== src/Findings/Report/Verdicts.antt =====
-- The verdict of a report, from its findings, its coverage and its rule executions.
use kubepreflight.Base.{
  ℕ, ◌+◌, ◌≡◌, refl, ap, ◌∙◌, sym, String, Bool, not, ◌==◌, ◌&&◌, ◌||◌, arith, some, List, [], ◌∷◌,
  any, All, if◌then◌else◌, ltb, count,
}
use mathlib.Core.Option.{some-injective}
use kubepreflight.Findings.Types.{Severity, severity_eq}
use kubepreflight.Findings.Context.{UpgradeContext, UpgradeGate, upgrade_gate_eq}
use kubepreflight.Findings.Execution.{ScanCoverage}
use kubepreflight.Findings.Finding.{Finding, effective_upgrade_gate}
use kubepreflight.Findings.Readiness.{
  Verdict, clean, passed_with_warnings, blocked, incomplete, verdict_beq, UpgradeReadinessSummary,
  build_upgrade_readiness_summary,
}
use kubepreflight.Findings.Readiness.Continue.{is_block, HasCategory, upgrade_continue_lem}
use kubepreflight.Findings.Report.{
  Summary, Report, count_gate, count_severity, is_complete, result, exit_code, summarize,
  no_summary, set_coverage, new_report_with_upgrade_context,
}

abbrev pub is_operator_decision : Finding → Bool
is_operator_decision f = effective_upgrade_gate f == UpgradeGate.operator_decision

-- What counts as a warning: the severity, or a blocker that does not block.
abbrev pub is_warning : Finding → Bool
is_warning f = f.severity == Severity.warning || f.severity == Severity.blocker && not (is_block f)

-- Exit code 3, 2, 1 or 0 stands for INCOMPLETE, BLOCKED, PASSED_WITH_WARNINGS or CLEAN.
abbrev pub verdict_code : Verdict → ℕ
verdict_code clean = 0
verdict_code passed_with_warnings = 1
verdict_code blocked = 2
verdict_code incomplete = 3

-- The exit code of a report is the code of its verdict, on every report.
pub exit_code-result : (r : Report) → exit_code r ≡ verdict_code (result r)
unfolding exit_code result
exit_code-result r = ground arith

abbrev one_if : Bool → ℕ
one_if b = if b then 1 else 0

abbrev tally : Finding → Summary → Summary
tally f s =
    count_severity f.severity (effective_upgrade_gate f) (count_gate (effective_upgrade_gate f) s)

tally_counts :
    (s : Summary) (f : Finding)
    → ((tally f s).blockers ≡ s.blockers + one_if (is_block f))
      × ((tally f s).warnings ≡ s.warnings + one_if (is_warning f))
      × ((tally f s).operator_decisions ≡ s.operator_decisions + one_if (is_operator_decision f))
unfolding count_severity count_gate
tally_counts s f = ground arith

summarize-cons :
    (s : Summary) (f : Finding) (fs : List Finding)
    → summarize s (f ∷ fs) ≡ summarize (tally f s) fs
unfolding summarize
summarize-cons s f fs = refl

summarize-nil : (s : Summary) → summarize s [] ≡ s
unfolding summarize
summarize-nil s = refl

summarize_counts :
    (s : Summary) (fs : List Finding)
    → ((summarize s fs).blockers ≡ s.blockers + count is_block fs)
      × ((summarize s fs).warnings ≡ s.warnings + count is_warning fs)
      × ((summarize s fs).operator_decisions ≡ s.operator_decisions + count is_operator_decision fs)
summarize_counts s [] = rw summarize-nil (omega arith)
summarize_counts s (f ∷ fs) =
    rw summarize-cons (omega (arith, tally_counts s f, summarize_counts (tally f s) fs))

any_iff_count {ℓ} : {A : Type ℓ} (p : A → Bool) (xs : List A) → ltb 0 (count p xs) ≡ any p xs
any_iff_count p [] = refl
any_iff_count p (x ∷ xs) = ground (arith, any_iff_count p xs)

-- The verdict that the findings alone call for.
abbrev pub verdict_of : List Finding → Verdict
verdict_of fs =
    if any is_block fs
    then blocked
    else if any is_warning fs || any is_operator_decision fs
    then passed_with_warnings
    else clean

-- What a report keeps up: its summary counts its findings, and its scorecard is that of its
-- verdict.
pub record IsConsistent (r : Report) : Type 0 where
  pub summarized : r.summary ≡ summarize no_summary r.findings
  pub scored : r.upgrade_readiness ≡ some (build_upgrade_readiness_summary r.findings (result r))

-- The verdict of a consistent report is INCOMPLETE if its evidence is, and else the one that its
-- findings call for.
pub result-IsConsistent :
    (r : Report)
    → IsConsistent r
    → result r ≡ (if is_complete r then verdict_of r.findings else incomplete)
result-IsConsistent r c =
    let t = summarize_counts no_summary r.findings in
    unfold result in
    ground (
      arith,
      c.summarized,
      any_iff_count is_block r.findings,
      any_iff_count is_warning r.findings,
      any_iff_count is_operator_decision r.findings,
    )

-- A new report is consistent, whatever its findings and its arguments are.
pub new_report-IsConsistent :
    (canonical_key : List String → String) (target_version cluster_context provider : String)
    (upgrade_context : UpgradeContext) (scanned_at : ℕ) (fs : List Finding)
    → IsConsistent (
        new_report_with_upgrade_context canonical_key target_version cluster_context provider
          upgrade_context scanned_at fs)
unfolding new_report_with_upgrade_context result
new_report-IsConsistent k t c p u a fs = record { summarized = refl; scored = refl }

-- Setting the coverage keeps a report consistent, whether the coverage is complete or not.
pub set_coverage-IsConsistent :
    (r : Report) (c : ScanCoverage) → IsConsistent r → IsConsistent (set_coverage r c)
unfolding set_coverage result
set_coverage-IsConsistent r c h = record { summarized = h.summarized; scored = refl }

continue_of_result :
    (r : Report)
    → IsConsistent r
    → (not (verdict_beq (result r) incomplete)
        && not (any is_block r.findings)
        && not (any is_operator_decision r.findings))
      ≡ (verdict_beq (result r) clean
          || verdict_beq (result r) passed_with_warnings
            && not (any is_operator_decision r.findings))
continue_of_result r c = ground (arith, result-IsConsistent r c)

-- In a consistent report whose findings are all of rules with a category, the scorecard lets the
-- upgrade continue exactly if the verdict is CLEAN, or PASSED_WITH_WARNINGS with no finding left to
-- the operator.
pub upgrade_continue-IsConsistent :
    (r : Report) (s : UpgradeReadinessSummary)
    → IsConsistent r
    → All HasCategory r.findings
    → r.upgrade_readiness ≡ some s
    → s.upgrade_continue ≡ (
        verdict_beq (result r) clean
        || verdict_beq (result r) passed_with_warnings && not (any is_operator_decision r.findings))
upgrade_continue-IsConsistent r s c h e =
    ap (λ t. t.upgrade_continue) (some-injective s _ (sym e ∙ c.scored))
    ∙ upgrade_continue_lem r.findings (result r) h
    ∙ continue_of_result r c
