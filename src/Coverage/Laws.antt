-- ===== src/Coverage/Laws.antt =====
-- The counts and the status of the coverage, and the verdict of the report.
use mathlib.Core.Logic.{◌↔◌}
use kubepreflight.Base.{
  ℕ, ◌+◌, ◌≡◌, ◌≢◌, refl, Bool, true, false, ◌/=◌, string_eq, nat_eq, if◌then◌else◌, ◌&&◌, List, [],
  ◌∷◌, length, ltb, any, count, arith,
}
use kubepreflight.Findings.Execution.{
  coverage_status_eq, RuleApplicability, rule_applicability_eq, RuleExecutionState,
  rule_execution_state_eq, ScanCoverage, RuleExecutionRecord,
}
use kubepreflight.Findings.Report.{Report, is_complete, any_partial, is_gap}
use kubepreflight.Coverage.Status.{
  EvaluationCoverageStatus, complete, partial, unavailable, normalized_legacy, EvaluationCoverage,
  count_state, count_record, count_records, conclude, coverage_of, build_evaluation_coverage,
  gap_of, fresh_coverage, build_overall_coverage, degraded_planes_of, overall_of, OverallCoverage,
}

-- A rule that is not excluded from the scan and did not finish cleanly.
abbrev pub is_open : RuleExecutionRecord → Bool
is_open rec =
    rec.applicability /= RuleApplicability.not_applicable
    && rec.state /= RuleExecutionState.evaluated

abbrev pub tallied : EvaluationCoverage → ℕ
tallied c = c.evaluated + c.not_evaluated + c.insufficient_evidence + c.failed + c.not_applicable

count_record_step :
    (rec : RuleExecutionRecord) (c : EvaluationCoverage)
    → (tallied (count_record rec c) ≡ tallied c + 1)
      × (gap_of (count_record rec c) ≡ gap_of c + (if is_open rec then 1 else 0))
      × ((count_record rec c).total_rules ≡ c.total_rules)
      × ((count_record rec c).normalized ≡ c.normalized)
unfolding count_record count_state
count_record_step rec c = ground arith

count_records-cons :
    (c : EvaluationCoverage) (rec : RuleExecutionRecord) (recs : List RuleExecutionRecord)
    → count_records c (rec ∷ recs) ≡ count_records (count_record rec c) recs
unfolding count_records
count_records-cons c rec recs = refl

count_records-nil : (c : EvaluationCoverage) → count_records c [] ≡ c
unfolding count_records
count_records-nil c = refl

count_records_lem :
    (c : EvaluationCoverage) (recs : List RuleExecutionRecord)
    → (tallied (count_records c recs) ≡ tallied c + length recs)
      × (gap_of (count_records c recs) ≡ gap_of c + count is_open recs)
      × ((count_records c recs).total_rules ≡ c.total_rules)
      × ((count_records c recs).normalized ≡ c.normalized)
count_records_lem c [] = rw count_records-nil (ground arith)
count_records_lem c (rec ∷ recs) =
    rw count_records-cons
      (ground (arith, count_record_step rec c, count_records_lem (count_record rec c) recs))

conclude_lem :
    (c : EvaluationCoverage)
    → (tallied (conclude c) ≡ tallied c) × ((conclude c).total_rules ≡ c.total_rules)
unfolding conclude
conclude_lem c = ground arith

coverage_of_total :
    (normalized : Bool) (recs : List RuleExecutionRecord)
    → ((coverage_of normalized recs).total_rules ≡ length recs)
      × (tallied (coverage_of normalized recs) ≡ length recs)
unfolding coverage_of
coverage_of_total n [] = (refl, refl)
coverage_of_total n (rec ∷ recs) =
    let c = fresh_coverage n (length (rec ∷ recs)) in
    ground (arith, conclude_lem (count_records c (rec ∷ recs)), count_records_lem c (rec ∷ recs))

-- Every record of a rule is counted exactly once: the counts of the coverage add up to its total,
-- the number of records.
pub build_evaluation_coverage_total :
    (r : Report)
    → ((build_evaluation_coverage r).total_rules ≡ length r.rule_executions)
      × (tallied (build_evaluation_coverage r) ≡ length r.rule_executions)
unfolding build_evaluation_coverage
build_evaluation_coverage_total r = coverage_of_total r.rule_executions_normalized r.rule_executions

count_is_open : (recs : List RuleExecutionRecord) → ltb 0 (count is_open recs) ≡ any is_open recs
count_is_open [] = refl
count_is_open (rec ∷ recs) = ground (arith, count_is_open recs)

conclude_status :
    (c : EvaluationCoverage)
    → (conclude c).status
      ≡ (if c.normalized then normalized_legacy else if ltb 0 (gap_of c) then partial else complete)
unfolding conclude
conclude_status c = ground arith

-- The status of the coverage, from the records: unavailable without any, normalized_legacy for
-- records that were inferred, and else partial or complete as a rule is open or none is.
abbrev pub expected_status : Bool → List RuleExecutionRecord → EvaluationCoverageStatus
expected_status n [] = unavailable
expected_status n (rec ∷ recs) =
    if n then normalized_legacy else if any is_open (rec ∷ recs) then partial else complete

coverage_of_status :
    (n : Bool) (recs : List RuleExecutionRecord)
    → (coverage_of n recs).status ≡ expected_status n recs
unfolding coverage_of
coverage_of_status n [] = refl
coverage_of_status n (rec ∷ recs) =
    let c = fresh_coverage n (length (rec ∷ recs)) in
    rw conclude_status
      (ground (arith, count_records_lem c (rec ∷ recs), count_is_open (rec ∷ recs)))

-- The status is decided by the records: unavailable without any, normalized_legacy for records that
-- were inferred, whatever they say, and else partial or complete as a rule is open or none is.
pub build_evaluation_coverage-status :
    (r : Report)
    → (build_evaluation_coverage r).status
      ≡ expected_status r.rule_executions_normalized r.rule_executions
unfolding build_evaluation_coverage
build_evaluation_coverage-status r =
    coverage_of_status r.rule_executions_normalized r.rule_executions

abbrev pub overall : Report → OverallCoverage
overall r = build_overall_coverage (build_evaluation_coverage r) r.coverage

-- The coverage of the rules has status s, the planes sc: what the combined status then is.
overall_status :
    (s : EvaluationCoverageStatus) (c : EvaluationCoverage) (sc : ScanCoverage)
    → ((overall_of s c (degraded_planes_of sc)).status ≡ complete)
      ↔ ((s ≡ complete) × (any_partial sc ≡ false))
unfolding overall_of degraded_planes_of any_partial
overall_status s c sc = ground arith

expected_complete_iff :
    (n : Bool) (recs : List RuleExecutionRecord)
    → (expected_status n recs ≡ complete) ↔ ((recs ≢ []) × (n ≡ false) × (any is_open recs ≡ false))
expected_complete_iff n [] = ground arith
expected_complete_iff n (rec ∷ recs) = ground arith

open_of_gap : (recs : List RuleExecutionRecord) → any is_open recs ≡ false → any is_gap recs ≡ false
open_of_gap [] h = refl
open_of_gap (rec ∷ recs) h = ground (arith, open_of_gap recs)

-- The combined coverage of a report reads complete exactly if the report is complete, has rule
-- executions, recorded them itself, and left no rule open.
pub overall-complete_iff :
    (r : Report)
    → ((overall r).status ≡ complete) ↔ (
        (is_complete r ≡ true)
        × (r.rule_executions ≢ [])
        × (r.rule_executions_normalized ≡ false)
        × (any is_open r.rule_executions ≡ false))
unfolding build_overall_coverage is_complete
overall-complete_iff r =
    let c = build_evaluation_coverage r in
    ground (
      arith,
      overall_status c.status c r.coverage,
      build_evaluation_coverage-status r,
      expected_complete_iff r.rule_executions_normalized r.rule_executions,
      open_of_gap r.rule_executions,
    )
