-- ===== src/Coverage/Status.antt =====
-- internal/report/evaluation_coverage.go: `BuildEvaluationCoverage`, `BuildOverallCoverage` and
-- their advisories. `decimal` is what `fmt.Sprintf` prints for `%d`.
use Prim.Native.String.{◌++◌ as append}
use kubepreflight.Base.{
  ℕ, ◌+◌, String, Bool, true, false, ◌==◌, string_eq, nat_eq, if◌then◌else◌, ◌&&◌, ◌||◌, List, [],
  ◌∷◌, ◌++◌, length, ltb,
}
use kubepreflight.Findings.Execution.{
  CoverageStatus, coverage_status_eq, RuleApplicability, rule_applicability_eq, RuleExecutionState,
  ScanCoverage, RuleExecutionRecord,
}
use kubepreflight.Findings.Report.{Report}

pub data EvaluationCoverageStatus : Type 0 where
  complete partial unavailable normalized_legacy : EvaluationCoverageStatus

-- The wire value of a status.
abbrev pub status_text : EvaluationCoverageStatus → String
status_text complete = "complete"
status_text partial = "partial"
status_text unavailable = "unavailable"
status_text normalized_legacy = "normalized_legacy"

abbrev pub is_partial : EvaluationCoverageStatus → Bool
is_partial partial = true
is_partial _ = false

abbrev pub status_label : EvaluationCoverageStatus → String
status_label complete = "Complete"
status_label partial = "Partial"
status_label normalized_legacy = "Normalized legacy"
status_label unavailable = "Unavailable"

pub record EvaluationCoverage : Type 0 where
  pub has_data : Bool
  pub coverage_label : String
  pub total_rules : ℕ
  pub evaluated : ℕ
  pub not_evaluated : ℕ
  pub insufficient_evidence : ℕ
  pub failed : ℕ
  pub not_applicable : ℕ
  pub source : String
  pub normalized : Bool
  pub status : EvaluationCoverageStatus

-- The `switch` on the state of a rule that is not excluded.
unfoldable pub count_state : RuleExecutionState → EvaluationCoverage → EvaluationCoverage
count_state RuleExecutionState.evaluated c = record c { evaluated = c.evaluated + 1 }
count_state RuleExecutionState.insufficient_evidence c = record c {
  insufficient_evidence = c.insufficient_evidence + 1;
}
count_state RuleExecutionState.failed c = record c { failed = c.failed + 1 }
count_state _ c = record c { not_evaluated = c.not_evaluated + 1 }

unfoldable pub count_record : RuleExecutionRecord → EvaluationCoverage → EvaluationCoverage
unfolding count_state
count_record rec c =
    if rec.applicability == RuleApplicability.not_applicable
    then record c { not_applicable = c.not_applicable + 1 }
    else count_state rec.state c

-- The loop over the records.
unfoldable pub count_records : EvaluationCoverage → List RuleExecutionRecord → EvaluationCoverage
unfolding count_record
count_records c [] = c
count_records c (rec ∷ recs) = count_records (count_record rec c) recs

abbrev pub zero_coverage : EvaluationCoverage
zero_coverage = record {
  has_data = false;
  coverage_label = "";
  total_rules = 0;
  evaluated = 0;
  not_evaluated = 0;
  insufficient_evidence = 0;
  failed = 0;
  not_applicable = 0;
  source = "";
  normalized = false;
  status = unavailable;
}

-- No rule is counted as a gap.
abbrev pub without_gap : EvaluationCoverage → Bool
without_gap c = c.not_evaluated == 0 && c.insufficient_evidence == 0 && c.failed == 0

-- What follows the loop.
unfoldable pub conclude : EvaluationCoverage → EvaluationCoverage
conclude c =
    let label = if without_gap c then "Complete" else "Partial" in
    let labelled : EvaluationCoverage = record c { coverage_label = label } in
    if c.normalized
    then record labelled { source = "Normalized from legacy report"; status = normalized_legacy }
    else record labelled { source = "Native"; status = if without_gap c then complete else partial }

abbrev pub fresh_coverage : Bool → ℕ → EvaluationCoverage
fresh_coverage normalized total = record zero_coverage {
  has_data = true;
  total_rules = total;
  normalized = normalized;
}

unfoldable pub coverage_of : Bool → List RuleExecutionRecord → EvaluationCoverage
unfolding count_records conclude
coverage_of normalized [] = zero_coverage
coverage_of normalized (rec ∷ recs) =
    conclude (count_records (fresh_coverage normalized (length (rec ∷ recs))) (rec ∷ recs))

unfoldable pub build_evaluation_coverage : Report → EvaluationCoverage
unfolding coverage_of
build_evaluation_coverage r = coverage_of r.rule_executions_normalized r.rule_executions

pub record OverallCoverage : Type 0 where
  pub status : EvaluationCoverageStatus
  pub rule_coverage : EvaluationCoverage
  pub degraded_planes : List String

-- One round of the loop over the planes.
abbrev plane_if_partial : String → CoverageStatus → List String
plane_if_partial name status = if status == CoverageStatus.partial then name ∷ [] else []

unfoldable pub degraded_planes_of : ScanCoverage → List String
degraded_planes_of sc =
    plane_if_partial "Kubernetes" sc.kubernetes.status
    ++ plane_if_partial "AWS" sc.aws.status
    ++ plane_if_partial "Manifests" sc.manifests.status

unfoldable pub overall_of :
    EvaluationCoverageStatus → EvaluationCoverage → List String → OverallCoverage
overall_of unavailable c planes = record {
  status = unavailable;
  rule_coverage = c;
  degraded_planes = [];
}
overall_of normalized_legacy c planes = record {
  status = normalized_legacy;
  rule_coverage = c;
  degraded_planes = [];
}
overall_of s c planes = record {
  status = if is_partial s || ltb 0 (length planes) then partial else complete;
  rule_coverage = c;
  degraded_planes = planes;
}

unfoldable pub build_overall_coverage : EvaluationCoverage → ScanCoverage → OverallCoverage
unfolding overall_of degraded_planes_of
build_overall_coverage c sc = overall_of c.status c (degraded_planes_of sc)

abbrev pub pluralize : ℕ → String → String → String
pluralize n singular plural = if n == 1 then singular else plural

-- `strings.Join`.
abbrev pub join : String → List String → String
join sep [] = ""
join sep (s ∷ []) = s
join sep (s ∷ t ∷ ts) = append s (append sep (join sep (t ∷ ts)))

abbrev pub gap_of : EvaluationCoverage → ℕ
gap_of c = c.not_evaluated + c.insufficient_evidence + c.failed

module _ (decimal : ℕ → String) where
  -- "%d applicable rules were not fully evaluated"
  unfoldable pub gap_sentence : ℕ → String
  gap_sentence gap = append (decimal gap) (
      append " applicable " (append (pluralize gap "rule was" "rules were") " not fully evaluated"))

  unfoldable pub advisory_of : EvaluationCoverageStatus → EvaluationCoverage → String
  unfolding gap_sentence
  advisory_of partial c = append (gap_sentence (gap_of c)) ". Review before approving the change."
  advisory_of unavailable c =
      "No rule-execution metadata is available for this report; evaluation coverage cannot be confirmed. Review before approving the change."
  advisory_of normalized_legacy c =
      "This report's rule-execution metadata was normalized from a legacy pre-v1.3.0 document (inferred from finding presence/absence), not recorded natively during the scan. Treat coverage figures as an inference, not this scan's own evidence."
  advisory_of complete c = ""

  -- `EvaluationCoverage.Advisory`.
  unfoldable pub evaluation_advisory : EvaluationCoverage → String
  unfolding advisory_of
  evaluation_advisory c = advisory_of c.status c

  unfoldable pub overall_advisory_of : EvaluationCoverageStatus → OverallCoverage → String
  unfolding evaluation_advisory gap_sentence
  overall_advisory_of unavailable o = evaluation_advisory o.rule_coverage
  overall_advisory_of normalized_legacy o = evaluation_advisory o.rule_coverage
  overall_advisory_of partial o =
      append
        (join "; " (
          (if ltb 0 (gap_of o.rule_coverage)
            then gap_sentence (gap_of o.rule_coverage) ∷ []
            else [])
          ++ (if ltb 0 (length o.degraded_planes)
              then append "evidence collection was incomplete for: " (join ", " o.degraded_planes)
                ∷ []
              else [])))
        ". Review before approving the change."
  overall_advisory_of complete o = ""

  -- `OverallCoverage.Advisory`.
  unfoldable pub overall_advisory : OverallCoverage → String
  unfolding overall_advisory_of
  overall_advisory o = overall_advisory_of o.status o
