-- ===== src/Gate/Evaluate.antt =====
-- internal/gate/model.go and internal/gate/evaluate.go: the policy, and `Evaluate`.
use Prim.Native.String.{◌++◌ as append}
use kubepreflight.Base.{
  ℕ, String, Bool, true, not, ◌==◌, string_eq, if◌then◌else◌, ◌&&◌, ◌||◌, List, [], ◌∷◌, ◌++◌,
  length, ltb, count,
}
use kubepreflight.Base.Int.{ℤ, pos, ltb_ℤ}
use kubepreflight.Findings.Types.{Severity, severity_eq}
use kubepreflight.Findings.Finding.{Finding}
use kubepreflight.Findings.Readiness.{Verdict, clean, passed_with_warnings, blocked, incomplete}
use kubepreflight.Findings.Report.{Report, is_complete}
use kubepreflight.Comparison.Model.{Comparison}
use kubepreflight.Coverage.Status.{
  status_text, overall_advisory, build_evaluation_coverage, build_overall_coverage,
}

pub data Decision : Type 0 where
  pass fail neutral : Decision

-- A Go string type: any other text is a value too.
pub data WarningPolicy : Type 0 where
  ignore fail_on_new fail_on_any : WarningPolicy
  other : String → WarningPolicy

pub data ReasonCode : Type 0 where
  new_blockers_detected new_warnings_detected warnings_present : ReasonCode
  readiness_verdict_regressed readiness_score_regressed insufficient_evidence : ReasonCode

pub record Policy : Type 0 where
  pub fail_on_new_blockers : Bool
  pub warning_policy : WarningPolicy
  pub fail_on_verdict_regression : Bool
  pub minimum_score_delta : ℤ

abbrev pub default_policy : Policy
default_policy = record {
  fail_on_new_blockers = true;
  warning_policy = ignore;
  fail_on_verdict_regression = true;
  minimum_score_delta = pos 0;
}

pub record EvaluationCoverage : Type 0 where
  pub status : String
  pub not_evaluated : ℕ
  pub insufficient_evidence : ℕ
  pub failed : ℕ
  pub normalized : Bool
  pub degraded_planes : List String
  pub not_re_evaluated : ℕ

pub record Result : Type 0 where
  pub schema_version : String
  pub decision : Decision
  pub reasons : List ReasonCode
  pub new_blockers : ℕ
  pub new_warnings : ℕ
  pub current_warnings : ℕ
  pub resolved_findings : ℕ
  pub score_delta : ℤ
  pub evaluation_coverage : EvaluationCoverage
  pub evaluation_advisories : List String

-- A map lookup: INCOMPLETE is not in the table and ranks 0.
abbrev pub verdict_rank : Verdict → ℕ
verdict_rank clean = 0
verdict_rank passed_with_warnings = 1
verdict_rank blocked = 2
verdict_rank incomplete = 0

unfoldable pub verdict_regressed : Verdict → Verdict → Bool
verdict_regressed baseline current = ltb (verdict_rank baseline) (verdict_rank current)

abbrev pub count_severity : List Finding → Severity → ℕ
count_severity entries severity = count (λ e. e.severity == severity) entries

abbrev pub has_warnings : Comparison → Bool
has_warnings cmp = ltb 0 (length cmp.warnings)

-- The evidence that the decision needs.
unfoldable pub insufficient : Report → Report → Comparison → Bool
insufficient baseline current cmp =
    not (is_complete baseline) || not (is_complete current) || has_warnings cmp

abbrev pub reason_if : Bool → ReasonCode → List ReasonCode
reason_if b r = if b then r ∷ [] else []

-- The `switch` on the policy for warnings.
unfoldable pub warning_reasons : WarningPolicy → ℕ → ℕ → List ReasonCode
warning_reasons fail_on_new new current = reason_if (ltb 0 new) new_warnings_detected
warning_reasons fail_on_any new current = reason_if (ltb 0 current) warnings_present
warning_reasons _ new current = []

unfoldable pub reasons_of : Report → Comparison → Policy → List ReasonCode
unfolding warning_reasons verdict_regressed
reasons_of current cmp policy =
    reason_if (policy.fail_on_new_blockers && ltb 0 cmp.summary.new_blockers) new_blockers_detected
    ++ warning_reasons policy.warning_policy (count_severity cmp.new Severity.warning)
        current.summary.warnings
    ++ reason_if
        (policy.fail_on_verdict_regression
          && verdict_regressed cmp.summary.baseline_verdict cmp.summary.current_verdict)
        readiness_verdict_regressed
    ++ reason_if (ltb_ℤ cmp.summary.readiness_score_delta policy.minimum_score_delta)
        readiness_score_regressed

abbrev pub not_re_evaluated_explanation : String
not_re_evaluated_explanation =
    "The finding was present in the baseline, but its rule was not successfully evaluated in the current report, so resolution cannot be confirmed."

-- `decimal` is what `fmt.Sprintf` prints for `%d`.
module _ (decimal : ℕ → String) where
  -- `buildEvaluationPresentation`.
  unfoldable pub build_evaluation_presentation :
      Report → Comparison → EvaluationCoverage × List String
  build_evaluation_presentation current cmp =
      let rule_cov = build_evaluation_coverage current in
      let overall_cov = build_overall_coverage rule_cov current.coverage in
      let advisory = overall_advisory decimal overall_cov in
      let n = cmp.summary.not_re_evaluated in
      (
        record {
          status = status_text overall_cov.status;
          not_evaluated = rule_cov.not_evaluated;
          insufficient_evidence = rule_cov.insufficient_evidence;
          failed = rule_cov.failed;
          normalized = rule_cov.normalized;
          degraded_planes = overall_cov.degraded_planes;
          not_re_evaluated = n;
        },
        (if advisory == "" then [] else advisory ∷ [])
            ++ (if ltb 0 n
                then append (decimal n) (
                    append " baseline finding(s) were not re-evaluated this scan: "
                      not_re_evaluated_explanation)
                  ∷ []
                else []),
      )

  -- The fields that are set on every path.
  unfoldable pub facts : Report → Comparison → Decision → List ReasonCode → Result
  unfolding build_evaluation_presentation
  facts current cmp decision reasons =
      let (coverage, advisories) = build_evaluation_presentation current cmp in
      record {
        schema_version = "kubepreflight.io/comparison-gate/v1";
        decision = decision;
        reasons = reasons;
        new_blockers = cmp.summary.new_blockers;
        new_warnings = count_severity cmp.new Severity.warning;
        current_warnings = current.summary.warnings;
        resolved_findings = cmp.summary.resolved;
        score_delta = cmp.summary.readiness_score_delta;
        evaluation_coverage = coverage;
        evaluation_advisories = advisories;
      }

  unfoldable pub decide : Report → Comparison → List ReasonCode → Result
  unfolding facts
  decide current cmp [] = facts current cmp pass []
  decide current cmp reasons = facts current cmp fail reasons

  unfoldable pub evaluate : Report → Report → Comparison → Policy → Result
  unfolding facts decide insufficient reasons_of
  evaluate baseline current cmp policy =
      if insufficient baseline current cmp
      then facts current cmp neutral (insufficient_evidence ∷ [])
      else decide current cmp (reasons_of current cmp policy)
