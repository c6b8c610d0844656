-- ===== src/Rollback/Eks/Pipeline.antt =====
-- internal/cli/rollback.go: the steps of an assessment, one after the other, and its exit code. The
-- two calls of the clock are two arguments.
pub mod Preferred
use kubepreflight.Base.{ℕ, String, Option, none, some, ◌⊎◌, inl, inr}
use kubepreflight.Findings.Report.{Report}
use kubepreflight.Rollback.Types.{AssessmentMode, RecommendationDecision}
use kubepreflight.Rollback.Model.{Assessment, ValidationError, validate}
use kubepreflight.Rollback.Recommendation.{apply_recommendation}
use kubepreflight.Rollback.Operational.{apply_operational_readiness}
use kubepreflight.Rollback.Eks.Snapshot.{Snapshot}
use kubepreflight.Rollback.Eks.History.{SdkNames}
use kubepreflight.Rollback.Eks.Eligibility.{evaluate_eligibility}
use kubepreflight.Rollback.Eks.Insights.{InsightStatusNames, apply_rollback_insights}

abbrev pub rollback_exit_code : RecommendationDecision → ℕ
rollback_exit_code RecommendationDecision.rollback_preferred = 0
rollback_exit_code RecommendationDecision.do_not_proceed = 2
rollback_exit_code _ = 1

module _ (sdk : SdkNames) (names : InsightStatusNames) (print_time : ℕ → String)
    (print_age : ℕ → String) where
  -- `snap` is missing in the functions only; the command always has one.
  unfoldable pub assess : Option Snapshot → AssessmentMode → Option Report → ℕ → ℕ → Assessment
  assess snap mode report now later =
      let eligible = evaluate_eligibility sdk print_time snap now in
      let informed =
        apply_rollback_insights names print_time (record eligible { mode = mode }) snap later in
      apply_recommendation (apply_operational_readiness print_time print_age informed report)

  abbrev or_invalid : Assessment → Option ValidationError → ValidationError ⊎ (Assessment × ℕ)
  or_invalid a none = inr (a, rollback_exit_code a.recommendation.decision)
  or_invalid a (some e) = inl e

  -- An assessment that `Validate` refuses is an error of the command.
  unfoldable pub run_rollback :
      Option Snapshot → AssessmentMode → Option Report → ℕ → ℕ → ValidationError ⊎ (Assessment × ℕ)
  run_rollback snap mode report now later =
      let a = assess snap mode report now later in or_invalid a (validate a)
