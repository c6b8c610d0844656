-- ===== src/Rollback/Recommendation.antt =====
-- internal/rollback/recommendation.go: `ApplyRecommendation`.
pub mod Laws
pub mod Reasons
use kubepreflight.Base.{
  Bool, true, false, not, ◌||◌, ◌==◌, List, [], ◌∷◌, if◌then◌else◌, append_unique,
}
use kubepreflight.Rollback.Types.{
  EligibilityStatus, eligibility_status_eq, ReadinessStatus, readiness_status_eq,
  RecommendationDecision, Confidence,
}
use kubepreflight.Rollback.Reasons.{ReasonCode, reason_code_eq}
use kubepreflight.Rollback.Model.{Assessment, Recommendation, Check}

-- `for _, reason := range more { reasons = appendUniqueReason(reasons, reason) }`
unfoldable pub append_unique_reasons : List ReasonCode → List ReasonCode → List ReasonCode
append_unique_reasons reasons [] = reasons
append_unique_reasons reasons (reason ∷ more) =
    append_unique_reasons (append_unique reasons reason) more

unfoldable pub append_check_reasons : List ReasonCode → List Check → List ReasonCode
append_check_reasons reasons [] = reasons
append_check_reasons reasons (check ∷ checks) =
    append_check_reasons (append_unique_reasons reasons check.reason_codes) checks

unfoldable pub recommendation_reasons : Assessment → List ReasonCode
recommendation_reasons a =
    append_check_reasons
      (append_unique_reasons (append_unique_reasons [] a.eligibility.reason_codes)
        a.recommendation.reason_codes)
      a.checks

abbrev pub recommend : RecommendationDecision → Confidence → List ReasonCode → Recommendation
recommend decision confidence reasons = record {
  decision = decision;
  confidence = confidence;
  reason_codes = reasons;
}

-- The `switch`: a readiness that is none of the four leaves the recommendation as it was.
abbrev pub recommendation_of : Assessment → List ReasonCode → Recommendation
recommendation_of a reasons =
    if a.eligibility.status == EligibilityStatus.unavailable
    then recommend RecommendationDecision.do_not_proceed Confidence.high reasons
    else if a.readiness.status == ReadinessStatus.blocked
    then recommend RecommendationDecision.do_not_proceed Confidence.high reasons
    else if a.eligibility.status == EligibilityStatus.unknown
    then recommend RecommendationDecision.operator_decision_required Confidence.low reasons
    else if a.readiness.status == ReadinessStatus.insufficient_evidence || not a.evidence.complete
    then recommend RecommendationDecision.operator_decision_required Confidence.low reasons
    else if a.readiness.status == ReadinessStatus.high_risk
    then recommend RecommendationDecision.fix_forward_preferred Confidence.medium reasons
    else if a.readiness.status == ReadinessStatus.ready
    then recommend RecommendationDecision.rollback_preferred Confidence.medium reasons
    else a.recommendation

unfoldable pub apply_recommendation : Assessment → Assessment
apply_recommendation a = record a {
  recommendation = recommendation_of a (recommendation_reasons a);
}
