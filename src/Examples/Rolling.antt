-- ===== src/Examples/Rolling.antt =====
-- The rollback engine, on an assessment that nothing speaks against and on its steps from AWS.
use kubepreflight.Base.{
  ◌<◌, ◌≤◌, ◌≡◌, ◌≢◌, ◌↔◌, refl, true, false, ◌||◌, string_eq, none, some, any, has, ◌+◌, inr,
}
use kubepreflight.Versions.Decimal.{scan, atoi}
use kubepreflight.Versions.Parse.{
  trim_left, trim_right, trim_space, trim_prefix_v, split_n, parse_major_minor,
}
use kubepreflight.Versions.Order.{same, compare_minor_versions}
use kubepreflight.Rollback.Types.{
  AssessmentMode, EligibilityStatus, ReadinessStatus, RecommendationDecision, CheckStatus,
}
use kubepreflight.Rollback.Reasons.{reason_rollback_window_near_expiry, reason_code_eq}
use kubepreflight.Rollback.Model.{validate}
use kubepreflight.Rollback.Recommendation.{apply_recommendation}
use kubepreflight.Rollback.Recommendation.Reasons.{apply_recommendation-has}
use kubepreflight.Rollback.Recommendation.Laws.{apply_recommendation-preferred_iff}
use kubepreflight.Rollback.Checks.{rule_matches}
use kubepreflight.Rollback.Checks.Laws.{readiness_rank, max, worst_rank}
use kubepreflight.Rollback.Texts.{trim_text, trim_left_text, trim_right_text}
use kubepreflight.Rollback.Freshness.{
  FindingsFreshnessStatus, validate_findings_freshness, findings_max_age,
  findings_future_skew_tolerance,
}
use kubepreflight.Rollback.Provenance.{
  ApiEvidenceTargetStatus, validate_rollback_evidence_target, is_manifest_only_report,
}
use kubepreflight.Rollback.Families.Disruption.{disruption_check}
use kubepreflight.Rollback.Families.Gates.{
  validate_findings_freshness-fresh_iff, disruption_check-ne-fail,
}
use kubepreflight.Rollback.Families.Compatibility.{
  reverse_compatibility_check, evidence_target, api_rules,
}
use kubepreflight.Rollback.Families.Compatibility.Target.{evidence_target-validated_iff}
use kubepreflight.Rollback.Families.Compatibility.Confirmed.{
  confirms, reverse_compatibility_check-fail,
}
use kubepreflight.Rollback.Operational.{apply_operational_readiness}
use kubepreflight.Rollback.Operational.Laws.{
  new_checks, validate-operational, apply_operational_rank,
}
use kubepreflight.Rollback.Eks.Eligibility.{evaluate_eligibility}
use kubepreflight.Rollback.Eks.Eligibility.Laws.{CanRollBack, evaluate_eligibility-eligible_iff}
use kubepreflight.Rollback.Eks.Pipeline.{assess, rollback_exit_code}
use kubepreflight.Rollback.Eks.Pipeline.Preferred.{assess-ne-preferred}
use kubepreflight.Examples.Data.{old}
use kubepreflight.Examples.RollingData.{
  sdk, insight_names, no_text, a_snapshot, an_assessment, an_assessment-IsWellFormed,
  unknown_identity, stale_findings,
}

assess-ne-preferred_example :
    let a =
      assess sdk insight_names no_text no_text
        (some a_snapshot)
        AssessmentMode.post_upgrade_readiness
        (some old)
        4000000000
        5000000000 in
    (a.recommendation.decision ≢ RecommendationDecision.rollback_preferred)
    × (rollback_exit_code a.recommendation.decision ≢ 0)
assess-ne-preferred_example =
    assess-ne-preferred sdk insight_names no_text no_text (some a_snapshot)
      AssessmentMode.post_upgrade_readiness (some old) 4000000000 5000000000

evaluate_eligibility-eligible_iff_example :
    ((evaluate_eligibility sdk no_text (some a_snapshot) 4000000000).eligibility.status
      ≡ EligibilityStatus.eligible)
    ↔ CanRollBack sdk no_text a_snapshot 4000000000
evaluate_eligibility-eligible_iff_example =
    evaluate_eligibility-eligible_iff sdk no_text a_snapshot 4000000000

validate-operational_example :
    validate
      (apply_recommendation (apply_operational_readiness no_text no_text an_assessment (some old)))
    ≡ none
validate-operational_example =
    validate-operational no_text no_text an_assessment (some old) an_assessment-IsWellFormed

apply_operational_rank_example :
    readiness_rank
      (apply_operational_readiness no_text no_text an_assessment (some old)).readiness.status
    ≡ max
        (readiness_rank ReadinessStatus.ready)
        (worst_rank (new_checks no_text no_text an_assessment (some old)))
apply_operational_rank_example =
    apply_operational_rank no_text no_text an_assessment (some old) an_assessment-IsWellFormed

apply_recommendation-preferred_iff_example :
    ((apply_recommendation an_assessment).recommendation.decision
      ≡ RecommendationDecision.rollback_preferred)
    ↔ ((an_assessment.eligibility.status ≡ EligibilityStatus.eligible)
        × (an_assessment.readiness.status ≡ ReadinessStatus.ready)
        × (an_assessment.evidence.complete ≡ true))
apply_recommendation-preferred_iff_example =
    apply_recommendation-preferred_iff an_assessment an_assessment-IsWellFormed

apply_recommendation-has_example :
    has reason_rollback_window_near_expiry
      (apply_recommendation an_assessment).recommendation.reason_codes
    ≡ has reason_rollback_window_near_expiry an_assessment.eligibility.reason_codes
      || (has reason_rollback_window_near_expiry an_assessment.recommendation.reason_codes
          || any (λ k. has reason_rollback_window_near_expiry k.reason_codes) an_assessment.checks)
apply_recommendation-has_example =
    apply_recommendation-has reason_rollback_window_near_expiry an_assessment refl

live : is_manifest_only_report old ≡ false
unfolding is_manifest_only_report trim_text trim_left_text trim_right_text
live = refl

validate_findings_freshness-fresh_iff_example :
    ((validate_findings_freshness no_text no_text old 5000000000).status
      ≡ FindingsFreshnessStatus.fresh)
    ↔ ((0 < 0)
        × (0 < 5000000000)
        × (0 ≤ 5000000000 + findings_future_skew_tolerance)
        × (5000000000 ≤ 0 + findings_max_age))
validate_findings_freshness-fresh_iff_example =
    validate_findings_freshness-fresh_iff no_text no_text old 5000000000 live

disruption_check-ne-fail_example :
    (disruption_check old unknown_identity stale_findings).status ≢ CheckStatus.fail
disruption_check-ne-fail_example = disruption_check-ne-fail old unknown_identity stale_findings

same_minor : compare_minor_versions (trim_text "1.30") (trim_text "1.30") ≡ inr same
unfolding compare_minor_versions parse_major_minor trim_space trim_left trim_right trim_prefix_v
    split_n atoi scan trim_text trim_left_text trim_right_text
same_minor = refl

target_validated :
    (evidence_target "API compatibility" an_assessment old).status
    ≡ ApiEvidenceTargetStatus.validated
target_validated = (evidence_target-validated_iff "API compatibility" "1.30" "1.30").1 same_minor

evidence_target-validated_iff_example :
    ((validate_rollback_evidence_target "API compatibility" "1.30" "1.30").status
      ≡ ApiEvidenceTargetStatus.validated)
    ↔ (compare_minor_versions (trim_text "1.30") (trim_text "1.30") ≡ inr same)
evidence_target-validated_iff_example =
    evidence_target-validated_iff "API compatibility" "1.30" "1.30"

api_blocked : any (confirms api_rules) old.findings ≡ true
unfolding rule_matches
api_blocked = refl

reverse_compatibility_check-fail_example :
    (reverse_compatibility_check an_assessment old unknown_identity stale_findings).status
    ≡ CheckStatus.fail
reverse_compatibility_check-fail_example =
    reverse_compatibility_check-fail unknown_identity stale_findings an_assessment old
      target_validated api_blocked
