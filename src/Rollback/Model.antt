-- ===== src/Rollback/Model.antt =====
-- internal/rollback/model.go: the assessment and `Validate`. A time is the number of nanoseconds
-- since Go's zero time; an error is a value, one for each `return` of `Validate`.
use kubepreflight.Base.{
  ℕ, String, Bool, false, not, ◌&&◌, ◌==◌, ◌/=◌, string_eq, Option, none, some, List, [], ◌∷◌,
  if◌then◌else◌,
}
use kubepreflight.Rollback.Types.{
  AssessmentMode, valid_assessment_mode, EligibilityStatus, valid_eligibility_status,
  eligibility_status_eq, ReadinessStatus, valid_readiness_status, readiness_status_eq,
  RecommendationDecision, valid_recommendation_decision, recommendation_decision_eq, Confidence,
  valid_confidence, confidence_eq, CheckStatus, valid_check_status,
}
use kubepreflight.Rollback.Reasons.{ReasonCode, valid_reason_code}

abbrev pub schema_version : String
schema_version = "kubepreflight.io/rollback-assessment/v1alpha1"

pub record Cluster : Type 0 where
  pub name : String
  pub region : String
  pub current_version : String
  pub rollback_target_version : String
  pub provider : String

pub record Eligibility : Type 0 where
  pub status : EligibilityStatus
  pub window_expires_at : Option ℕ
  pub remaining_minutes : Option ℕ
  pub source : String
  pub reason_codes : List ReasonCode

pub record Readiness : Type 0 where
  pub status : ReadinessStatus
  pub blockers : ℕ
  pub warnings : ℕ
  pub unknowns : ℕ

pub record Recommendation : Type 0 where
  pub decision : RecommendationDecision
  pub confidence : Confidence
  pub reason_codes : List ReasonCode

pub record Evidence : Type 0 where
  pub eks_insights_refreshed_at : Option ℕ
  pub cluster_observed_at : Option ℕ
  pub complete : Bool
  pub window_calculation : String
  pub timestamp_source : String

pub record Check : Type 0 where
  pub id : String
  pub title : String
  pub status : CheckStatus
  pub reason_codes : List ReasonCode
  pub evidence : List String

pub record Assessment : Type 0 where
  pub schema_version : String
  pub mode : AssessmentMode
  pub cluster : Cluster
  pub eligibility : Eligibility
  pub readiness : Readiness
  pub recommendation : Recommendation
  pub evidence : Evidence
  pub checks : List Check
  pub generated_at : ℕ

abbrev pub no_cluster : Cluster
no_cluster = record {
  name = "";
  region = "";
  current_version = "";
  rollback_target_version = "";
  provider = "";
}

unfoldable pub new_assessment : AssessmentMode → ℕ → Assessment
new_assessment mode now = record {
  schema_version = "kubepreflight.io/rollback-assessment/v1alpha1";
  mode = mode;
  cluster = no_cluster;
  eligibility = record {
    status = EligibilityStatus.other "";
    window_expires_at = none;
    remaining_minutes = none;
    source = "";
    reason_codes = [];
  };
  readiness = record {
    status = ReadinessStatus.other "";
    blockers = 0;
    warnings = 0;
    unknowns = 0;
  };
  recommendation = record {
    decision = RecommendationDecision.other "";
    confidence = Confidence.other "";
    reason_codes = [];
  };
  evidence = record {
    eks_insights_refreshed_at = none;
    cluster_observed_at = none;
    complete = false;
    window_calculation = "";
    timestamp_source = "";
  };
  checks = [];
  generated_at = now;
}

pub data ValidationError : Type 0 where
  unsupported_schema_version unsupported_mode unsupported_eligibility unsupported_readiness :
      ValidationError
  unsupported_decision unsupported_confidence : ValidationError
  eligibility_reason recommendation_reason : ReasonCode → ValidationError
  unsupported_check_status : String → CheckStatus → ValidationError
  check_reason : String → ReasonCode → ValidationError
  preferred_without_eligibility confident_without_evidence : ValidationError

-- The first reason code that is not supported.
unfoldable pub validate_reason_codes : List ReasonCode → Option ReasonCode
validate_reason_codes [] = none
validate_reason_codes (code ∷ codes) =
    let rest = validate_reason_codes codes in
    if not (valid_reason_code code) then some code else rest

-- What comes first of an error and what is checked later.
abbrev pub or_else :
    (ReasonCode → ValidationError)
    → Option ReasonCode
    → Option ValidationError
    → Option ValidationError
or_else wrap none later = later
or_else wrap (some code) later = some (wrap code)

unfoldable pub validate_checks : List Check → Option ValidationError → Option ValidationError
validate_checks [] later = later
validate_checks (check ∷ checks) later =
    let rest = validate_checks checks later in
    if not (valid_check_status check.status)
    then some (unsupported_check_status check.id check.status)
    else or_else (check_reason check.id) (validate_reason_codes check.reason_codes) rest

abbrev pub validate_guards : Assessment → Option ValidationError
validate_guards a =
    if a.eligibility.status /= EligibilityStatus.eligible
      && a.recommendation.decision == RecommendationDecision.rollback_preferred
    then some preferred_without_eligibility
    else if a.readiness.status == ReadinessStatus.insufficient_evidence
        && a.recommendation.confidence == Confidence.high
        && a.recommendation.decision /= RecommendationDecision.do_not_proceed
    then some confident_without_evidence
    else none

-- `none` for an assessment without an error.
unfoldable pub validate : Assessment → Option ValidationError
validate a =
    if a.schema_version /= schema_version
    then some unsupported_schema_version
    else if not (valid_assessment_mode a.mode)
    then some unsupported_mode
    else if not (valid_eligibility_status a.eligibility.status)
    then some unsupported_eligibility
    else if not (valid_readiness_status a.readiness.status)
    then some unsupported_readiness
    else if not (valid_recommendation_decision a.recommendation.decision)
    then some unsupported_decision
    else if not (valid_confidence a.recommendation.confidence)
    then some unsupported_confidence
    else or_else eligibility_reason (validate_reason_codes a.eligibility.reason_codes) (
        or_else recommendation_reason (validate_reason_codes a.recommendation.reason_codes)
          (validate_checks a.checks (validate_guards a)))
