-- ===== src/Rollback/Types.antt =====
-- internal/rollback/model.go: the string-typed enumerations of a rollback assessment. `other t` is
-- a value `t` that is none of the constants; the empty string of a new assessment is `other ""`.
use kubepreflight.Base.{String, ◌≡◌, ◌↔◌, Bool, true, false, ◌==◌, Eq, eq_iff, arith, string_eq}

pub data AssessmentMode : Type 0 where
  pre_upgrade_posture post_upgrade_readiness : AssessmentMode
  other : String → AssessmentMode

abbrev pub assessment_mode_text : AssessmentMode → String
assessment_mode_text AssessmentMode.pre_upgrade_posture = "pre_upgrade_posture"
assessment_mode_text AssessmentMode.post_upgrade_readiness = "post_upgrade_readiness"
assessment_mode_text (AssessmentMode.other t) = t

abbrev pub valid_assessment_mode : AssessmentMode → Bool
valid_assessment_mode (AssessmentMode.other _) = false
valid_assessment_mode _ = true

abbrev pub assessment_mode_beq : AssessmentMode → AssessmentMode → Bool
assessment_mode_beq AssessmentMode.pre_upgrade_posture AssessmentMode.pre_upgrade_posture = true
assessment_mode_beq AssessmentMode.post_upgrade_readiness AssessmentMode.post_upgrade_readiness =
    true
assessment_mode_beq (AssessmentMode.other s) (AssessmentMode.other t) = s == t
assessment_mode_beq _ _ = false

pub assessment_mode_beq_iff : (a b : AssessmentMode) → (assessment_mode_beq a b ≡ true) ↔ (a ≡ b)
assessment_mode_beq_iff (AssessmentMode.other s) (AssessmentMode.other t) =
    ground (arith, eq_iff s t)
assessment_mode_beq_iff _ _ = ground arith

instance abbrev pub assessment_mode_eq : Eq AssessmentMode
assessment_mode_eq = record { beq = assessment_mode_beq; beq_iff = assessment_mode_beq_iff }

pub data EligibilityStatus : Type 0 where
  eligible unavailable unknown : EligibilityStatus
  other : String → EligibilityStatus

abbrev pub eligibility_status_text : EligibilityStatus → String
eligibility_status_text EligibilityStatus.eligible = "eligible"
eligibility_status_text EligibilityStatus.unavailable = "unavailable"
eligibility_status_text EligibilityStatus.unknown = "unknown"
eligibility_status_text (EligibilityStatus.other t) = t

abbrev pub valid_eligibility_status : EligibilityStatus → Bool
valid_eligibility_status (EligibilityStatus.other _) = false
valid_eligibility_status _ = true

abbrev pub eligibility_status_beq : EligibilityStatus → EligibilityStatus → Bool
eligibility_status_beq EligibilityStatus.eligible EligibilityStatus.eligible = true
eligibility_status_beq EligibilityStatus.unavailable EligibilityStatus.unavailable = true
eligibility_status_beq EligibilityStatus.unknown EligibilityStatus.unknown = true
eligibility_status_beq (EligibilityStatus.other s) (EligibilityStatus.other t) = s == t
eligibility_status_beq _ _ = false

pub eligibility_status_beq_iff :
    (a b : EligibilityStatus) → (eligibility_status_beq a b ≡ true) ↔ (a ≡ b)
eligibility_status_beq_iff (EligibilityStatus.other s) (EligibilityStatus.other t) =
    ground (arith, eq_iff s t)
eligibility_status_beq_iff _ _ = ground arith

instance abbrev pub eligibility_status_eq : Eq EligibilityStatus
eligibility_status_eq = record {
  beq = eligibility_status_beq;
  beq_iff = eligibility_status_beq_iff;
}

pub data ReadinessStatus : Type 0 where
  ready blocked high_risk insufficient_evidence : ReadinessStatus
  other : String → ReadinessStatus

abbrev pub readiness_status_text : ReadinessStatus → String
readiness_status_text ReadinessStatus.ready = "ready"
readiness_status_text ReadinessStatus.blocked = "blocked"
readiness_status_text ReadinessStatus.high_risk = "high_risk"
readiness_status_text ReadinessStatus.insufficient_evidence = "insufficient_evidence"
readiness_status_text (ReadinessStatus.other t) = t

abbrev pub valid_readiness_status : ReadinessStatus → Bool
valid_readiness_status (ReadinessStatus.other _) = false
valid_readiness_status _ = true

abbrev pub readiness_status_beq : ReadinessStatus → ReadinessStatus → Bool
readiness_status_beq ReadinessStatus.ready ReadinessStatus.ready = true
readiness_status_beq ReadinessStatus.blocked ReadinessStatus.blocked = true
readiness_status_beq ReadinessStatus.high_risk ReadinessStatus.high_risk = true
readiness_status_beq ReadinessStatus.insufficient_evidence ReadinessStatus.insufficient_evidence =
    true
readiness_status_beq (ReadinessStatus.other s) (ReadinessStatus.other t) = s == t
readiness_status_beq _ _ = false

pub readiness_status_beq_iff : (a b : ReadinessStatus) → (readiness_status_beq a b ≡ true) ↔ (a ≡ b)
readiness_status_beq_iff (ReadinessStatus.other s) (ReadinessStatus.other t) =
    ground (arith, eq_iff s t)
readiness_status_beq_iff _ _ = ground arith

instance abbrev pub readiness_status_eq : Eq ReadinessStatus
readiness_status_eq = record { beq = readiness_status_beq; beq_iff = readiness_status_beq_iff }

pub data RecommendationDecision : Type 0 where
  rollback_preferred fix_forward_preferred operator_decision_required do_not_proceed :
      RecommendationDecision
  other : String → RecommendationDecision

abbrev pub recommendation_decision_text : RecommendationDecision → String
recommendation_decision_text RecommendationDecision.rollback_preferred = "rollback_preferred"
recommendation_decision_text RecommendationDecision.fix_forward_preferred = "fix_forward_preferred"
recommendation_decision_text RecommendationDecision.operator_decision_required =
    "operator_decision_required"
recommendation_decision_text RecommendationDecision.do_not_proceed = "do_not_proceed"
recommendation_decision_text (RecommendationDecision.other t) = t

abbrev pub valid_recommendation_decision : RecommendationDecision → Bool
valid_recommendation_decision (RecommendationDecision.other _) = false
valid_recommendation_decision _ = true

abbrev pub recommendation_decision_beq : RecommendationDecision → RecommendationDecision → Bool
recommendation_decision_beq RecommendationDecision.rollback_preferred
      RecommendationDecision.rollback_preferred =
    true
recommendation_decision_beq RecommendationDecision.fix_forward_preferred
      RecommendationDecision.fix_forward_preferred =
    true
recommendation_decision_beq RecommendationDecision.operator_decision_required
      RecommendationDecision.operator_decision_required =
    true
recommendation_decision_beq RecommendationDecision.do_not_proceed
      RecommendationDecision.do_not_proceed =
    true
recommendation_decision_beq (RecommendationDecision.other s) (RecommendationDecision.other t) =
    s == t
recommendation_decision_beq _ _ = false

pub recommendation_decision_beq_iff :
    (a b : RecommendationDecision) → (recommendation_decision_beq a b ≡ true) ↔ (a ≡ b)
recommendation_decision_beq_iff (RecommendationDecision.other s) (RecommendationDecision.other t) =
    ground (arith, eq_iff s t)
recommendation_decision_beq_iff _ _ = ground arith

instance abbrev pub recommendation_decision_eq : Eq RecommendationDecision
recommendation_decision_eq = record {
  beq = recommendation_decision_beq;
  beq_iff = recommendation_decision_beq_iff;
}

pub data Confidence : Type 0 where
  high medium low : Confidence
  other : String → Confidence

abbrev pub confidence_text : Confidence → String
confidence_text Confidence.high = "high"
confidence_text Confidence.medium = "medium"
confidence_text Confidence.low = "low"
confidence_text (Confidence.other t) = t

abbrev pub valid_confidence : Confidence → Bool
valid_confidence (Confidence.other _) = false
valid_confidence _ = true

abbrev pub confidence_beq : Confidence → Confidence → Bool
confidence_beq Confidence.high Confidence.high = true
confidence_beq Confidence.medium Confidence.medium = true
confidence_beq Confidence.low Confidence.low = true
confidence_beq (Confidence.other s) (Confidence.other t) = s == t
confidence_beq _ _ = false

pub confidence_beq_iff : (a b : Confidence) → (confidence_beq a b ≡ true) ↔ (a ≡ b)
confidence_beq_iff (Confidence.other s) (Confidence.other t) = ground (arith, eq_iff s t)
confidence_beq_iff _ _ = ground arith

instance abbrev pub confidence_eq : Eq Confidence
confidence_eq = record { beq = confidence_beq; beq_iff = confidence_beq_iff }

pub data CheckStatus : Type 0 where
  pass warning fail unknown : CheckStatus
  other : String → CheckStatus

abbrev pub check_status_text : CheckStatus → String
check_status_text CheckStatus.pass = "pass"
check_status_text CheckStatus.warning = "warning"
check_status_text CheckStatus.fail = "fail"
check_status_text CheckStatus.unknown = "unknown"
check_status_text (CheckStatus.other t) = t

abbrev pub valid_check_status : CheckStatus → Bool
valid_check_status (CheckStatus.other _) = false
valid_check_status _ = true

abbrev pub check_status_beq : CheckStatus → CheckStatus → Bool
check_status_beq CheckStatus.pass CheckStatus.pass = true
check_status_beq CheckStatus.warning CheckStatus.warning = true
check_status_beq CheckStatus.fail CheckStatus.fail = true
check_status_beq CheckStatus.unknown CheckStatus.unknown = true
check_status_beq (CheckStatus.other s) (CheckStatus.other t) = s == t
check_status_beq _ _ = false

pub check_status_beq_iff : (a b : CheckStatus) → (check_status_beq a b ≡ true) ↔ (a ≡ b)
check_status_beq_iff (CheckStatus.other s) (CheckStatus.other t) = ground (arith, eq_iff s t)
check_status_beq_iff _ _ = ground arith

instance abbrev pub check_status_eq : Eq CheckStatus
check_status_eq = record { beq = check_status_beq; beq_iff = check_status_beq_iff }
