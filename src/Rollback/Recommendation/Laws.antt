-- ===== src/Rollback/Recommendation/Laws.antt =====
-- The recommendation keeps an assessment valid, and prefers a rollback on full evidence only.
use kubepreflight.Base.{
  String, ◌≡◌, ◌↔◌, refl, ap, ◌∙◌, Bool, true, not, ◌&&◌, ◌/=◌, string_eq, Option, none, some, List,
  [], ◌∷◌, ◌++◌, all, has, arith, if◌then◌else◌, append_unique, Bool-cases, inl, inr,
}
use kubepreflight.Rollback.Types.{
  AssessmentMode, valid_assessment_mode, EligibilityStatus, valid_eligibility_status,
  eligibility_status_eq, ReadinessStatus, valid_readiness_status, readiness_status_eq,
  RecommendationDecision, valid_recommendation_decision, Confidence, valid_confidence,
  valid_check_status,
}
use kubepreflight.Rollback.Reasons.{ReasonCode, valid_reason_code, reason_code_eq}
use kubepreflight.Rollback.Model.{
  Assessment, Check, schema_version, validate, validate_guards, validate_reason_codes,
  validate_checks, ValidationError, or_else, eligibility_reason, recommendation_reason,
}
use kubepreflight.Rollback.Recommendation.{
  append_unique_reasons, append_check_reasons, recommendation_reasons, recommendation_of,
  apply_recommendation,
}

abbrev pub valid_check : Check → Bool
valid_check c = valid_check_status c.status && all valid_reason_code c.reason_codes

-- What `Validate` asks of every part but the recommendation, and of the reasons in it.
pub record IsWellFormed (a : Assessment) : Type 0 where
  pub version : a.schema_version ≡ schema_version
  pub mode : valid_assessment_mode a.mode ≡ true
  pub eligibility : valid_eligibility_status a.eligibility.status ≡ true
  pub readiness : valid_readiness_status a.readiness.status ≡ true
  pub eligibility_reasons : all valid_reason_code a.eligibility.reason_codes ≡ true
  pub recommendation_reasons : all valid_reason_code a.recommendation.reason_codes ≡ true
  pub checks : all valid_check a.checks ≡ true

validate_reason_codes-all :
    (codes : List ReasonCode)
    → all valid_reason_code codes ≡ true
    → validate_reason_codes codes ≡ none
unfolding validate_reason_codes
validate_reason_codes-all [] h = refl
validate_reason_codes-all (code ∷ codes) h = ground (arith, validate_reason_codes-all codes)

validate_checks-all :
    (checks : List Check) (later : Option ValidationError)
    → all valid_check checks ≡ true
    → validate_checks checks later ≡ later
unfolding validate_checks
validate_checks-all [] later h = refl
validate_checks-all (c ∷ checks) later h =
    ground (arith, validate_checks-all checks later, validate_reason_codes-all c.reason_codes)

module _ (p : ReasonCode → Bool) where
  pub all-append_unique :
      (xs : List ReasonCode) (x : ReasonCode)
      → all p xs ≡ true
      → p x ≡ true
      → all p (append_unique xs x) ≡ true
  all-append_unique xs x h e = elim (Bool-cases (has x xs)) [
    | inl k ↦ rw k h
    | inr k ↦ rw k (all-snoc xs h)
  ]
    where
      all-snoc : (ys : List ReasonCode) → all p ys ≡ true → all p (ys ++ (x ∷ [])) ≡ true
      all-snoc [] h = rw e refl
      all-snoc (y ∷ ys) h = ground (arith, all-snoc ys)

  all-append_unique_reasons :
      (xs ys : List ReasonCode)
      → all p xs ≡ true
      → all p ys ≡ true
      → all p (append_unique_reasons xs ys) ≡ true
  unfolding append_unique_reasons
  all-append_unique_reasons xs [] h k = h
  all-append_unique_reasons xs (y ∷ ys) h k =
      all-append_unique_reasons (append_unique xs y) ys
        (all-append_unique xs y h (ground (arith, k))) (ground (arith, k))

  all-append_check_reasons :
      (xs : List ReasonCode) (checks : List Check)
      → all p xs ≡ true
      → all (λ c. all p c.reason_codes) checks ≡ true
      → all p (append_check_reasons xs checks) ≡ true
  unfolding append_check_reasons
  all-append_check_reasons xs [] h k = h
  all-append_check_reasons xs (c ∷ checks) h k =
      all-append_check_reasons (append_unique_reasons xs c.reason_codes) checks
        (all-append_unique_reasons xs c.reason_codes h (ground (arith, k))) (ground (arith, k))

check_reasons-all :
    (checks : List Check)
    → all valid_check checks ≡ true
    → all (λ c. all valid_reason_code c.reason_codes) checks ≡ true
check_reasons-all [] h = refl
check_reasons-all (c ∷ checks) h = ground (arith, check_reasons-all checks)

recommendation_reasons-all :
    (a : Assessment) → IsWellFormed a → all valid_reason_code (recommendation_reasons a) ≡ true
unfolding recommendation_reasons
recommendation_reasons-all a w =
    all-append_check_reasons valid_reason_code _ a.checks
      (all-append_unique_reasons valid_reason_code _ _
        (all-append_unique_reasons valid_reason_code [] _ refl w.eligibility_reasons)
        w.recommendation_reasons)
      (check_reasons-all a.checks w.checks)

-- The parts of `Validate` that read the recommendation.
recommendation_of-valid :
    (a : Assessment) (reasons : List ReasonCode)
    → IsWellFormed a
    → (valid_recommendation_decision (recommendation_of a reasons).decision ≡ true)
      × (valid_confidence (recommendation_of a reasons).confidence ≡ true)
      × ((recommendation_of a reasons).reason_codes ≡ reasons)
recommendation_of-valid a reasons w = ground (arith, w.readiness)

recommendation_of-guards :
    (a : Assessment) (reasons : List ReasonCode)
    → IsWellFormed a
    → validate_guards (record a { recommendation = recommendation_of a reasons }) ≡ none
recommendation_of-guards a reasons w = ground (arith, w.readiness, w.eligibility)

or_else-none :
    (wrap : ReasonCode → ValidationError) {o : Option ReasonCode} {later : Option ValidationError}
    → o ≡ none
    → later ≡ none
    → or_else wrap o later ≡ none
or_else-none wrap h k = rw (h, k) refl

-- An assessment whose every part passes its test is valid.
validate_intro :
    (v : String) (m : AssessmentMode) (e : EligibilityStatus) (r : ReadinessStatus)
    (d : RecommendationDecision) (k : Confidence) (o : Option ValidationError)
    → v ≡ schema_version
    → valid_assessment_mode m ≡ true
    → valid_eligibility_status e ≡ true
    → valid_readiness_status r ≡ true
    → valid_recommendation_decision d ≡ true
    → valid_confidence k ≡ true
    → o ≡ none
    → (if v /= schema_version
        then some ValidationError.unsupported_schema_version
        else if not (valid_assessment_mode m)
        then some ValidationError.unsupported_mode
        else if not (valid_eligibility_status e)
        then some ValidationError.unsupported_eligibility
        else if not (valid_readiness_status r)
        then some ValidationError.unsupported_readiness
        else if not (valid_recommendation_decision d)
        then some ValidationError.unsupported_decision
        else if not (valid_confidence k)
        then some ValidationError.unsupported_confidence
        else o)
      ≡ none
validate_intro v m e r d k o hv hm he hr hd hk ho = rw (hv, hm, he, hr, hd, hk, ho) refl

-- `Validate` accepts an assessment whose other parts are well formed once the recommendation has
-- been applied to it.
pub validate-apply_recommendation :
    (a : Assessment) → IsWellFormed a → validate (apply_recommendation a) ≡ none
unfolding validate apply_recommendation
validate-apply_recommendation a w =
    let reasons = recommendation_reasons a in
    let (decided, confident, kept) = recommendation_of-valid a reasons w in
    let coded = validate_reason_codes-all a.eligibility.reason_codes w.eligibility_reasons in
    let recoded = validate_reason_codes-all reasons (recommendation_reasons-all a w) in
    let guarded = validate_checks-all a.checks _ w.checks ∙ recommendation_of-guards a reasons w in
    let rest =
      or_else-none eligibility_reason coded
        (or_else-none recommendation_reason (ap validate_reason_codes kept ∙ recoded) guarded) in
    validate_intro _ _ _ _ _ _ _ w.version w.mode w.eligibility w.readiness decided confident rest

preferred-full :
    (a : Assessment) (reasons : List ReasonCode)
    → IsWellFormed a
    → ((recommendation_of a reasons).decision ≡ RecommendationDecision.rollback_preferred) ↔ (
        (a.eligibility.status ≡ EligibilityStatus.eligible)
        × (a.readiness.status ≡ ReadinessStatus.ready)
        × (a.evidence.complete ≡ true))
preferred-full a reasons w = ground (arith, w.readiness, w.eligibility)

-- For a well-formed assessment, the recommendation prefers a rollback if and only if the rollback
-- is eligible, the cluster is ready for it and the evidence is complete.
pub apply_recommendation-preferred_iff :
    (a : Assessment)
    → IsWellFormed a
    → ((apply_recommendation a).recommendation.decision ≡ RecommendationDecision.rollback_preferred)
      ↔ ((a.eligibility.status ≡ EligibilityStatus.eligible)
          × (a.readiness.status ≡ ReadinessStatus.ready)
          × (a.evidence.complete ≡ true))
unfolding apply_recommendation
apply_recommendation-preferred_iff a w = preferred-full a (recommendation_reasons a) w
