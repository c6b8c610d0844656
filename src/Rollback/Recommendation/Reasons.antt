-- ===== src/Rollback/Recommendation/Reasons.antt =====
-- The reasons of a recommendation are those of the other parts of the assessment.
use kubepreflight.Base.{
  ◌≡◌, ap, ◌∙◌, Bool, true, ◌||◌, ◌==◌, string_eq, List, [], ◌∷◌, ◌++◌, any, has, arith,
  append_unique, Bool-cases, inl, inr,
}
use kubepreflight.Rollback.Types.{eligibility_status_eq, readiness_status_eq}
use kubepreflight.Rollback.Reasons.{ReasonCode, reason_code_eq}
use kubepreflight.Rollback.Model.{Assessment, Check}
use kubepreflight.Rollback.Types.{
  valid_readiness_status, eligibility_status_eq, readiness_status_eq,
}
use kubepreflight.Rollback.Recommendation.{
  append_unique_reasons, append_check_reasons, recommendation_reasons, recommendation_of,
  apply_recommendation,
}

-- No branch drops the reasons.
reasons_kept :
    (a : Assessment) (reasons : List ReasonCode)
    → valid_readiness_status a.readiness.status ≡ true
    → (recommendation_of a reasons).reason_codes ≡ reasons
reasons_kept a reasons h = ground (arith, h)

module _ (c : ReasonCode) where
  has-append : (xs : List ReasonCode) (x : ReasonCode) → has c (xs ++ (x ∷ [])) ≡ has c xs || x == c
  has-append [] x = ground arith
  has-append (y ∷ xs) x = ground (arith, has-append xs x)

  has-present :
      (xs : List ReasonCode) (x : ReasonCode) → has x xs ≡ true → x == c ≡ true → has c xs ≡ true
  has-present [] x h e = cc
  has-present (y ∷ xs) x h e = ground (
    arith,
    reason_code_eq.beq_iff x c,
    reason_code_eq.beq_iff y x,
    reason_code_eq.beq_iff y c,
    has-present xs x,
  )

  has-append_unique :
      (xs : List ReasonCode) (x : ReasonCode) → has c (append_unique xs x) ≡ has c xs || x == c
  has-append_unique xs x = elim (Bool-cases (has x xs)) [
    | inl h ↦ rw h (ground (arith, has-present xs x h))
    | inr h ↦ rw h (has-append xs x)
  ]

  or_assoc : (x y z : Bool) → (x || y) || z ≡ x || (y || z)
  or_assoc x y z = ground arith

  has-append_unique_reasons :
      (xs ys : List ReasonCode) → has c (append_unique_reasons xs ys) ≡ has c xs || has c ys
  unfolding append_unique_reasons
  has-append_unique_reasons xs [] = ground arith
  has-append_unique_reasons xs (y ∷ ys) =
      has-append_unique_reasons (append_unique xs y) ys
      ∙ ap (λ b. b || has c ys) (has-append_unique xs y)
      ∙ or_assoc (has c xs) (y == c) (has c ys)

  has-append_check_reasons :
      (xs : List ReasonCode) (checks : List Check)
      → has c (append_check_reasons xs checks) ≡ has c xs || any (λ k. has c k.reason_codes) checks
  unfolding append_check_reasons
  has-append_check_reasons xs [] = ground arith
  has-append_check_reasons xs (k ∷ checks) =
      has-append_check_reasons (append_unique_reasons xs k.reason_codes) checks
      ∙ ap (λ b. b || any (λ j. has c j.reason_codes) checks)
          (has-append_unique_reasons xs k.reason_codes)
      ∙ or_assoc (has c xs) (has c k.reason_codes) (any (λ j. has c j.reason_codes) checks)

  -- The collected reasons are those of the eligibility, of the earlier recommendation and of the
  -- checks.
  pub recommendation_reasons-has :
      (a : Assessment)
      → has c (recommendation_reasons a)
        ≡ has c a.eligibility.reason_codes
          || (has c a.recommendation.reason_codes || any (λ k. has c k.reason_codes) a.checks)
  unfolding recommendation_reasons
  recommendation_reasons-has a =
      has-append_check_reasons _ a.checks
      ∙ ap (λ b. b || any (λ k. has c k.reason_codes) a.checks)
          (has-append_unique_reasons (append_unique_reasons [] a.eligibility.reason_codes)
              a.recommendation.reason_codes
            ∙ ap (λ b. b || has c a.recommendation.reason_codes)
                (has-append_unique_reasons [] a.eligibility.reason_codes))
      ∙ or_assoc (has c a.eligibility.reason_codes) _ _

  -- When the readiness is one of the four known ones, the recommendation that is applied, whatever
  -- it decides, gives a reason if and only if the eligibility, the earlier recommendation or one of
  -- the checks gave it.
  pub apply_recommendation-has :
      (a : Assessment)
      → valid_readiness_status a.readiness.status ≡ true
      → has c (apply_recommendation a).recommendation.reason_codes
        ≡ has c a.eligibility.reason_codes
          || (has c a.recommendation.reason_codes || any (λ k. has c k.reason_codes) a.checks)
  unfolding apply_recommendation
  apply_recommendation-has a h =
      ap (has c) (reasons_kept a (recommendation_reasons a) h) ∙ recommendation_reasons-has a
