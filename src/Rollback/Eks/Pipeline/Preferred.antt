-- ===== src/Rollback/Eks/Pipeline/Preferred.antt =====
-- What the steps of an assessment can recommend.
use kubepreflight.Base.{
  ℕ, String, ◌≡◌, ◌≢◌, refl, ap, ◌∙◌, Bool, true, false, if_intro, Option, none, some, List, [],
  ◌∷◌, arith, Bool-cases, ◌⊎◌, inl, inr, ltb, count,
}
use kubepreflight.Findings.Report.{Report}
use kubepreflight.Rollback.Types.{
  AssessmentMode, EligibilityStatus, eligibility_status_eq, ReadinessStatus, readiness_status_eq,
  valid_readiness_status, RecommendationDecision,
}
use kubepreflight.Rollback.Reasons.{
  ReasonCode, reason_code_eq, reason_eks_feature_compatibility_unverified,
}
use kubepreflight.Rollback.Model.{Assessment, Readiness}
use kubepreflight.Rollback.Recommendation.{apply_recommendation, recommendation_of}
use kubepreflight.Rollback.Checks.{combine_readiness}
use kubepreflight.Rollback.Checks.Laws.{readiness_from_checks-valid, readiness_rank}
use kubepreflight.Rollback.Operational.{apply_operational_readiness}
use kubepreflight.Rollback.Operational.Laws.{apply_lem, new_checks}
use kubepreflight.Rollback.Eks.Snapshot.{Snapshot}
use kubepreflight.Rollback.Eks.History.{SdkNames}
use kubepreflight.Rollback.Eks.Eligibility.{
  evaluate_eligibility, eligibility_reasons, collection_failed, readiness_unknown_reasons,
  first_recommendation,
}
use kubepreflight.Rollback.Eks.Insights.{
  InsightStatusNames, apply_rollback_insights, mark_insights_unavailable, mark_insights_stale,
  conclude_insights, insights_missing, with_insights, remaining_unknown_evidence,
  is_unknown_evidence, remove_reason_code,
}
use kubepreflight.Rollback.Eks.Pipeline.{assess, rollback_exit_code}

-- Blocked, at high risk, or without sufficient evidence.
abbrev pub is_poor : ReadinessStatus → Bool
is_poor s = ltb 0 (readiness_rank s)

abbrev is_barred : EligibilityStatus → Bool
is_barred EligibilityStatus.unavailable = true
is_barred EligibilityStatus.unknown = true
is_barred _ = false

abbrev Preferred : Assessment → Type 0
Preferred a = a.recommendation.decision ≡ RecommendationDecision.rollback_preferred

recommendation_of-poor :
    (a : Assessment) (reasons : List ReasonCode)
    → is_poor a.readiness.status ≡ true
    → (recommendation_of a reasons).decision ≢ RecommendationDecision.rollback_preferred
recommendation_of-poor a reasons h e = ground (arith, h, e)

recommendation_of-barred :
    (a : Assessment) (reasons : List ReasonCode)
    → is_barred a.eligibility.status ≡ true
    → (recommendation_of a reasons).decision ≢ RecommendationDecision.rollback_preferred
recommendation_of-barred a reasons h e = ground (arith, h, e)

combine-poor :
    (e o : Readiness)
    → is_poor e.status ≡ true
    → valid_readiness_status o.status ≡ true
    → is_poor (combine_readiness e o).status ≡ true
unfolding combine_readiness
combine-poor e o h k = ground (arith, h, k)

-- After eligibility, a rollback is barred or the origin of an automatic upgrade is unverified.
eligibility_split :
    (sdk : SdkNames) (print_time : ℕ → String) (snap : Option Snapshot) (now : ℕ)
    → let a = evaluate_eligibility sdk print_time snap now in
      (is_barred a.eligibility.status ≡ true)
      ⊎ (a.recommendation.reason_codes ≡ readiness_unknown_reasons)
unfolding evaluate_eligibility
eligibility_split sdk print_time none now = inl refl
eligibility_split sdk print_time (some snap) now =
    elim (Bool-cases (collection_failed sdk print_time snap)) [
      | inl h ↦ inl (rw h refl)
      | inr h ↦ rw h (by_reasons (eligibility_reasons sdk print_time snap now))
    ]
  where
    by_reasons :
        (reasons : List ReasonCode)
        → (is_barred (elim reasons [
          | [] ↦ EligibilityStatus.eligible
          | _ ∷ _ ↦ EligibilityStatus.unavailable
        ])
            ≡ true)
          ⊎ ((first_recommendation sdk print_time reasons).reason_codes ≡ readiness_unknown_reasons)
    by_reasons [] = inr refl
    by_reasons (_ ∷ _) = inl refl

-- What the insights make of an assessment: the eligibility stays, and the readiness is poor where the
-- origin of an automatic upgrade is unverified.
record Informed (before after : Assessment) : Type 0 where
  eligibility : after.eligibility ≡ before.eligibility
  poor :
      before.recommendation.reason_codes ≡ readiness_unknown_reasons
      → is_poor after.readiness.status ≡ true

module _ (names : InsightStatusNames) (print_time : ℕ → String) where
  still_unknown :
      (a : Assessment) (snap : Snapshot) (now : ℕ)
      → a.recommendation.reason_codes ≡ readiness_unknown_reasons
      → ltb 0 (remaining_unknown_evidence (with_insights names print_time a snap now)) ≡ true
  unfolding remaining_unknown_evidence
  still_unknown a snap now h =
      ap
        (λ codes. ltb 0 (
          count is_unknown_evidence
            (remove_reason_code codes reason_eks_feature_compatibility_unverified)))
        h

  conclude-Informed :
      (a : Assessment) (snap : Snapshot) (now stale blockers warnings : ℕ)
      → Informed a (
          conclude_insights names print_time
            (with_insights names print_time a snap now)
            stale
            blockers
            warnings)
  unfolding conclude_insights mark_insights_stale
  conclude-Informed a snap now stale blockers warnings =
      let b = with_insights names print_time a snap now in
      if_intro (Informed a) (ltb 0 stale) _ _ (λ _. record { eligibility = refl; poor = λ _. refl })
        λ _.
          if_intro (Informed a) (ltb 0 blockers) _ _
            (λ _. record { eligibility = refl; poor = λ _. refl })
            λ _.
              if_intro (Informed a) (ltb 0 warnings) _ _
                (λ _. record { eligibility = refl; poor = λ _. refl })
                λ _.
                  if_intro (Informed a) (ltb 0 (remaining_unknown_evidence b)) _ _
                    (λ _. record { eligibility = refl; poor = λ _. refl })
                    λ known. record {
                      eligibility = refl;
                      poor = λ h. absurd (both known (still_unknown a snap now h));
                    }
    where
      both : {x : Bool} → x ≡ false → x ≡ true → ⊥
      both h k = cc

  unavailable-Informed : (a : Assessment) → Informed a (mark_insights_unavailable a)
  unfolding mark_insights_unavailable
  unavailable-Informed a = record { eligibility = refl; poor = λ _. refl }

  insights-Informed :
      (a : Assessment) (snap : Option Snapshot) (now : ℕ)
      → Informed a (apply_rollback_insights names print_time a snap now)
  unfolding apply_rollback_insights
  insights-Informed a none now = unavailable-Informed a
  insights-Informed a (some snap) now =
      if_intro (Informed a) (insights_missing names print_time snap) _ _
        (λ _. unavailable-Informed a) λ _. conclude-Informed a snap now _ _ _

module _ (print_time : ℕ → String) (print_age : ℕ → String) where
  -- Neither a poor readiness nor a barred eligibility is mended by the operational checks.
  operational-ne-preferred :
      (a : Assessment) (o : Option Report)
      → (is_barred a.eligibility.status ≡ true) ⊎ (is_poor a.readiness.status ≡ true)
      → (apply_recommendation
          (apply_operational_readiness print_time print_age a o)).recommendation.decision
        ≢ RecommendationDecision.rollback_preferred
  unfolding apply_recommendation
  operational-ne-preferred a o (inl h) =
      recommendation_of-barred (apply_operational_readiness print_time print_age a o) _
        (ap (λ e. is_barred e.status) (apply_lem print_time print_age a o).2 ∙ h)
  operational-ne-preferred a o (inr h) =
      recommendation_of-poor (apply_operational_readiness print_time print_age a o) _ (
        ap (λ r. is_poor r.status) (apply_lem print_time print_age a o).1
        ∙ combine-poor a.readiness _ h
            (readiness_from_checks-valid (new_checks print_time print_age a o)))

-- No snapshot, no findings report and no time make the steps of an assessment end in a preferred
-- rollback, so that the exit code for one is never returned.
pub assess-ne-preferred :
    (sdk : SdkNames) (names : InsightStatusNames) (print_time : ℕ → String) (print_age : ℕ → String)
    (snap : Option Snapshot) (mode : AssessmentMode) (o : Option Report) (now later : ℕ)
    → let a = assess sdk names print_time print_age snap mode o now later in
      (a.recommendation.decision ≢ RecommendationDecision.rollback_preferred)
      × (rollback_exit_code a.recommendation.decision ≢ 0)
unfolding assess
assess-ne-preferred sdk names print_time print_age snap mode o now later =
    let eligible : Assessment = record (evaluate_eligibility sdk print_time snap now) {
      mode = mode;
    } in
    let informed = insights-Informed names print_time eligible snap later in
    let never =
      operational-ne-preferred print_time print_age
        (apply_rollback_insights names print_time eligible snap later) o
        (elim (eligibility_split sdk print_time snap now) [
          | inl h ↦ inl (ap (λ e. is_barred e.status) informed.eligibility ∙ h)
          | inr h ↦ inr (informed.poor h)
        ]) in
    (never, λ z. never (zero_preferred _ z))
  where
    zero_preferred :
        (d : RecommendationDecision)
        → rollback_exit_code d ≡ 0
        → d ≡ RecommendationDecision.rollback_preferred
    zero_preferred d z = ground (arith, z)
