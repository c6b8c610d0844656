-- ===== src/Rollback/Operational/Laws.antt =====
-- Readiness after the operational checks, and the recommendation that follows from it.
use kubepreflight.Base.{
  ℕ, String, ◌≡◌, refl, ap, sym, ◌∙◌, true, ◌||◌, ◌==◌, Option, none, some, List, [], ◌∷◌, ◌++◌,
  all, All, arith,
}
use kubepreflight.Findings.Report.{Report}
use kubepreflight.Rollback.Types.{
  EligibilityStatus, valid_eligibility_status, valid_assessment_mode, ReadinessStatus,
  readiness_status_eq, valid_readiness_status, check_status_eq, RecommendationDecision,
}
use kubepreflight.Rollback.Reasons.{valid_reason_code, valid_reason_codes}
use kubepreflight.Rollback.Model.{Assessment, Check, validate}
use kubepreflight.Rollback.Recommendation.{apply_recommendation}
use kubepreflight.Rollback.Recommendation.Laws.{
  valid_check, IsWellFormed, validate-apply_recommendation, apply_recommendation-preferred_iff,
}
use kubepreflight.Rollback.Checks.{readiness_from_checks, combine_readiness}
use kubepreflight.Rollback.Checks.Laws.{
  max, readiness_rank, worst_rank, readiness_from_checks_rank, readiness_from_checks-valid,
  combine_readiness_rank, combine_readiness-valid,
}
use kubepreflight.Rollback.Freshness.{FindingsFreshness, validate_findings_freshness}
use kubepreflight.Rollback.Provenance.{ClusterEvidenceIdentity, validate_cluster_evidence_identity}
use kubepreflight.Rollback.Families.Valid.{
  IdentityValid, FreshnessValid, Valid, validate_identity-IdentityValid,
  validate_freshness-FreshnessValid, self_managed_addon-Valid, workload_health-Valid,
  disruption-Valid,
}
use kubepreflight.Rollback.Families.InventoriesValid.{
  nodegroup-Valid, managed_addon-Valid, self_managed_node-Valid, fargate-Valid, coverage-Valid,
}
use kubepreflight.Rollback.Families.Compatibility.Laws.{reverse_compatibility-Valid}
use kubepreflight.Rollback.Operational.{
  operational_evidence_check, operational_checks, apply_operational_readiness,
}

all-All : (cs : List Check) → All Valid cs → all valid_check cs ≡ true
all-All [] h = refl
all-All (c ∷ cs) (h, k) = rw (h.holds, all-All cs k) refl

all-append :
    (cs ds : List Check)
    → all valid_check cs ≡ true
    → all valid_check ds ≡ true
    → all valid_check (cs ++ ds) ≡ true
all-append [] ds h k = k
all-append (c ∷ cs) ds h k = ground (arith, all-append cs ds)

operational_checks-valid :
    (a : Assessment) (r : Report) (id : ClusterEvidenceIdentity) (f : FindingsFreshness)
    → IdentityValid id
    → FreshnessValid f
    → all valid_check (operational_checks a r id f) ≡ true
unfolding operational_checks
operational_checks-valid a r id f hi hf = all-All (operational_checks a r id f) (
  nodegroup-Valid id f hi hf a r,
  (
    self_managed_node-Valid r,
    (
      fargate-Valid r,
      (
        managed_addon-Valid id f hi hf r,
        (
          self_managed_addon-Valid id f hi hf r,
          (
            workload_health-Valid id f hi hf r,
            (
              disruption-Valid id f hi hf r,
              (reverse_compatibility-Valid id f hi hf a r, (coverage-Valid r, tt)),
            ),
          ),
        ),
      ),
    ),
  ),
)

module _ (print_time : ℕ → String) (print_age : ℕ → String) where
  -- The checks that a report adds to an assessment; without a report, the one check that says so.
  unfoldable pub new_checks : Assessment → Option Report → List Check
  new_checks a none = operational_evidence_check ∷ []
  new_checks a (some r) =
      operational_checks a r (validate_cluster_evidence_identity r a.cluster)
        (validate_findings_freshness print_time print_age r a.generated_at)

  new_checks-valid : (a : Assessment) (o : Option Report) → all valid_check (new_checks a o) ≡ true
  unfolding new_checks valid_reason_code valid_reason_codes
  new_checks-valid a none = refl
  new_checks-valid a (some r) =
      operational_checks-valid a r _ _ (validate_identity-IdentityValid r a.cluster)
        (validate_freshness-FreshnessValid print_time print_age r a.generated_at)

  -- Whatever evidence is given, the new checks are appended and the readiness is combined with theirs.
  pub apply_lem :
      (a : Assessment) (o : Option Report)
      → let b = apply_operational_readiness print_time print_age a o in
        (b.checks ≡ a.checks ++ new_checks a o)
        × (b.readiness ≡ combine_readiness a.readiness (readiness_from_checks (new_checks a o)))
        × (b.eligibility ≡ a.eligibility)
        × (b.recommendation ≡ a.recommendation)
        × (b.schema_version ≡ a.schema_version)
        × (b.mode ≡ a.mode)
  unfolding apply_operational_readiness new_checks
  apply_lem a none = (refl, refl, refl, refl, refl, refl)
  apply_lem a (some r) = (refl, refl, refl, refl, refl, refl)

  known_of_valid :
      (s : ReadinessStatus)
      → valid_readiness_status s ≡ true
      → (s == ReadinessStatus.other "" || valid_readiness_status s) ≡ true
  known_of_valid s h = ground (arith, h)

  -- The operational checks keep a well-formed assessment well formed.
  pub apply_operational-IsWellFormed :
      (a : Assessment) (o : Option Report)
      → IsWellFormed a
      → IsWellFormed (apply_operational_readiness print_time print_age a o)
  apply_operational-IsWellFormed a o w =
      let (checks, readiness, eligibility, recommendation, version, mode) = apply_lem a o in
      record {
        version = version ∙ w.version;
        mode = ap valid_assessment_mode mode ∙ w.mode;
        eligibility = ap (λ e. valid_eligibility_status e.status) eligibility ∙ w.eligibility;
        readiness =
            ap (λ r. valid_readiness_status r.status) readiness
            ∙ combine_readiness-valid a.readiness _ (known_of_valid a.readiness.status w.readiness)
                (readiness_from_checks-valid (new_checks a o));
        eligibility_reasons =
            ap (λ e. all valid_reason_code e.reason_codes) eligibility ∙ w.eligibility_reasons;
        recommendation_reasons =
            ap (λ e. all valid_reason_code e.reason_codes) recommendation
            ∙ w.recommendation_reasons;
        checks =
            ap (all valid_check) checks ∙ all-append a.checks _ w.checks (new_checks-valid a o);
      }

  -- From a well-formed assessment, the operational checks of any report, or of none, and then the
  -- recommendation make an assessment that `Validate` accepts.
  pub validate-operational :
      (a : Assessment) (o : Option Report)
      → IsWellFormed a
      → validate (apply_recommendation (apply_operational_readiness print_time print_age a o))
        ≡ none
  validate-operational a o w =
      validate-apply_recommendation _ (apply_operational-IsWellFormed a o w)

  -- From a well-formed assessment, the readiness after the operational checks is the worse of the
  -- readiness before them and the worst new check: it never gets better.
  pub apply_operational_rank :
      (a : Assessment) (o : Option Report)
      → IsWellFormed a
      → readiness_rank (apply_operational_readiness print_time print_age a o).readiness.status
        ≡ max (readiness_rank a.readiness.status) (worst_rank (new_checks a o))
  apply_operational_rank a o w =
      ap (λ r. readiness_rank r.status) (apply_lem a o).1
      ∙ combine_readiness_rank a.readiness _ (known_of_valid a.readiness.status w.readiness)
          (readiness_from_checks-valid (new_checks a o))
      ∙ ap (max (readiness_rank a.readiness.status)) (readiness_from_checks_rank (new_checks a o))

  max_zero : (m n : ℕ) → max m n ≡ 0 → (m ≡ 0) × (n ≡ 0)
  max_zero m n h = ground arith

  rank_zero :
      (s : ReadinessStatus)
      → valid_readiness_status s ≡ true
      → readiness_rank s ≡ 0
      → s ≡ ReadinessStatus.ready
  rank_zero s h k = ground arith

  -- A rollback is preferred after the operational checks only if it is eligible, the readiness before
  -- was ready, and no new check failed, warned or was unknown.
  pub operational-preferred :
      (a : Assessment) (o : Option Report)
      → IsWellFormed a
      → (apply_recommendation
          (apply_operational_readiness print_time print_age a o)).recommendation.decision
        ≡ RecommendationDecision.rollback_preferred
      → (a.eligibility.status ≡ EligibilityStatus.eligible)
        × (a.readiness.status ≡ ReadinessStatus.ready)
        × (worst_rank (new_checks a o) ≡ 0)
  operational-preferred a o w h =
      let (eligible, ready, complete) =
        (apply_recommendation-preferred_iff _ (apply_operational-IsWellFormed a o w)).0 h in
      let (before, after) =
        max_zero _ _ (sym (apply_operational_rank a o w) ∙ ap readiness_rank ready) in
      (
        sym (ap (λ e. e.status) (apply_lem a o).2) ∙ eligible,
        rank_zero a.readiness.status w.readiness before,
        after,
      )
