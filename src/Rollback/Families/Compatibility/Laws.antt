-- ===== src/Rollback/Families/Compatibility/Laws.antt =====
-- The check of compatibility keeps known statuses, and confirmed API blockers fail it.
use kubepreflight.Base.{
  String, ◌≡◌, ◌≢◌, refl, Bool, true, false, not, ◌&&◌, ◌||◌, if_intro, string_eq, List, [], ◌∷◌,
  arith, Bool-cases, inl, inr,
}
use kubepreflight.Findings.Types.{severity_eq}
use kubepreflight.Findings.Finding.{Finding}
use kubepreflight.Findings.Report.{Report}
use kubepreflight.Rollback.Types.{CheckStatus, check_status_eq}
use kubepreflight.Rollback.Reasons.{
  ReasonCode, valid_reason_code, valid_reason_codes, reason_new_version_api_adoption_risk,
  reason_crd_webhook_controller_risk,
}
use kubepreflight.Rollback.Model.{Check, Assessment}
use kubepreflight.Rollback.Checks.{raise, findings_with_prefixes}
use kubepreflight.Rollback.Freshness.{FindingsFreshness, freshness_blocks}
use kubepreflight.Rollback.Provenance.{
  ClusterEvidenceIdentity, identity_blocks, EvidenceTarget, ApiEvidenceTargetStatus,
}
use kubepreflight.Rollback.Families.Valid.{
  IdentityValid, FreshnessValid, Valid, raise-Valid, signals-Valid, evidence_of_pass-Valid,
  apply_gates-Valid,
}
use kubepreflight.Rollback.Families.Compatibility.{
  route_by_target, evidence_target, api_rules, route_api, apply_api_evidence_findings,
  apply_crd_webhook_evidence_findings, target_gated_crd_webhook_findings, no_findings,
  reverse_compatibility, api_part, crd_webhook_part, reverse_compatibility_check,
}
use kubepreflight.Rollback.Families.Compatibility.Target.{
  HasKnownReason, evidence_target-HasKnownReason,
}

unless_validated-Valid :
    (c : Check) (s : ApiEvidenceTargetStatus) (x : ReasonCode) (l : List String) (d : Check)
    → (s ≢ ApiEvidenceTargetStatus.validated → valid_reason_code x ≡ true)
    → Valid c
    → Valid d
    → Valid (elim s [ ApiEvidenceTargetStatus.validated ↦ d | _ ↦ raise c CheckStatus.unknown x l ])
unless_validated-Valid c ApiEvidenceTargetStatus.validated x l d k h i = i
unless_validated-Valid c ApiEvidenceTargetStatus.mismatch x l d k h i =
    raise-Valid c CheckStatus.unknown x l h refl (k (λ e. cc))
unless_validated-Valid c ApiEvidenceTargetStatus.unknown x l d k h i =
    raise-Valid c CheckStatus.unknown x l h refl (k (λ e. cc))

route_by_target-Valid :
    (c : Check) (e : EvidenceTarget) (d : Check)
    → HasKnownReason e
    → Valid c
    → Valid d
    → Valid (route_by_target c e d)
route_by_target-Valid c e d k h i =
    unless_validated-Valid c e.status e.reason e.evidence d k.known h i

route_api-Valid :
    (a : Assessment) (r : Report) (fs : List Finding)
    → Valid (route_api reverse_compatibility a r fs)
unfolding valid_reason_code valid_reason_codes
route_api-Valid a r [] = record { holds = refl }
route_api-Valid a r (f ∷ fs) =
    route_by_target-Valid reverse_compatibility (evidence_target "API compatibility" a r) _
      (evidence_target-HasKnownReason _ r.target_version a.cluster.rollback_target_version)
      (record { holds = refl })
      (signals-Valid reverse_compatibility (f ∷ fs) api_rules reason_new_version_api_adoption_risk
        (record { holds = refl }) refl)

crd_webhook-Valid :
    (c : Check) (a : Assessment) (r : Report) (fs : List Finding)
    → Valid c
    → Valid (apply_crd_webhook_evidence_findings c a r fs)
unfolding apply_crd_webhook_evidence_findings valid_reason_code valid_reason_codes
crd_webhook-Valid c a r [] h = h
crd_webhook-Valid c a r (f ∷ fs) h =
    route_by_target-Valid c (evidence_target "CRD/webhook compatibility" a r) _
      (evidence_target-HasKnownReason _ r.target_version a.cluster.rollback_target_version) h
      (signals-Valid c (f ∷ fs) ("CRD-" ∷ "WH-" ∷ []) reason_crd_webhook_controller_risk h refl)

module _ (id : ClusterEvidenceIdentity) (f : FindingsFreshness) (hi : IdentityValid id)
    (hf : FreshnessValid f) where
  api_part-Valid : (a : Assessment) (r : Report) → Valid (api_part a r f)
  unfolding api_part apply_api_evidence_findings
  api_part-Valid a r =
      let fs = findings_with_prefixes r.findings api_rules in
      elim (Bool-cases (freshness_blocks f)) [
        | inl e ↦
            if_intro Valid (not (no_findings fs) && freshness_blocks f) _ _
              (λ _.
                raise-Valid _ CheckStatus.unknown f.reason f.evidence (route_api-Valid a r fs) refl
                  (hf.known e))
              (λ _. route_api-Valid a r fs)
        | inr e ↦
            if_intro Valid (not (no_findings fs) && freshness_blocks f) _ _
              (λ k. absurd (both_false (not (no_findings fs)) (freshness_blocks f) e k))
              (λ _. route_api-Valid a r fs)
      ]
    where
      both_false : (b c : Bool) → c ≡ false → b && c ≡ true → ⊥
      both_false b c h k = ground arith

  crd_webhook_part-Valid :
      (c : Check) (a : Assessment) (r : Report) → Valid c → Valid (crd_webhook_part c a r id f)
  unfolding crd_webhook_part valid_reason_code valid_reason_codes
  crd_webhook_part-Valid c a r h =
      let webhooks = findings_with_prefixes r.findings ("WH-002" ∷ []) in
      let targeted = target_gated_crd_webhook_findings r.findings in
      if_intro Valid (no_findings webhooks && no_findings targeted) c _ (λ _. h)
        λ _.
          if_intro Valid (identity_blocks id || freshness_blocks f) _ _
            (λ _. apply_gates-Valid c id f h hi hf)
            λ _.
              crd_webhook-Valid _ a r targeted
                (signals-Valid c webhooks ("WH-002" ∷ []) reason_crd_webhook_controller_risk h refl)

  pub reverse_compatibility-Valid :
      (a : Assessment) (r : Report) → Valid (reverse_compatibility_check a r id f)
  unfolding reverse_compatibility_check
  reverse_compatibility-Valid a r =
      evidence_of_pass-Valid _ _ (crd_webhook_part-Valid _ a r (api_part-Valid a r))
