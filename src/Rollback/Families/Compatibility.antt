-- ===== src/Rollback/Families/Compatibility.antt =====
-- internal/rollback/operational.go: the check of APIs, CRDs and webhooks against the rollback
-- target.
pub mod Laws
pub mod Target
pub mod Confirmed
use kubepreflight.Base.{
  String, Bool, true, false, not, ◌||◌, ◌&&◌, ◌==◌, string_eq, if◌then◌else◌, List, [], ◌∷◌, ◌++◌,
  filter,
}
use kubepreflight.Findings.Finding.{Finding}
use kubepreflight.Findings.Report.{Report}
use kubepreflight.Rollback.Types.{CheckStatus}
use kubepreflight.Rollback.Reasons.{
  ReasonCode, reason_new_version_api_adoption_risk, reason_crd_webhook_controller_risk,
}
use kubepreflight.Rollback.Model.{Check, Assessment}
use kubepreflight.Rollback.Texts.{has_prefix}
use kubepreflight.Rollback.Checks.{raise, apply_finding_signals, findings_with_prefixes}
use kubepreflight.Rollback.Freshness.{
  FindingsFreshness, freshness_blocks, apply_provenance_gates, apply_freshness_gate,
}
use kubepreflight.Rollback.Provenance.{
  ClusterEvidenceIdentity, identity_blocks, EvidenceTarget, ApiEvidenceTargetStatus,
  validate_rollback_evidence_target,
}
use kubepreflight.Rollback.Families.Disruption.{passing, evidence_of_pass}

-- Findings count where the target is validated; else the check is unknown.
abbrev pub route_by_target : Check → EvidenceTarget → Check → Check
route_by_target check target signalled = elim target.status [
  | ApiEvidenceTargetStatus.validated ↦ signalled
  | _ ↦ raise check CheckStatus.unknown target.reason target.evidence
]

abbrev pub evidence_target : String → Assessment → Report → EvidenceTarget
evidence_target label a r =
    validate_rollback_evidence_target label r.target_version a.cluster.rollback_target_version

abbrev pub api_rules : List String
api_rules = "API-001" ∷ "API-002" ∷ []

abbrev pub route_api : Check → Assessment → Report → List Finding → Check
route_api check a r [] = check
route_api check a r (f ∷ fs) =
    route_by_target check (evidence_target "API compatibility" a r)
      (apply_finding_signals check (f ∷ fs) api_rules reason_new_version_api_adoption_risk)

unfoldable pub apply_api_evidence_findings : Check → Assessment → Report → Check
apply_api_evidence_findings check a r =
    route_api check a r (findings_with_prefixes r.findings api_rules)

unfoldable pub apply_crd_webhook_evidence_findings :
    Check → Assessment → Report → List Finding → Check
apply_crd_webhook_evidence_findings check a r [] = check
apply_crd_webhook_evidence_findings check a r (f ∷ fs) =
    route_by_target check (evidence_target "CRD/webhook compatibility" a r) (
      apply_finding_signals check (f ∷ fs) ("CRD-" ∷ "WH-" ∷ []) reason_crd_webhook_controller_risk)

unfoldable pub target_gated_crd_webhook_findings : List Finding → List Finding
target_gated_crd_webhook_findings fs =
    filter
      (λ f.
        not (f.rule_id == "WH-002") && (has_prefix f.rule_id "CRD-" || has_prefix f.rule_id "WH-"))
      fs

abbrev pub no_findings : List Finding → Bool
no_findings [] = true
no_findings (_ ∷ _) = false

abbrev pub reverse_compatibility : Check
reverse_compatibility =
    passing "reverse-compatibility" "API, CRD, and webhook state is compatible with rollback target"
      []

-- The check after the API findings.
unfoldable pub api_part : Assessment → Report → FindingsFreshness → Check
api_part a r freshness =
    let check = apply_api_evidence_findings reverse_compatibility a r in
    if not (no_findings (findings_with_prefixes r.findings api_rules)) && freshness_blocks freshness
    then apply_freshness_gate check freshness
    else check

-- The check after the findings about the present cluster.
unfoldable pub crd_webhook_part :
    Check → Assessment → Report → ClusterEvidenceIdentity → FindingsFreshness → Check
crd_webhook_part check a r identity freshness =
    let webhooks = findings_with_prefixes r.findings ("WH-002" ∷ []) in
    let targeted = target_gated_crd_webhook_findings r.findings in
    if no_findings webhooks && no_findings targeted
    then check
    else if identity_blocks identity || freshness_blocks freshness
    then apply_provenance_gates check identity freshness
    else apply_crd_webhook_evidence_findings
        (apply_finding_signals check webhooks ("WH-002" ∷ []) reason_crd_webhook_controller_risk) a
        r targeted

unfoldable pub reverse_compatibility_check :
    Assessment → Report → ClusterEvidenceIdentity → FindingsFreshness → Check
reverse_compatibility_check a r identity freshness =
    evidence_of_pass "No API, CRD, or webhook rollback compatibility findings present"
      (crd_webhook_part (api_part a r freshness) a r identity freshness)
