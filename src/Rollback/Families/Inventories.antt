-- ===== src/Rollback/Families/Inventories.antt =====
-- internal/rollback/operational.go: the checks that read coverage and the EKS inventories.
use Prim.Native.String as Str
use kubepreflight.Base.{
  String, Bool, true, false, not, ◌&&◌, ◌==◌, ◌/=◌, string_eq, if◌then◌else◌, List, [], ◌∷◌, ◌++◌,
  any,
}
use kubepreflight.Findings.Execution.{CoverageStatus, coverage_status_eq, coverage_status_text}
use kubepreflight.Findings.Inventory.{EksAddonInfo, EksNodegroupInfo}
use kubepreflight.Findings.Report.{Report, any_partial}
use kubepreflight.Rollback.Types.{CheckStatus, check_status_eq}
use kubepreflight.Rollback.Reasons.{
  ReasonCode, reason_code_eq, reason_self_managed_node_evidence_unavailable,
  reason_managed_nodegroup_rollback_required, reason_fargate_evidence_unavailable,
  reason_fargate_pod_recreation_risk, reason_managed_addon_compatibility_unknown,
  reason_managed_addon_rollback_required, reason_observability_evidence_missing,
}
use kubepreflight.Rollback.Model.{Check, Assessment, Cluster}
use kubepreflight.Rollback.Texts.{◌+s◌, has_prefix, empty_as_unknown}
use kubepreflight.Rollback.Checks.{raise, apply_finding_signals}
use kubepreflight.Rollback.Freshness.{FindingsFreshness}
use kubepreflight.Rollback.Provenance.{ClusterEvidenceIdentity}
use kubepreflight.Rollback.Families.Disruption.{passing, gated}

abbrev pub with_evidence : Check → String → Check
with_evidence check line = record check { evidence = check.evidence ++ (line ∷ []) }

-- A node group of the current version, which is not the rollback target.
abbrev pub must_roll_back : Cluster → EksNodegroupInfo → Bool
must_roll_back c ng =
    c.current_version /= ""
    && (ng.version == c.current_version
        && (c.rollback_target_version /= "" && ng.version /= c.rollback_target_version))

abbrev pub has_issues : {A : Type 0} → List A → Bool
has_issues [] = false
has_issues (_ ∷ _) = true

abbrev pub needs_rollback : Bool → Check → Check
needs_rollback b check =
    if b
    then raise check CheckStatus.warning reason_managed_nodegroup_rollback_required []
    else check

abbrev pub nodegroup_line : EksNodegroupInfo → String
nodegroup_line ng =
    "nodegroup "
    +s ng.name
    +s " version: "
    +s ng.version
    +s " status: "
    +s empty_as_unknown ng.status

unfoldable pub nodegroup_step : Cluster → Check → EksNodegroupInfo → Check
nodegroup_step c check ng =
    if ng.version == ""
    then raise check CheckStatus.unknown reason_self_managed_node_evidence_unavailable
        (("nodegroup " +s ng.name +s " version: unknown") ∷ [])
    else needs_rollback (has_issues ng.health_issues)
        (needs_rollback (must_roll_back c ng) (with_evidence check (nodegroup_line ng)))

unfoldable pub nodegroup_steps : Cluster → Check → List EksNodegroupInfo → Check
nodegroup_steps c check [] = check
nodegroup_steps c check (ng ∷ ngs) = nodegroup_steps c (nodegroup_step c check ng) ngs

abbrev nodegroups : Check
nodegroups =
    passing "managed-nodegroups" "Managed node groups are compatible with rollback target" []

unfoldable pub nodegroup_rollback_check :
    Assessment → Report → ClusterEvidenceIdentity → FindingsFreshness → Check
nodegroup_rollback_check a r identity freshness = gated nodegroups identity freshness (
    if has_issues r.eks_nodegroups
    then nodegroup_steps a.cluster nodegroups r.eks_nodegroups
    else with_evidence nodegroups "EKS managed node group inventory: none reported")

unfoldable pub self_managed_node_evidence_check : Report → Check
self_managed_node_evidence_check r =
    let check =
      passing "self-managed-node-evidence" "Self-managed and hybrid node evidence is available" (
        Str.◌++◌ "kubernetes coverage: " (coverage_status_text r.coverage.kubernetes.status)
        ∷ []) in
    if r.coverage.kubernetes.status /= CoverageStatus.complete
    then record check {
      status = CheckStatus.unknown;
      reason_codes = reason_self_managed_node_evidence_unavailable ∷ [];
    }
    else check

abbrev pub fargate : CheckStatus → List ReasonCode → String → Check
fargate status reasons line = record {
  id = "fargate-evidence";
  title = "Fargate rollback implications are identified";
  status = status;
  reason_codes = reasons;
  evidence = line ∷ [];
}

unfoldable pub fargate_evidence_check : Report → Check
fargate_evidence_check r =
    if r.provider /= "eks"
    then fargate CheckStatus.pass [] "provider is not EKS"
    else if r.coverage.aws.status /= CoverageStatus.complete
    then fargate CheckStatus.unknown (reason_fargate_evidence_unavailable ∷ [])
        (Str.◌++◌ "AWS coverage: " (coverage_status_text r.coverage.aws.status))
    else if any (λ f. has_prefix f.rule_id "FARGATE-") r.findings
    then fargate CheckStatus.warning (reason_fargate_pod_recreation_risk ∷ [])
        "Fargate-related findings present"
    else fargate CheckStatus.pass [] "No Fargate-specific findings present in current evidence"

abbrev bool_text : Bool → String
bool_text b = if b then "true" else "false"

abbrev pub addon_line : EksAddonInfo → String
addon_line addon =
    "addon "
    +s addon.name
    +s " version: "
    +s empty_as_unknown addon.current_version
    +s " compatible: "
    +s bool_text addon.compatible
    +s " verificationUnavailable: "
    +s bool_text addon.verification_unavailable

unfoldable pub addon_step : Check → EksAddonInfo → Check
addon_step check addon =
    let seen = with_evidence check (addon_line addon) in
    if addon.verification_unavailable
    then raise seen CheckStatus.unknown reason_managed_addon_compatibility_unknown []
    else if not addon.compatible
    then raise seen CheckStatus.warning reason_managed_addon_rollback_required []
    else seen

unfoldable pub addon_steps : Check → List EksAddonInfo → Check
addon_steps check [] = check
addon_steps check (addon ∷ addons) = addon_steps (addon_step check addon) addons

abbrev pub evidence_if_none : String → Check → Check
evidence_if_none line check =
    if has_issues check.evidence then check else record check { evidence = line ∷ [] }

abbrev pub managed_addons : Check
managed_addons =
    passing "managed-addons" "EKS managed add-ons are compatible with rollback target" []

unfoldable pub managed_addon_check : Report → ClusterEvidenceIdentity → FindingsFreshness → Check
managed_addon_check r identity freshness = gated managed_addons identity freshness (
    evidence_if_none "No managed add-on compatibility findings present" (
      apply_finding_signals
        (apply_finding_signals (addon_steps managed_addons r.eks_addons) r.findings
          ("ADDON-001" ∷ []) reason_managed_addon_rollback_required)
        r.findings ("ADDON-002" ∷ []) reason_managed_addon_compatibility_unknown))

abbrev kubernetes_coverage_text : CoverageStatus → String
kubernetes_coverage_text s =
    if s == CoverageStatus.other "" then "unknown" else coverage_status_text s

unfoldable pub coverage_check : Report → Check
coverage_check r =
    let check = passing "evidence-coverage" "Operational evidence coverage is complete" (
      Str.◌++◌ "kubernetes coverage: " (kubernetes_coverage_text r.coverage.kubernetes.status)
      ∷ Str.◌++◌ "aws coverage: " (coverage_status_text r.coverage.aws.status)
      ∷ Str.◌++◌ "manifest coverage: " (coverage_status_text r.coverage.manifests.status)
      ∷ []) in
    if any_partial r.coverage
    then record check {
      status = CheckStatus.unknown;
      reason_codes = reason_observability_evidence_missing ∷ [];
    }
    else check
