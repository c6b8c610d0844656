-- ===== src/Rollback/Families/InventoriesValid.antt =====
-- The checks of coverage, of the inventories and of compatibility have known statuses and reasons.
use kubepreflight.Base.{
  String, refl, Bool, not, ◌==◌, ◌/=◌, if_intro, string_eq, List, [], ◌∷◌, any,
}
use kubepreflight.Findings.Execution.{CoverageStatus, coverage_status_eq}
use kubepreflight.Findings.Inventory.{EksAddonInfo, EksNodegroupInfo}
use kubepreflight.Findings.Report.{Report, any_partial}
use kubepreflight.Rollback.Types.{CheckStatus, check_status_eq}
use kubepreflight.Rollback.Reasons.{
  valid_reason_code, valid_reason_codes, reason_managed_addon_rollback_required,
  reason_managed_addon_compatibility_unknown,
}
use kubepreflight.Rollback.Model.{Check, Cluster, Assessment}
use kubepreflight.Rollback.Texts.{has_prefix}
use kubepreflight.Rollback.Freshness.{FindingsFreshness}
use kubepreflight.Rollback.Provenance.{ClusterEvidenceIdentity}
use kubepreflight.Rollback.Families.Inventories.{
  nodegroup_step, nodegroup_steps, nodegroup_rollback_check, self_managed_node_evidence_check,
  fargate_evidence_check, addon_step, addon_steps, managed_addon_check, coverage_check,
  must_roll_back, has_issues, needs_rollback, with_evidence, nodegroup_line, addon_line,
  managed_addons, evidence_if_none,
}
use kubepreflight.Rollback.Families.Valid.{
  IdentityValid, FreshnessValid, Valid, raise-Valid, signals-Valid, gated-Valid,
}

with_evidence-Valid : (c : Check) (line : String) → Valid c → Valid (with_evidence c line)
with_evidence-Valid c line h = record { holds = h.holds }

needs_rollback-Valid : (b : Bool) (c : Check) → Valid c → Valid (needs_rollback b c)
unfolding valid_reason_code valid_reason_codes
needs_rollback-Valid b c h =
    if_intro Valid b _ c (λ _. raise-Valid c CheckStatus.warning _ [] h refl refl) (λ _. h)

nodegroup_step-Valid :
    (k : Cluster) (c : Check) (ng : EksNodegroupInfo) → Valid c → Valid (nodegroup_step k c ng)
unfolding nodegroup_step valid_reason_code valid_reason_codes
nodegroup_step-Valid k c ng h =
    if_intro Valid (ng.version == "") _ _ (λ _. raise-Valid c CheckStatus.unknown _ _ h refl refl)
      (λ _. needs_rollback-Valid (has_issues ng.health_issues) _ (
        needs_rollback-Valid (must_roll_back k ng) _ (with_evidence-Valid c (nodegroup_line ng) h)))

nodegroup_steps-Valid :
    (k : Cluster) (ngs : List EksNodegroupInfo) (c : Check)
    → Valid c
    → Valid (nodegroup_steps k c ngs)
unfolding nodegroup_steps
nodegroup_steps-Valid k [] c h = h
nodegroup_steps-Valid k (ng ∷ ngs) c h =
    nodegroup_steps-Valid k ngs _ (nodegroup_step-Valid k c ng h)

addon_step-Valid : (c : Check) (addon : EksAddonInfo) → Valid c → Valid (addon_step c addon)
unfolding addon_step valid_reason_code valid_reason_codes
addon_step-Valid c addon h =
    let seen = with_evidence-Valid c (addon_line addon) h in
    if_intro Valid addon.verification_unavailable _ _
      (λ _. raise-Valid _ CheckStatus.unknown _ [] seen refl refl)
      (λ _.
        if_intro Valid (not addon.compatible) _ _
          (λ _. raise-Valid _ CheckStatus.warning _ [] seen refl refl) (λ _. seen))

addon_steps-Valid :
    (addons : List EksAddonInfo) (c : Check) → Valid c → Valid (addon_steps c addons)
unfolding addon_steps
addon_steps-Valid [] c h = h
addon_steps-Valid (addon ∷ addons) c h = addon_steps-Valid addons _ (addon_step-Valid c addon h)

evidence_if_none-Valid : (line : String) (c : Check) → Valid c → Valid (evidence_if_none line c)
evidence_if_none-Valid line c h =
    if_intro Valid (has_issues c.evidence) c _ (λ _. h) (λ _. record { holds = h.holds })

pub self_managed_node-Valid : (r : Report) → Valid (self_managed_node_evidence_check r)
unfolding self_managed_node_evidence_check valid_reason_code valid_reason_codes
self_managed_node-Valid r =
    if_intro Valid (r.coverage.kubernetes.status /= CoverageStatus.complete) _ _
      (λ _. record { holds = refl }) (λ _. record { holds = refl })

pub fargate-Valid : (r : Report) → Valid (fargate_evidence_check r)
unfolding fargate_evidence_check valid_reason_code valid_reason_codes
fargate-Valid r =
    if_intro Valid (r.provider /= "eks") _ _ (λ _. record { holds = refl })
      λ _.
        if_intro Valid (r.coverage.aws.status /= CoverageStatus.complete) _ _
          (λ _. record { holds = refl })
          λ _.
            if_intro Valid (any (λ f. has_prefix f.rule_id "FARGATE-") r.findings) _ _
              (λ _. record { holds = refl }) (λ _. record { holds = refl })

pub coverage-Valid : (r : Report) → Valid (coverage_check r)
unfolding coverage_check valid_reason_code valid_reason_codes
coverage-Valid r =
    if_intro Valid (any_partial r.coverage) _ _ (λ _. record { holds = refl })
      (λ _. record { holds = refl })

module _ (id : ClusterEvidenceIdentity) (f : FindingsFreshness) (hi : IdentityValid id)
    (hf : FreshnessValid f) where
  pub nodegroup-Valid : (a : Assessment) (r : Report) → Valid (nodegroup_rollback_check a r id f)
  unfolding nodegroup_rollback_check
  nodegroup-Valid a r =
      gated-Valid _ id f _ (record { holds = refl }) hi hf
        (if_intro Valid (has_issues r.eks_nodegroups) _ _
          (λ _. nodegroup_steps-Valid a.cluster r.eks_nodegroups _ (record { holds = refl }))
          (λ _. record { holds = refl }))

  pub managed_addon-Valid : (r : Report) → Valid (managed_addon_check r id f)
  unfolding managed_addon_check valid_reason_code valid_reason_codes
  managed_addon-Valid r =
      let with_addons = addon_steps-Valid r.eks_addons managed_addons (record { holds = refl }) in
      let with_blocks =
        signals-Valid _ r.findings ("ADDON-001" ∷ []) reason_managed_addon_rollback_required
          with_addons refl in
      let with_unknowns =
        signals-Valid _ r.findings ("ADDON-002" ∷ []) reason_managed_addon_compatibility_unknown
          with_blocks refl in
      gated-Valid _ id f _ (record { holds = refl }) hi hf
        (evidence_if_none-Valid "No managed add-on compatibility findings present" _ with_unknowns)
