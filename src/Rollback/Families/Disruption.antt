-- ===== src/Rollback/Families/Disruption.antt =====
-- internal/rollback/operational.go: the checks that read findings only.
use kubepreflight.Base.{
  String, Bool, false, not, ◌||◌, ◌&&◌, ◌==◌, string_eq, if◌then◌else◌, List, [], ◌∷◌, any, has,
}
use kubepreflight.Findings.Types.{Severity, severity_eq}
use kubepreflight.Findings.Context.{ImpactScope}
use kubepreflight.Findings.Finding.{Finding}
use kubepreflight.Findings.Report.{Report}
use kubepreflight.Rollback.Types.{CheckStatus, check_status_eq}
use kubepreflight.Rollback.Reasons.{
  reason_code_eq, reason_self_managed_addon_compatibility_unknown,
  reason_unhealthy_workloads_present, reason_pdb_disruption_constraints,
}
use kubepreflight.Rollback.Model.{Check}
use kubepreflight.Rollback.Texts.{has_prefix}
use kubepreflight.Rollback.Checks.{raise, apply_finding_signals, finding_line}
use kubepreflight.Rollback.Freshness.{FindingsFreshness, freshness_blocks, apply_provenance_gates}
use kubepreflight.Rollback.Provenance.{ClusterEvidenceIdentity, identity_blocks}

abbrev pub passing : String → String → List String → Check
passing id title evidence = record {
  id = id;
  title = title;
  status = CheckStatus.pass;
  reason_codes = [];
  evidence = evidence;
}

-- A check of the present cluster reads its evidence only where no gate blocks it.
abbrev pub gated : Check → ClusterEvidenceIdentity → FindingsFreshness → Check → Check
gated check identity freshness ungated =
    if identity_blocks identity || freshness_blocks freshness
    then apply_provenance_gates check identity freshness
    else ungated

-- `if check.Status == CheckPass { check.Evidence = … }`
abbrev pub evidence_of_pass : String → Check → Check
evidence_of_pass line check =
    if check.status == CheckStatus.pass then record check { evidence = line ∷ [] } else check

abbrev self_managed_addons : Check
self_managed_addons =
    passing "self-managed-addons" "Self-managed add-on rollback compatibility is verified" []

unfoldable pub self_managed_addon_check :
    Report → ClusterEvidenceIdentity → FindingsFreshness → Check
self_managed_addon_check r identity freshness = gated self_managed_addons identity freshness (
    evidence_of_pass "No self-managed add-on compatibility warnings present" (
      apply_finding_signals self_managed_addons r.findings ("ADDON-002" ∷ [])
        reason_self_managed_addon_compatibility_unknown))

abbrev workloads : Check
workloads = passing "workload-health" "Workloads are healthy before rollback" []

unfoldable pub workload_health_check : Report → ClusterEvidenceIdentity → FindingsFreshness → Check
workload_health_check r identity freshness = gated workloads identity freshness (
    evidence_of_pass "No unhealthy workload findings present" (
      apply_finding_signals workloads r.findings ("WORKLOAD-001" ∷ "DRAIN-005" ∷ [])
        reason_unhealthy_workloads_present))

pub record RollbackOperationEvidence : Type 0 where
  pub node_drain_required : Bool
  pub worker_replacement : Bool
  pub pod_eviction_required : Bool
  pub workload_restart_needed : Bool
  pub activation_evidence_seen : Bool

-- No evidence is gathered yet.
abbrev pub rollback_operation_evidence : RollbackOperationEvidence
rollback_operation_evidence = record {
  node_drain_required = false;
  worker_replacement = false;
  pod_eviction_required = false;
  workload_restart_needed = false;
  activation_evidence_seen = false;
}

abbrev pub is_disruption_finding : String → Bool
is_disruption_finding rule_id = has_prefix rule_id "PDB-" || has_prefix rule_id "DRAIN-"

abbrev pub rollback_blocking_disruption_rule : String → Bool
rollback_blocking_disruption_rule rule_id = has rule_id ("PDB-001" ∷ "PDB-002" ∷ "DRAIN-002" ∷ [])

abbrev scope_activated : RollbackOperationEvidence → ImpactScope → Bool
scope_activated e ImpactScope.node_drain =
    e.node_drain_required || (e.pod_eviction_required || e.worker_replacement)
scope_activated e ImpactScope.worker_rollout = e.worker_replacement || e.node_drain_required
scope_activated e ImpactScope.workload_restart =
    e.workload_restart_needed || e.pod_eviction_required
scope_activated e _ = false

abbrev any_activated : RollbackOperationEvidence → List ImpactScope → Bool
any_activated e [] =
    e.node_drain_required
    || (e.worker_replacement || (e.pod_eviction_required || e.workload_restart_needed))
any_activated e (scope ∷ scopes) = any (scope_activated e) (scope ∷ scopes)

unfoldable pub disruption_activation_confirmed : Finding → RollbackOperationEvidence → Bool
disruption_activation_confirmed f e =
    if not e.activation_evidence_seen || not (rollback_blocking_disruption_rule f.rule_id)
    then false
    else any_activated e f.impact_scopes

abbrev pub disruption_status : Finding → RollbackOperationEvidence → CheckStatus
disruption_status f e =
    if f.severity == Severity.blocker && disruption_activation_confirmed f e
    then CheckStatus.fail
    else CheckStatus.warning

unfoldable pub route_disruption_finding : Check → Finding → RollbackOperationEvidence → Check
route_disruption_finding check f e =
    if f.rule_id == "DRAIN-005"
    then check
    else raise check (disruption_status f e) reason_pdb_disruption_constraints (finding_line f ∷ [])

unfoldable pub route_disruption_findings : Check → List Finding → RollbackOperationEvidence → Check
route_disruption_findings check [] e = check
route_disruption_findings check (f ∷ fs) e =
    route_disruption_findings
      (if is_disruption_finding f.rule_id then route_disruption_finding check f e else check) fs e

abbrev pub disruptions : Check
disruptions =
    passing "disruption-readiness" "PDB and drain constraints do not block rollback preparation" []

unfoldable pub disruption_check : Report → ClusterEvidenceIdentity → FindingsFreshness → Check
disruption_check r identity freshness = gated disruptions identity freshness (
    evidence_of_pass "No PDB or drain readiness findings present"
      (route_disruption_findings disruptions r.findings rollback_operation_evidence))
