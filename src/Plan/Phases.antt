-- ===== src/Plan/Phases.antt =====
-- internal/plan/action_plan.go: the three fixed phases and `BuildActionPlan`.
pub mod Laws
use kubepreflight.Base.{ℕ, String, Bool, true, false, if◌then◌else◌, Option, List, [], ◌∷◌}
use kubepreflight.Findings.Report.{Report}
use kubepreflight.Plan.Action.{
  ActionStatus, ActionVerdict, PlanAction, ActionPhase, UpgradeActionPlan, is_downgrade,
  present_rule_ids, critical_blocker_actions, has_blocking_phase1_action, action_plan_verdict,
}

abbrev manual_action : String → String → List String → List String → List String → PlanAction
manual_action id title source_rule_ids success_criteria commands = record {
  id = id;
  title = title;
  required = true;
  status = ActionStatus.manual;
  reason = "";
  source_rule_ids = source_rule_ids;
  success_criteria = success_criteria;
  commands = commands;
}

abbrev execution_action : String → String → Bool → ActionStatus → String → List String → PlanAction
execution_action id title required status reason success_criteria = record {
  id = id;
  title = title;
  required = required;
  status = status;
  reason = reason;
  source_rule_ids = [];
  success_criteria = success_criteria;
  commands = [];
}

abbrev pub upgrade_preparation_phase : Option Report → ActionPhase
upgrade_preparation_phase r = record {
  id = "phase-2-upgrade-preparation";
  title = "Phase 2 - Upgrade Preparation";
  description = "Confirm the operational prerequisites for a controlled upgrade window.";
  gate = "Proceed only after the change owner confirms every required preparation action.";
  actions =
      manual_action "verify-backups" "Verify backups and control-plane recovery strategy" []
        ("Backup and recovery ownership is documented in the change ticket." ∷ []) []
      ∷ manual_action "confirm-rollback-plan" "Confirm rollback and abort plan" []
          ("Rollback triggers and abort criteria are documented before the window starts." ∷ []) []
      ∷ manual_action "check-node-readiness" "Check node readiness"
          (present_rule_ids r (
            "NODE-001" ∷ "NODE-002" ∷ "EKS-NG-001" ∷ "EKS-NG-002" ∷ "EKS-NG-003" ∷ "EKS-NG-004"
            ∷ []))
          ("Nodes and managed node groups are healthy enough to drain and replace safely." ∷ [])
          ("kubectl get nodes" ∷ [])
      ∷ manual_action "validate-addon-compatibility" "Validate add-on compatibility"
          (present_rule_ids r (
            "ADDON-001" ∷ "ADDON-002" ∷ "COREDNS-001" ∷ "EKS-INSIGHT-002" ∷ "EKS-INSIGHT-003" ∷ []))
          ("Cluster add-ons are compatible with the target Kubernetes version." ∷ []) []
      ∷ manual_action "confirm-maintenance-window" "Confirm maintenance window" []
          ("The window covers control-plane, node, add-on, and validation work." ∷ []) []
      ∷ manual_action "confirm-workload-owner-approval" "Confirm workload owner approval" []
          ("Application owners acknowledge expected disruption risk and validation responsibilities."
            ∷ [])
          []
      ∷ [];
}

abbrev pub execution_status : Bool → ActionStatus
execution_status is_blocked = if is_blocked then ActionStatus.blocked else ActionStatus.ready

abbrev pub execution_reason : Bool → String
execution_reason is_blocked =
    if is_blocked then "Blocked until critical upgrade blockers are resolved." else ""

abbrev execution_actions : ActionStatus → String → List PlanAction
execution_actions status reason =
    execution_action "upgrade-control-plane" "Upgrade control plane" true status reason
      ("Control plane reports the target Kubernetes version and API health is normal." ∷ [])
    ∷ execution_action "upgrade-worker-nodes" "Upgrade managed node groups or worker nodes" true
        status reason ("All worker nodes are on supported kubelet versions and Ready." ∷ [])
    ∷ execution_action "upgrade-addons" "Upgrade cluster add-ons" true status reason
        ("CoreDNS, kube-proxy, CNI, and provider-managed add-ons are healthy." ∷ [])
    ∷ execution_action "restart-workloads-if-required" "Restart or roll workloads if required" false
        status reason
        ("Workloads affected by node replacement or add-on changes are available." ∷ [])
    ∷ []

abbrev pub upgrade_execution_phase : Bool → ActionPhase
upgrade_execution_phase is_blocked = record {
  id = "phase-3-upgrade";
  title = "Phase 3 - Upgrade";
  description = "Execute the control-plane, node, and add-on upgrade steps.";
  gate = "Do not start this phase while any action is blocked.";
  actions = execution_actions (execution_status is_blocked) (execution_reason is_blocked);
}

abbrev pub validation_phase : ActionPhase
validation_phase = record {
  id = "phase-4-validation";
  title = "Phase 4 - Validation";
  description = "Prove cluster and application health after the upgrade.";
  gate = "Close the change only after validation owners confirm these checks.";
  actions =
      manual_action "validate-dns" "Validate DNS" []
        ("Service discovery and external DNS paths resolve successfully." ∷ []) []
      ∷ manual_action "validate-ingress" "Validate ingress" []
          ("Ingress, gateway, and load balancer routes serve expected traffic." ∷ []) []
      ∷ manual_action "validate-workload-health" "Validate workload health" []
          ("Deployments, StatefulSets, DaemonSets, and critical pods are healthy." ∷ []) []
      ∷ manual_action "validate-metrics" "Validate metrics" []
          ("Metrics pipelines show normal scrape and ingestion behavior." ∷ []) []
      ∷ manual_action "validate-logs" "Validate logs" []
          ("Application and platform logs show no upgrade-related error spike." ∷ []) []
      ∷ manual_action "run-smoke-tests" "Run smoke tests" []
          ("Business-critical smoke tests pass after the upgrade." ∷ []) []
      ∷ [];
}

abbrev pub critical_blockers_phase : List PlanAction → ActionPhase
critical_blockers_phase actions = record {
  id = "phase-1-critical-blockers";
  title = "Phase 1 - Critical Blockers";
  description = "Fix findings that can prevent a safe upgrade or make upgrade remediation fail.";
  gate = "Phase 3 is blocked until every required action in this phase is resolved.";
  actions = actions;
}

abbrev pub plan_of : Option Report → ℕ → List PlanAction → UpgradeActionPlan
plan_of r now phase1_actions =
    let is_blocked = has_blocking_phase1_action phase1_actions in
    record {
      schema_version = "kubepreflight.io/upgrade-action-plan/v1";
      verdict = action_plan_verdict r is_blocked;
      generated_at = now;
      phases =
          critical_blockers_phase phase1_actions
          ∷ upgrade_preparation_phase r
          ∷ upgrade_execution_phase is_blocked
          ∷ validation_phase
          ∷ [];
    }

unfoldable pub build_action_plan : Option Report → ℕ → UpgradeActionPlan
build_action_plan r now =
    if is_downgrade r
    then record {
      schema_version = "kubepreflight.io/upgrade-action-plan/v1";
      verdict = ActionVerdict.downgrade_not_supported;
      generated_at = now;
      phases = [];
    }
    else plan_of r now (critical_blocker_actions r)
