-- ===== src/Plan/Templates.antt =====
-- The templates of internal/plan/action_plan.go: what the first phase may ask for.
use kubepreflight.Base.{String, Bool, true, false, List, [], ◌∷◌}

pub record ActionTemplate : Type 0 where
  pub id : String
  pub title : String
  pub source_rule_ids : List String
  pub optional_when_only_warnings : Bool
  pub success_criteria : List String
  pub commands : List String

abbrev fix_api_compatibility : ActionTemplate
fix_api_compatibility = record {
  id = "fix-api-compatibility";
  title = "Fix removed or deprecated API usage";
  source_rule_ids = "API-001" ∷ "API-002" ∷ "CRD-001" ∷ "CRD-002" ∷ "APISERVICE-001" ∷ [];
  optional_when_only_warnings = true;
  success_criteria =
      "All manifests and live resources use APIs served by the target Kubernetes version."
      ∷ "Re-run KubePreflight and confirm no API compatibility findings remain." ∷ [];
  commands = [];
}

abbrev fix_eks_critical_insights : ActionTemplate
fix_eks_critical_insights = record {
  id = "fix-eks-critical-insights";
  title = "Resolve EKS critical upgrade insights";
  source_rule_ids = "EKS-INSIGHT-001" ∷ [];
  optional_when_only_warnings = false;
  success_criteria =
      "AWS EKS Upgrade Insights no longer reports ERROR upgrade-readiness findings."
      ∷ "Re-run KubePreflight with AWS enrichment enabled." ∷ [];
  commands = [];
}

abbrev fix_fail_closed_webhooks : ActionTemplate
fix_fail_closed_webhooks = record {
  id = "fix-fail-closed-webhooks";
  title = "Fix fail-closed admission webhooks";
  source_rule_ids = "WH-001" ∷ "WH-002" ∷ "WH-004" ∷ "WH-005" ∷ [];
  optional_when_only_warnings = false;
  success_criteria =
      "Admission webhooks have healthy endpoints and scoped rules."
      ∷ "kubectl apply, patch, scale, and Helm operations are not blocked by webhook failures."
      ∷ [];
  commands =
      "kubectl get validatingwebhookconfigurations,mutatingwebhookconfigurations"
      ∷ "kubectl get endpointslices,endpoints --all-namespaces" ∷ [];
}

abbrev resolve_disruption_risk : ActionTemplate
resolve_disruption_risk = record {
  id = "resolve-disruption-risk";
  title = "Resolve disruption budget and unhealthy workload risks";
  source_rule_ids = "PDB-001" ∷ "PDB-002" ∷ "DRAIN-001" ∷ [];
  optional_when_only_warnings = false;
  success_criteria =
      "Workloads protected by PodDisruptionBudgets can tolerate at least one voluntary disruption."
      ∷ "Unhealthy workloads are repaired before node drains or managed node group upgrades."
      ∷ "Single-replica Deployments/StatefulSets have real eviction headroom or an explicitly documented waiver."
      ∷ [];
  commands = "kubectl get pdb --all-namespaces" ∷ "kubectl get pods --all-namespaces" ∷ [];
}

abbrev resolve_node_local_storage_risk : ActionTemplate
resolve_node_local_storage_risk = record {
  id = "resolve-node-local-storage-risk";
  title = "Resolve node-local storage evacuation risk";
  source_rule_ids = "DRAIN-002" ∷ [];
  optional_when_only_warnings = true;
  success_criteria =
      "Workloads using hostPath or node-pinned PersistentVolumes have a documented drain/migration plan, or have moved to networked storage."
      ∷ [];
  commands = "kubectl get pv -o wide" ∷ "kubectl get pvc --all-namespaces" ∷ [];
}

abbrev resolve_scheduling_constraint_risk : ActionTemplate
resolve_scheduling_constraint_risk = record {
  id = "resolve-scheduling-constraint-risk";
  title = "Resolve hard scheduling constraint risk";
  source_rule_ids = "DRAIN-003" ∷ [];
  optional_when_only_warnings = true;
  success_criteria =
      "Node affinity/selector, anti-affinity, topology spread, and hostPort constraints have enough qualifying nodes/domains to survive a node drain."
      ∷ [];
  commands = "kubectl get nodes --show-labels" ∷ "kubectl describe node <node>" ∷ [];
}

abbrev resolve_unhealthy_workloads : ActionTemplate
resolve_unhealthy_workloads = record {
  id = "resolve-unhealthy-workloads";
  title = "Resolve unhealthy workloads before upgrade";
  source_rule_ids = "WORKLOAD-001" ∷ [];
  optional_when_only_warnings = true;
  success_criteria =
      "Pre-existing unhealthy workloads are fixed or explicitly waived before the change window."
      ∷ "Post-upgrade validation owners know which workload health issues predated the upgrade."
      ∷ [];
  commands =
      "kubectl get pods --all-namespaces"
      ∷ "kubectl get events --all-namespaces --sort-by=.lastTimestamp" ∷ [];
}

abbrev resolve_statefulset_daemonset_readiness : ActionTemplate
resolve_statefulset_daemonset_readiness = record {
  id = "resolve-statefulset-daemonset-readiness";
  title = "Resolve StatefulSet/DaemonSet rollout health";
  source_rule_ids = "DRAIN-005" ∷ [];
  optional_when_only_warnings = true;
  success_criteria =
      "StatefulSets and DaemonSets have all desired replicas/pods Ready before starting or continuing a node drain."
      ∷ [];
  commands =
      "kubectl get statefulsets,daemonsets --all-namespaces"
      ∷ "kubectl get pods --all-namespaces -o wide" ∷ [];
}

abbrev replace_deprecated_master_node_label : ActionTemplate
replace_deprecated_master_node_label = record {
  id = "replace-deprecated-master-node-label";
  title = "Replace deprecated master node label selectors";
  source_rule_ids = "NODE-003" ∷ [];
  optional_when_only_warnings = true;
  success_criteria =
      "No live or manifest pod templates reference node-role.kubernetes.io/master in node selectors, node affinity, or tolerations."
      ∷ "Target nodes carry the replacement node-role.kubernetes.io/control-plane label or an approved platform-owned label before selectors are changed."
      ∷ [];
  commands =
      "kubectl get nodes --show-labels | grep -E 'node-role.kubernetes.io/(master|control-plane)'"
      ∷ "kubectl get deploy,daemonset --all-namespaces -o yaml" ∷ [];
}

abbrev resolve_not_ready_nodes : ActionTemplate
resolve_not_ready_nodes = record {
  id = "resolve-not-ready-nodes";
  title = "Resolve NotReady nodes";
  source_rule_ids = "NODE-001" ∷ [];
  optional_when_only_warnings = false;
  success_criteria =
      "All nodes are Ready before starting the upgrade."
      ∷ "Node drain and scheduling capacity are healthy." ∷ [];
  commands = "kubectl get nodes" ∷ [];
}

abbrev resolve_node_capacity_risk : ActionTemplate
resolve_node_capacity_risk = record {
  id = "resolve-node-capacity-risk";
  title = "Resolve estimated node-capacity shortage";
  source_rule_ids = "DRAIN-004" ∷ [];
  optional_when_only_warnings = true;
  success_criteria =
      "Remaining nodes have enough estimated spare CPU/memory to absorb any one node's workloads if it's removed, or a cluster autoscaler is confirmed to add capacity during drains."
      ∷ [];
  commands = "kubectl describe nodes | grep -A5 'Allocated resources'" ∷ "kubectl top nodes" ∷ [];
}

abbrev fix_coredns_health : ActionTemplate
fix_coredns_health = record {
  id = "fix-coredns-health";
  title = "Fix CoreDNS health";
  source_rule_ids = "COREDNS-001" ∷ [];
  optional_when_only_warnings = false;
  success_criteria =
      "CoreDNS pods are available and ready."
      ∷ "DNS lookups from workloads succeed before the upgrade window." ∷ [];
  commands = "kubectl -n kube-system get deploy,pods -l k8s-app=kube-dns" ∷ [];
}

abbrev pub templates : List ActionTemplate
templates =
    fix_api_compatibility ∷ fix_eks_critical_insights ∷ fix_fail_closed_webhooks
    ∷ resolve_disruption_risk ∷ resolve_node_local_storage_risk ∷ resolve_scheduling_constraint_risk
    ∷ resolve_unhealthy_workloads ∷ resolve_statefulset_daemonset_readiness
    ∷ replace_deprecated_master_node_label ∷ resolve_not_ready_nodes ∷ resolve_node_capacity_risk
    ∷ fix_coredns_health ∷ []
