-- ===== src/Rollback/Reasons.antt =====
-- internal/rollback/model.go: the reason codes. Two codes are one code when their texts are.
use kubepreflight.Base.{String, ◌≡◌, ◌↔◌, ap, Bool, true, ◌==◌, Eq, string_eq, List, [], ◌∷◌, has}

-- A reason code is its text.
pub record ReasonCode : Type 0 where
  pub text : String

abbrev pub reason_code_beq : ReasonCode → ReasonCode → Bool
reason_code_beq a b = a.text == b.text

pub reason_code_beq_iff : (a b : ReasonCode) → (reason_code_beq a b ≡ true) ↔ (a ≡ b)
reason_code_beq_iff a b = (
  λ h. ap (λ t. record { text = t }) ((string_eq.beq_iff a.text b.text).0 h),
  λ e. (string_eq.beq_iff a.text b.text).1 (ap (λ c. c.text) e),
)

instance abbrev pub reason_code_eq : Eq ReasonCode
reason_code_eq = record { beq = reason_code_beq; beq_iff = reason_code_beq_iff }

abbrev pub code_of : String → ReasonCode
code_of t = record { text = t }

abbrev pub reason_upgrade_history_unavailable : ReasonCode
reason_upgrade_history_unavailable = code_of "UPGRADE_HISTORY_UNAVAILABLE"

abbrev pub reason_eks_upgrade_history_unavailable : ReasonCode
reason_eks_upgrade_history_unavailable = code_of "EKS_UPGRADE_HISTORY_UNAVAILABLE"

abbrev pub reason_upgrade_was_not_in_place : ReasonCode
reason_upgrade_was_not_in_place = code_of "UPGRADE_WAS_NOT_IN_PLACE"

abbrev pub reason_rollback_window_expired : ReasonCode
reason_rollback_window_expired = code_of "ROLLBACK_WINDOW_EXPIRED"

abbrev pub reason_rollback_window_near_expiry : ReasonCode
reason_rollback_window_near_expiry = code_of "ROLLBACK_WINDOW_NEAR_EXPIRY"

abbrev pub reason_previous_version_not_n_minus_one : ReasonCode
reason_previous_version_not_n_minus_one = code_of "PREVIOUS_VERSION_NOT_N_MINUS_ONE"

abbrev pub reason_cluster_not_active : ReasonCode
reason_cluster_not_active = code_of "CLUSTER_NOT_ACTIVE"

abbrev pub reason_rollback_target_unsupported : ReasonCode
reason_rollback_target_unsupported = code_of "ROLLBACK_TARGET_UNSUPPORTED"

abbrev pub reason_rollback_target_requires_extended_support : ReasonCode
reason_rollback_target_requires_extended_support =
    code_of "ROLLBACK_TARGET_REQUIRES_EXTENDED_SUPPORT"

abbrev pub reason_upgrade_policy_disallows_rollback_target : ReasonCode
reason_upgrade_policy_disallows_rollback_target = code_of "UPGRADE_POLICY_DISALLOWS_ROLLBACK_TARGET"

abbrev pub reason_end_of_extended_support_auto_upgrade : ReasonCode
reason_end_of_extended_support_auto_upgrade = code_of "END_OF_EXTENDED_SUPPORT_AUTO_UPGRADE"

abbrev pub reason_end_of_extended_support_auto_upgrade_unknown : ReasonCode
reason_end_of_extended_support_auto_upgrade_unknown =
    code_of "END_OF_EXTENDED_SUPPORT_AUTO_UPGRADE_UNVERIFIED"

abbrev pub reason_eks_feature_compatibility_unverified : ReasonCode
reason_eks_feature_compatibility_unverified = code_of "EKS_FEATURE_COMPATIBILITY_UNVERIFIED"

abbrev pub reason_eks_feature_incompatible : ReasonCode
reason_eks_feature_incompatible = code_of "EKS_FEATURE_INCOMPATIBLE"

abbrev pub reason_incompatible_eks_feature_enabled : ReasonCode
reason_incompatible_eks_feature_enabled = code_of "INCOMPATIBLE_EKS_FEATURE_ENABLED"

abbrev pub reason_eks_insights_unavailable : ReasonCode
reason_eks_insights_unavailable = code_of "EKS_INSIGHTS_UNAVAILABLE"

abbrev pub reason_eks_insights_stale : ReasonCode
reason_eks_insights_stale = code_of "EKS_INSIGHTS_STALE"

abbrev pub reason_eks_insights_blocking : ReasonCode
reason_eks_insights_blocking = code_of "EKS_INSIGHTS_BLOCKING"

abbrev pub reason_managed_nodegroup_rollback_required : ReasonCode
reason_managed_nodegroup_rollback_required = code_of "MANAGED_NODEGROUP_ROLLBACK_REQUIRED"

abbrev pub reason_self_managed_node_evidence_unavailable : ReasonCode
reason_self_managed_node_evidence_unavailable = code_of "SELF_MANAGED_NODE_EVIDENCE_UNAVAILABLE"

abbrev pub reason_self_managed_node_rollback_required : ReasonCode
reason_self_managed_node_rollback_required = code_of "SELF_MANAGED_NODE_ROLLBACK_REQUIRED"

abbrev pub reason_worker_nodes_would_remain_newer_than_control : ReasonCode
reason_worker_nodes_would_remain_newer_than_control =
    code_of "WORKER_NODES_WOULD_REMAIN_NEWER_THAN_CONTROL_PLANE"

abbrev pub reason_auto_mode_disruption_risk : ReasonCode
reason_auto_mode_disruption_risk = code_of "AUTO_MODE_DISRUPTION_RISK"

abbrev pub reason_fargate_evidence_unavailable : ReasonCode
reason_fargate_evidence_unavailable = code_of "FARGATE_EVIDENCE_UNAVAILABLE"

abbrev pub reason_fargate_pod_recreation_risk : ReasonCode
reason_fargate_pod_recreation_risk = code_of "FARGATE_POD_RECREATION_RISK"

abbrev pub reason_managed_addon_rollback_required : ReasonCode
reason_managed_addon_rollback_required = code_of "MANAGED_ADDON_ROLLBACK_REQUIRED"

abbrev pub reason_managed_addon_compatibility_unknown : ReasonCode
reason_managed_addon_compatibility_unknown = code_of "MANAGED_ADDON_COMPATIBILITY_UNKNOWN"

abbrev pub reason_self_managed_addon_compatibility_unknown : ReasonCode
reason_self_managed_addon_compatibility_unknown = code_of "SELF_MANAGED_ADDON_COMPATIBILITY_UNKNOWN"

abbrev pub reason_new_version_api_adoption_risk : ReasonCode
reason_new_version_api_adoption_risk = code_of "NEW_VERSION_API_ADOPTION_RISK"

abbrev pub reason_crd_webhook_controller_risk : ReasonCode
reason_crd_webhook_controller_risk = code_of "CRD_WEBHOOK_CONTROLLER_RISK"

abbrev pub reason_pdb_disruption_constraints : ReasonCode
reason_pdb_disruption_constraints = code_of "PDB_DISRUPTION_CONSTRAINTS"

abbrev pub reason_unhealthy_workloads_present : ReasonCode
reason_unhealthy_workloads_present = code_of "UNHEALTHY_WORKLOADS_PRESENT"

abbrev pub reason_observability_evidence_missing : ReasonCode
reason_observability_evidence_missing = code_of "OBSERVABILITY_EVIDENCE_MISSING"

abbrev pub reason_application_health_unknown : ReasonCode
reason_application_health_unknown = code_of "APPLICATION_HEALTH_UNKNOWN"

abbrev pub reason_force_bypass_not_recommended : ReasonCode
reason_force_bypass_not_recommended = code_of "FORCE_BYPASS_NOT_RECOMMENDED"

abbrev pub reason_rollback_evidence_target_mismatch : ReasonCode
reason_rollback_evidence_target_mismatch = code_of "ROLLBACK_EVIDENCE_TARGET_MISMATCH"

abbrev pub reason_rollback_evidence_target_unknown : ReasonCode
reason_rollback_evidence_target_unknown = code_of "ROLLBACK_EVIDENCE_TARGET_UNKNOWN"

abbrev pub reason_rollback_evidence_cluster_mismatch : ReasonCode
reason_rollback_evidence_cluster_mismatch = code_of "ROLLBACK_EVIDENCE_CLUSTER_MISMATCH"

abbrev pub reason_rollback_evidence_cluster_unknown : ReasonCode
reason_rollback_evidence_cluster_unknown = code_of "ROLLBACK_EVIDENCE_CLUSTER_UNKNOWN"

abbrev pub reason_rollback_evidence_stale : ReasonCode
reason_rollback_evidence_stale = code_of "ROLLBACK_EVIDENCE_STALE"

abbrev pub reason_rollback_evidence_timestamp_unknown : ReasonCode
reason_rollback_evidence_timestamp_unknown = code_of "ROLLBACK_EVIDENCE_TIMESTAMP_UNKNOWN"

-- The codes that `validReasonCode` accepts.
unfoldable pub valid_reason_codes : List ReasonCode
valid_reason_codes =
    reason_upgrade_history_unavailable ∷ reason_eks_upgrade_history_unavailable
    ∷ reason_upgrade_was_not_in_place ∷ reason_rollback_window_expired
    ∷ reason_rollback_window_near_expiry ∷ reason_previous_version_not_n_minus_one
    ∷ reason_cluster_not_active ∷ reason_rollback_target_unsupported
    ∷ reason_rollback_target_requires_extended_support
    ∷ reason_upgrade_policy_disallows_rollback_target ∷ reason_end_of_extended_support_auto_upgrade
    ∷ reason_end_of_extended_support_auto_upgrade_unknown
    ∷ reason_eks_feature_compatibility_unverified ∷ reason_eks_feature_incompatible
    ∷ reason_incompatible_eks_feature_enabled ∷ reason_eks_insights_unavailable
    ∷ reason_eks_insights_stale ∷ reason_eks_insights_blocking
    ∷ reason_managed_nodegroup_rollback_required ∷ reason_self_managed_node_evidence_unavailable
    ∷ reason_self_managed_node_rollback_required
    ∷ reason_worker_nodes_would_remain_newer_than_control ∷ reason_auto_mode_disruption_risk
    ∷ reason_fargate_evidence_unavailable ∷ reason_fargate_pod_recreation_risk
    ∷ reason_managed_addon_rollback_required ∷ reason_managed_addon_compatibility_unknown
    ∷ reason_self_managed_addon_compatibility_unknown ∷ reason_new_version_api_adoption_risk
    ∷ reason_crd_webhook_controller_risk ∷ reason_pdb_disruption_constraints
    ∷ reason_unhealthy_workloads_present ∷ reason_observability_evidence_missing
    ∷ reason_application_health_unknown ∷ reason_force_bypass_not_recommended
    ∷ reason_rollback_evidence_target_mismatch ∷ reason_rollback_evidence_target_unknown
    ∷ reason_rollback_evidence_cluster_mismatch ∷ reason_rollback_evidence_cluster_unknown
    ∷ reason_rollback_evidence_stale ∷ reason_rollback_evidence_timestamp_unknown ∷ []

unfoldable pub valid_reason_code : ReasonCode → Bool
valid_reason_code code = has code valid_reason_codes
