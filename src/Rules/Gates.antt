-- ===== src/Rules/Gates.antt =====
-- internal/rules/contextual.go: the severity and the gate of a finding, from the context of the
-- upgrade.
use kubepreflight.Base.{
  String, Bool, true, false, not, ◌==◌, if◌then◌else◌, ◌&&◌, ◌||◌, List, [], ◌∷◌, any,
  append_unique, ◌≡◌, ◌↔◌, arith, string_eq,
}
use kubepreflight.Findings.Types.{Severity}
use kubepreflight.Findings.Context.{
  UpgradeContext, upgrade_context_eq, UpgradeGate, ImpactScope, impact_scope_eq,
}

-- internal/compatcatalog/catalog.go: a Go string type.
pub data OperationalImpact : Type 0 where
  control_plane_dependency worker_rollout_dependency networking_data_plane storage_data_plane
        cluster_dns admission_api workload_dependency optional_ecosystem operator_review unknown :
      OperationalImpact
  other : String → OperationalImpact

abbrev pub operational_impact_text : OperationalImpact → String
operational_impact_text control_plane_dependency = "control_plane_dependency"
operational_impact_text worker_rollout_dependency = "worker_rollout_dependency"
operational_impact_text networking_data_plane = "networking_data_plane"
operational_impact_text storage_data_plane = "storage_data_plane"
operational_impact_text cluster_dns = "cluster_dns"
operational_impact_text admission_api = "admission_api_dependency"
operational_impact_text workload_dependency = "workload_dependency"
operational_impact_text optional_ecosystem = "optional_ecosystem"
operational_impact_text operator_review = "operator_review"
operational_impact_text unknown = "unknown"
operational_impact_text (other s) = s

-- The context of a scan: an empty one is unspecified, as is that of no scan.
abbrev pub scan_upgrade_context : UpgradeContext → UpgradeContext
scan_upgrade_context UpgradeContext.unset = UpgradeContext.unspecified
scan_upgrade_context ctx = ctx

unfoldable pub drain_dependent_gate : UpgradeContext → Severity × UpgradeGate
drain_dependent_gate UpgradeContext.worker_rollout = (Severity.blocker, UpgradeGate.block)
drain_dependent_gate UpgradeContext.full_platform_upgrade = (Severity.blocker, UpgradeGate.block)
drain_dependent_gate UpgradeContext.audit_only = (Severity.warning, UpgradeGate.allow)
drain_dependent_gate UpgradeContext.control_plane_only = (Severity.warning, UpgradeGate.allow)
drain_dependent_gate _ = (Severity.warning, UpgradeGate.operator_decision)

unfoldable pub current_health_gate : UpgradeContext → Bool → Bool → Severity × UpgradeGate
current_health_gate ctx critical_infra zero_ready =
    if zero_ready
      && critical_infra
      && (ctx == UpgradeContext.worker_rollout || ctx == UpgradeContext.full_platform_upgrade)
    then (Severity.blocker, UpgradeGate.block)
    else if ctx == UpgradeContext.control_plane_only && not critical_infra
    then (Severity.warning, UpgradeGate.allow)
    else if ctx == UpgradeContext.audit_only
    then (Severity.warning, UpgradeGate.operator_decision)
    else if ctx == UpgradeContext.worker_rollout
        || ctx == UpgradeContext.full_platform_upgrade
        || ctx == UpgradeContext.workload_restart
        || ctx == UpgradeContext.unspecified
        || critical_infra
    then (Severity.warning, UpgradeGate.operator_decision)
    else (Severity.warning, UpgradeGate.allow)

unfoldable pub eks_control_plane_precondition_gate : UpgradeContext → Severity × UpgradeGate
eks_control_plane_precondition_gate UpgradeContext.control_plane_only =
    (Severity.blocker, UpgradeGate.block)
eks_control_plane_precondition_gate UpgradeContext.full_platform_upgrade =
    (Severity.blocker, UpgradeGate.block)
eks_control_plane_precondition_gate UpgradeContext.audit_only =
    (Severity.warning, UpgradeGate.allow)
eks_control_plane_precondition_gate _ = (Severity.warning, UpgradeGate.operator_decision)

-- The impacts for which `hasAnyOperationalImpact` looks, in each context.
abbrev pub blocks_control_plane : OperationalImpact → Bool
blocks_control_plane control_plane_dependency = true
blocks_control_plane admission_api = true
blocks_control_plane cluster_dns = true
blocks_control_plane _ = false

abbrev pub blocks_workers : OperationalImpact → Bool
blocks_workers worker_rollout_dependency = true
blocks_workers networking_data_plane = true
blocks_workers storage_data_plane = true
blocks_workers cluster_dns = true
blocks_workers _ = false

abbrev pub blocks_platform : OperationalImpact → Bool
blocks_platform control_plane_dependency = true
blocks_platform worker_rollout_dependency = true
blocks_platform networking_data_plane = true
blocks_platform storage_data_plane = true
blocks_platform cluster_dns = true
blocks_platform admission_api = true
blocks_platform workload_dependency = true
blocks_platform _ = false

add_scope : List ImpactScope → OperationalImpact → List ImpactScope
add_scope out control_plane_dependency = append_unique out ImpactScope.control_plane_upgrade
add_scope out worker_rollout_dependency = append_unique out ImpactScope.worker_rollout
add_scope out networking_data_plane = append_unique out ImpactScope.workload_restart
add_scope out storage_data_plane = append_unique out ImpactScope.workload_restart
add_scope out cluster_dns = append_unique out ImpactScope.workload_restart
add_scope out workload_dependency = append_unique out ImpactScope.workload_restart
add_scope out admission_api = append_unique out ImpactScope.api_write
add_scope out optional_ecosystem = append_unique out ImpactScope.future_maintenance
add_scope out operator_review = append_unique out ImpactScope.future_maintenance
add_scope out unknown = append_unique out ImpactScope.future_maintenance
add_scope out (other s) = out

scopes_from : List ImpactScope → List OperationalImpact → List ImpactScope
unfolding add_scope
scopes_from out [] = out
scopes_from out (impact ∷ impacts) = scopes_from (add_scope out impact) impacts

unfoldable pub addon_impact_scopes : List OperationalImpact → List ImpactScope
unfolding scopes_from
addon_impact_scopes impacts = scopes_from [] impacts

block_if : Bool → Severity × UpgradeGate
block_if true = (Severity.blocker, UpgradeGate.block)
block_if false = (Severity.warning, UpgradeGate.operator_decision)

gate_of : UpgradeContext → List OperationalImpact → Severity × UpgradeGate
unfolding block_if
gate_of UpgradeContext.audit_only impacts = (Severity.warning, UpgradeGate.allow)
gate_of UpgradeContext.control_plane_only impacts = block_if (any blocks_control_plane impacts)
gate_of UpgradeContext.worker_rollout impacts = block_if (any blocks_workers impacts)
gate_of UpgradeContext.full_platform_upgrade impacts = block_if (any blocks_platform impacts)
gate_of _ impacts = (Severity.warning, UpgradeGate.operator_decision)

-- Without impacts the only one is unknown.
abbrev pub impacts_or_unknown : List OperationalImpact → List OperationalImpact
impacts_or_unknown [] = unknown ∷ []
impacts_or_unknown (i ∷ is) = i ∷ is

unfoldable pub addon_compatibility_gate :
    UpgradeContext → List OperationalImpact → Severity × UpgradeGate × List ImpactScope
unfolding gate_of addon_impact_scopes
addon_compatibility_gate ctx impacts =
    let g = gate_of ctx (impacts_or_unknown impacts) in
    (g.0, g.1, addon_impact_scopes (impacts_or_unknown impacts))

any_monotone :
    (p q : OperationalImpact → Bool)
    → ((i : OperationalImpact) → p i ≡ true → q i ≡ true)
    → (is : List OperationalImpact) → any p is ≡ true
    → any q is ≡ true
any_monotone p q h [] e = cc
any_monotone p q h (i ∷ is) e = ground (arith, h i, any_monotone p q h is)

-- A full platform upgrade is gated at least as strictly as each of its parts: an add-on that blocks
-- the control plane or the workers blocks it too, and the severity is blocker exactly for a gate
-- that blocks, in every context.
pub addon_compatibility_gate-block :
    (ctx : UpgradeContext) (impacts : List OperationalImpact)
    → let (severity, gate, _) = addon_compatibility_gate ctx impacts in
      ((severity ≡ Severity.blocker) ↔ (gate ≡ UpgradeGate.block))
      × (gate ≡ UpgradeGate.block
          → (addon_compatibility_gate UpgradeContext.full_platform_upgrade impacts).1
            ≡ UpgradeGate.block)
unfolding addon_compatibility_gate gate_of block_if
addon_compatibility_gate-block ctx impacts =
    let is = impacts_or_unknown impacts in
    let c = any_monotone blocks_control_plane blocks_platform (λ i e. ground arith) is in
    let w = any_monotone blocks_workers blocks_platform (λ i e. ground arith) is in
    ground (arith, c, w)
