-- ===== src/Findings/Context.antt =====
-- internal/findings/context.go: upgrade contexts, impact scopes and upgrade gates.
-- `other t` is a value `t` that is none of the constants, as a document read from JSON may
-- hold; `…_text` gives the string that a value is.
use kubepreflight.Base.{
  String, ◌≡◌, ◌↔◌, Bool, true, false, ◌==◌, Eq, eq_iff, arith, string_eq, Option, none, some, List,
  if◌then◌else◌, [], ◌∷◌, ◌⊎◌, inl, inr, lookup,
}

pub data UpgradeContext : Type 0 where
  unset unspecified audit_only control_plane_only worker_rollout full_platform_upgrade
        workload_restart :
      UpgradeContext
  other : String → UpgradeContext

abbrev pub upgrade_context_text : UpgradeContext → String
upgrade_context_text UpgradeContext.unset = ""
upgrade_context_text UpgradeContext.unspecified = "unspecified"
upgrade_context_text UpgradeContext.audit_only = "audit_only"
upgrade_context_text UpgradeContext.control_plane_only = "control_plane_only"
upgrade_context_text UpgradeContext.worker_rollout = "worker_rollout"
upgrade_context_text UpgradeContext.full_platform_upgrade = "full_platform_upgrade"
upgrade_context_text UpgradeContext.workload_restart = "workload_restart"
upgrade_context_text (UpgradeContext.other t) = t

abbrev pub upgrade_context_beq : UpgradeContext → UpgradeContext → Bool
upgrade_context_beq UpgradeContext.unset UpgradeContext.unset = true
upgrade_context_beq UpgradeContext.unspecified UpgradeContext.unspecified = true
upgrade_context_beq UpgradeContext.audit_only UpgradeContext.audit_only = true
upgrade_context_beq UpgradeContext.control_plane_only UpgradeContext.control_plane_only = true
upgrade_context_beq UpgradeContext.worker_rollout UpgradeContext.worker_rollout = true
upgrade_context_beq UpgradeContext.full_platform_upgrade UpgradeContext.full_platform_upgrade = true
upgrade_context_beq UpgradeContext.workload_restart UpgradeContext.workload_restart = true
upgrade_context_beq (UpgradeContext.other s) (UpgradeContext.other t) = s == t
upgrade_context_beq _ _ = false

pub upgrade_context_beq_iff : (a b : UpgradeContext) → (upgrade_context_beq a b ≡ true) ↔ (a ≡ b)
upgrade_context_beq_iff (UpgradeContext.other s) (UpgradeContext.other t) =
    ground (arith, eq_iff s t)
upgrade_context_beq_iff _ _ = ground arith

instance abbrev pub upgrade_context_eq : Eq UpgradeContext
upgrade_context_eq = record { beq = upgrade_context_beq; beq_iff = upgrade_context_beq_iff }

pub data ImpactScope : Type 0 where
  control_plane_upgrade worker_rollout node_drain api_write workload_restart current_health
        future_maintenance crd_conversion aggregated_api :
      ImpactScope
  other : String → ImpactScope

abbrev pub impact_scope_text : ImpactScope → String
impact_scope_text ImpactScope.control_plane_upgrade = "control_plane_upgrade"
impact_scope_text ImpactScope.worker_rollout = "worker_rollout"
impact_scope_text ImpactScope.node_drain = "node_drain"
impact_scope_text ImpactScope.api_write = "api_write"
impact_scope_text ImpactScope.workload_restart = "workload_restart"
impact_scope_text ImpactScope.current_health = "current_health"
impact_scope_text ImpactScope.future_maintenance = "future_maintenance"
impact_scope_text ImpactScope.crd_conversion = "crd_conversion"
impact_scope_text ImpactScope.aggregated_api = "aggregated_api"
impact_scope_text (ImpactScope.other t) = t

abbrev pub impact_scope_beq : ImpactScope → ImpactScope → Bool
impact_scope_beq ImpactScope.control_plane_upgrade ImpactScope.control_plane_upgrade = true
impact_scope_beq ImpactScope.worker_rollout ImpactScope.worker_rollout = true
impact_scope_beq ImpactScope.node_drain ImpactScope.node_drain = true
impact_scope_beq ImpactScope.api_write ImpactScope.api_write = true
impact_scope_beq ImpactScope.workload_restart ImpactScope.workload_restart = true
impact_scope_beq ImpactScope.current_health ImpactScope.current_health = true
impact_scope_beq ImpactScope.future_maintenance ImpactScope.future_maintenance = true
impact_scope_beq ImpactScope.crd_conversion ImpactScope.crd_conversion = true
impact_scope_beq ImpactScope.aggregated_api ImpactScope.aggregated_api = true
impact_scope_beq (ImpactScope.other s) (ImpactScope.other t) = s == t
impact_scope_beq _ _ = false

pub impact_scope_beq_iff : (a b : ImpactScope) → (impact_scope_beq a b ≡ true) ↔ (a ≡ b)
impact_scope_beq_iff (ImpactScope.other s) (ImpactScope.other t) = ground (arith, eq_iff s t)
impact_scope_beq_iff _ _ = ground arith

instance abbrev pub impact_scope_eq : Eq ImpactScope
impact_scope_eq = record { beq = impact_scope_beq; beq_iff = impact_scope_beq_iff }

pub data UpgradeGate : Type 0 where
  unset block allow operator_decision : UpgradeGate
  other : String → UpgradeGate

abbrev pub upgrade_gate_text : UpgradeGate → String
upgrade_gate_text UpgradeGate.unset = ""
upgrade_gate_text UpgradeGate.block = "block"
upgrade_gate_text UpgradeGate.allow = "allow"
upgrade_gate_text UpgradeGate.operator_decision = "operator_decision"
upgrade_gate_text (UpgradeGate.other t) = t

abbrev pub upgrade_gate_beq : UpgradeGate → UpgradeGate → Bool
upgrade_gate_beq UpgradeGate.unset UpgradeGate.unset = true
upgrade_gate_beq UpgradeGate.block UpgradeGate.block = true
upgrade_gate_beq UpgradeGate.allow UpgradeGate.allow = true
upgrade_gate_beq UpgradeGate.operator_decision UpgradeGate.operator_decision = true
upgrade_gate_beq (UpgradeGate.other s) (UpgradeGate.other t) = s == t
upgrade_gate_beq _ _ = false

pub upgrade_gate_beq_iff : (a b : UpgradeGate) → (upgrade_gate_beq a b ≡ true) ↔ (a ≡ b)
upgrade_gate_beq_iff (UpgradeGate.other s) (UpgradeGate.other t) = ground (arith, eq_iff s t)
upgrade_gate_beq_iff _ _ = ground arith

instance abbrev pub upgrade_gate_eq : Eq UpgradeGate
upgrade_gate_eq = record { beq = upgrade_gate_beq; beq_iff = upgrade_gate_beq_iff }

-- `nil`, or the error with the value that it prints.
pub data ContextError : Type 0 where
  unsupported_upgrade_context : String → ContextError
  invalid_upgrade_context : UpgradeContext → ContextError
  invalid_impact_scope : ImpactScope → ContextError
  invalid_upgrade_gate : UpgradeGate → ContextError

abbrev pub upgrade_context_cli_values : List (String × UpgradeContext)
upgrade_context_cli_values =
    ("unspecified", UpgradeContext.unspecified)
    ∷ ("audit-only", UpgradeContext.audit_only)
    ∷ ("control-plane-only", UpgradeContext.control_plane_only)
    ∷ ("worker-rollout", UpgradeContext.worker_rollout)
    ∷ ("full-platform-upgrade", UpgradeContext.full_platform_upgrade)
    ∷ ("workload-restart", UpgradeContext.workload_restart)
    ∷ []

-- A Go result `(T, error)`.
or_unsupported : String → Option UpgradeContext → UpgradeContext ⊎ ContextError
or_unsupported value (some ctx) = inl ctx
or_unsupported value none = inr (unsupported_upgrade_context value)

pub parse_upgrade_context_flag : String → UpgradeContext ⊎ ContextError
unfolding or_unsupported
parse_upgrade_context_flag value =
    if value == ""
    then inl UpgradeContext.unspecified
    else or_unsupported value (lookup value upgrade_context_cli_values)

abbrev pub upgrade_context_flag_values : List String
upgrade_context_flag_values =
    "unspecified" ∷ "audit-only" ∷ "control-plane-only" ∷ "worker-rollout" ∷ "full-platform-upgrade"
    ∷ "workload-restart" ∷ []

abbrev pub validate_upgrade_context : UpgradeContext → Option ContextError
validate_upgrade_context (UpgradeContext.other t) =
    some (invalid_upgrade_context (UpgradeContext.other t))
validate_upgrade_context _ = none

abbrev pub validate_impact_scope : ImpactScope → Option ContextError
validate_impact_scope (ImpactScope.other t) = some (invalid_impact_scope (ImpactScope.other t))
validate_impact_scope _ = none

abbrev pub validate_upgrade_gate : UpgradeGate → Option ContextError
validate_upgrade_gate (UpgradeGate.other t) = some (invalid_upgrade_gate (UpgradeGate.other t))
validate_upgrade_gate _ = none
