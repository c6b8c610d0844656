-- ===== src/Findings/Priority.antt =====
-- internal/findings/priority.go: the operational priority of a finding.
pub mod Laws
use kubepreflight.Base.{
  ℕ, String, Bool, true, false, not, ◌==◌, ◌/=◌, string_eq, if◌then◌else◌, ◌&&◌, Option, none, some,
  List, [], ◌∷◌, lookup, ltb, any,
}
use kubepreflight.Findings.Context.{UpgradeGate, upgrade_gate_eq}
use kubepreflight.Findings.Finding.{Finding, effective_upgrade_gate}

pub data Priority : Type 0 where
  p1 p2 p3 p4 : Priority

abbrev pub priority_text : Priority → String
priority_text p1 = "P1"
priority_text p2 = "P2"
priority_text p3 = "P3"
priority_text p4 = "P4"

abbrev pub priority_reasons : Priority → String
priority_reasons p1 =
    "May block kubectl apply/patch/scale, Helm upgrades, and controller reconciliation."
priority_reasons p2 = "Resource or behavior may fail after the target Kubernetes upgrade."
priority_reasons p3 = "Node drain may fail during maintenance or a managed node group upgrade."
priority_reasons p4 =
    "Upgrade should not begin while workloads, nodes, or critical add-ons are unhealthy."

pub priority_by_rule_id : List (String × Priority)
priority_by_rule_id =
    ("API-001", p2)
    ∷ ("EKS-INSIGHT-001", p2)
    ∷ ("CRD-001", p2)
    ∷ ("CRD-002", p2)
    ∷ ("APISERVICE-001", p2)
    ∷ ("NET-002", p2)
    ∷ ("NODE-002", p2)
    ∷ ("API-002", p4)
    ∷ ("NODE-003", p3)
    ∷ ("PDB-001", p3)
    ∷ ("PDB-002", p3)
    ∷ ("NODE-001", p3)
    ∷ ("EKS-NG-002", p3)
    ∷ ("DRAIN-001", p3)
    ∷ ("DRAIN-002", p3)
    ∷ ("DRAIN-003", p3)
    ∷ ("DRAIN-004", p3)
    ∷ ("DRAIN-005", p3)
    ∷ ("WH-001", p4)
    ∷ ("WH-002", p4)
    ∷ ("WH-004", p4)
    ∷ ("WH-005", p4)
    ∷ ("WORKLOAD-001", p4)
    ∷ ("ADDON-001", p2)
    ∷ ("ADDON-002", p3)
    ∷ ("COREDNS-001", p4)
    ∷ ("EKS-NG-001", p4)
    ∷ ("EKS-NG-003", p4)
    ∷ ("EKS-NG-004", p4)
    ∷ ("EKS-INSIGHT-002", p4)
    ∷ ("EKS-INSIGHT-003", p4)
    ∷ []

pub affected_scope_by_rule_id : List (String × String)
affected_scope_by_rule_id =
    ("EKS-INSIGHT-001", "global")
    ∷ ("EKS-INSIGHT-002", "global")
    ∷ ("EKS-INSIGHT-003", "global")
    ∷ ("NET-002", "global")
    ∷ ("API-001", "workload")
    ∷ ("API-002", "workload")
    ∷ ("CRD-001", "workload")
    ∷ ("CRD-002", "workload")
    ∷ ("APISERVICE-001", "workload")
    ∷ ("PDB-001", "workload")
    ∷ ("PDB-002", "workload")
    ∷ ("WH-001", "workload")
    ∷ ("WH-002", "workload")
    ∷ ("WH-004", "workload")
    ∷ ("WH-005", "workload")
    ∷ ("WORKLOAD-001", "workload")
    ∷ ("DRAIN-001", "workload")
    ∷ ("DRAIN-002", "workload")
    ∷ ("DRAIN-003", "workload")
    ∷ ("DRAIN-005", "workload")
    ∷ ("NODE-001", "node")
    ∷ ("NODE-003", "workload")
    ∷ ("NODE-002", "node")
    ∷ ("DRAIN-004", "node")
    ∷ ("EKS-NG-001", "node")
    ∷ ("EKS-NG-002", "node")
    ∷ ("EKS-NG-003", "node")
    ∷ ("EKS-NG-004", "node")
    ∷ ("ADDON-001", "addon")
    ∷ ("ADDON-002", "addon")
    ∷ ("COREDNS-001", "addon")
    ∷ []

is_some {ℓ} : {A : Type ℓ} → Option A → Bool
is_some none = false
is_some (some a) = true

pub has_explicit_priority_mapping : String → Bool
unfolding priority_by_rule_id is_some
has_explicit_priority_mapping rule_id = is_some (lookup rule_id priority_by_rule_id)

-- The `switch` on the text of a finding's priority.
unfoldable pub priority_rank : String → ℕ
priority_rank p =
    if p == "P1"
    then 0
    else if p == "P2"
    then 1
    else if p == "P3"
    then 2
    else if p == "P4"
    then 3
    else 4

abbrev or_else {ℓ} : {A : Type ℓ} → Option A → A → A
or_else none d = d
or_else (some a) d = a

unfoldable pub addon002_upgrade_recommended : Finding → Bool
addon002_upgrade_recommended f =
    any (λ evidence. evidence == "compatibility status: upgrade recommended") f.evidence

-- The two variables of `AssignPriority`, `priority` and `scope`, before the overrides.
default_priority : String → Priority × String
unfolding priority_by_rule_id affected_scope_by_rule_id
default_priority rule_id = (
  or_else (lookup rule_id priority_by_rule_id) p4,
  or_else (lookup rule_id affected_scope_by_rule_id) "",
)

-- The three `if`s, in the order of the source.
critical_infra_override : Finding → Priority × String → Priority × String
critical_infra_override f (priority, scope) =
    if f.critical_infra
      && f.rule_id /= "NODE-003"
      && ltb (priority_rank (priority_text p2)) (priority_rank (priority_text priority))
    then (p2, "cluster")
    else (priority, scope)

addon_override : Finding → Priority × String → Priority × String
unfolding addon002_upgrade_recommended
addon_override f (priority, scope) =
    if f.rule_id == "ADDON-002" && addon002_upgrade_recommended f
    then (p4, "addon")
    else (priority, scope)

global_override : Finding → Priority × String → Priority × String
global_override f (priority, scope) = if f.global_blocker then (p1, "global") else (priority, scope)

-- The priority and the scope that `AssignPriority` settles on.
pub decide_priority : Finding → Priority × String
unfolding critical_infra_override addon_override global_override
decide_priority f =
    global_override f (addon_override f (critical_infra_override f (default_priority f.rule_id)))

abbrev is_p1 : Priority → Bool
is_p1 p1 = true
is_p1 _ = false

unfoldable pub assign_priority : Finding → Finding
unfolding effective_upgrade_gate
assign_priority f =
    let priority = (decide_priority f).0 in
    let gate =
      if f.upgrade_gate == UpgradeGate.unset then effective_upgrade_gate f else f.upgrade_gate in
    record f {
      priority = priority_text priority;
      priority_reason = priority_reasons priority;
      affected_scope = (decide_priority f).1;
      upgrade_gate = gate;
      can_upgrade_continue = gate == UpgradeGate.allow && not (is_p1 priority);
    }
