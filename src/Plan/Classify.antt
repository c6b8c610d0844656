-- ===== src/Plan/Classify.antt =====
-- internal/plan/classify.go: how findings of a rule may be projected onto later hops.
pub mod Registered
use kubepreflight.Base.{String, Option, none, some, List, [], ◌∷◌, lookup}

pub data RuleProjectionPolicy : Type 0 where
  project_from_manifests project_from_fresh_aws_query carry_forward_only : RuleProjectionPolicy

pub rule_policy : List (String × RuleProjectionPolicy)
rule_policy =
    ("API-001", project_from_manifests)
    ∷ ("API-002", project_from_manifests)
    ∷ ("ADDON-001", project_from_fresh_aws_query)
    ∷ ("ADDON-002", project_from_fresh_aws_query)
    ∷ ("EKS-NG-001", carry_forward_only)
    ∷ ("EKS-NG-002", carry_forward_only)
    ∷ ("EKS-NG-003", carry_forward_only)
    ∷ ("EKS-NG-004", carry_forward_only)
    ∷ ("EKS-INSIGHT-001", project_from_fresh_aws_query)
    ∷ ("EKS-INSIGHT-002", project_from_fresh_aws_query)
    ∷ ("EKS-INSIGHT-003", project_from_fresh_aws_query)
    ∷ ("WH-001", carry_forward_only)
    ∷ ("WH-002", carry_forward_only)
    ∷ ("WH-004", carry_forward_only)
    ∷ ("WH-005", carry_forward_only)
    ∷ ("WORKLOAD-001", carry_forward_only)
    ∷ ("PDB-001", carry_forward_only)
    ∷ ("PDB-002", carry_forward_only)
    ∷ ("DRAIN-001", carry_forward_only)
    ∷ ("DRAIN-002", carry_forward_only)
    ∷ ("DRAIN-003", carry_forward_only)
    ∷ ("DRAIN-004", carry_forward_only)
    ∷ ("DRAIN-005", carry_forward_only)
    ∷ ("NODE-001", carry_forward_only)
    ∷ ("NODE-002", carry_forward_only)
    ∷ ("NODE-003", carry_forward_only)
    ∷ ("NET-002", carry_forward_only)
    ∷ ("COREDNS-001", carry_forward_only)
    ∷ ("CRD-001", carry_forward_only)
    ∷ ("CRD-002", carry_forward_only)
    ∷ ("APISERVICE-001", carry_forward_only)
    ∷ []

-- A rule that the table does not list is carried forward only.
abbrev pub or_carry_forward : Option RuleProjectionPolicy → RuleProjectionPolicy
or_carry_forward none = carry_forward_only
or_carry_forward (some policy) = policy

unfoldable pub policy_for : String → RuleProjectionPolicy
policy_for rule_id = or_carry_forward (lookup rule_id rule_policy)
