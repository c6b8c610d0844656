-- ===== src/Rollback/Operational.antt =====
-- internal/rollback/operational.go: `ApplyOperationalReadiness`.
pub mod Laws
use kubepreflight.Base.{
  ℕ, String, Bool, true, false, ◌||◌, ◌==◌, if◌then◌else◌, Option, none, some, List, [], ◌∷◌, ◌++◌,
}
use kubepreflight.Findings.Report.{Report}
use kubepreflight.Rollback.Types.{ReadinessStatus, readiness_status_eq, CheckStatus}
use kubepreflight.Rollback.Reasons.{reason_observability_evidence_missing}
use kubepreflight.Rollback.Model.{Assessment, Check, Evidence, Readiness}
use kubepreflight.Rollback.Checks.{readiness_from_checks, combine_readiness, has_unknown_check}
use kubepreflight.Rollback.Freshness.{FindingsFreshness, validate_findings_freshness}
use kubepreflight.Rollback.Provenance.{ClusterEvidenceIdentity, validate_cluster_evidence_identity}
use kubepreflight.Rollback.Families.Disruption.{
  self_managed_addon_check, workload_health_check, disruption_check,
}
use kubepreflight.Rollback.Families.Inventories.{
  nodegroup_rollback_check, self_managed_node_evidence_check, fargate_evidence_check,
  managed_addon_check, coverage_check,
}
use kubepreflight.Rollback.Families.Compatibility.{reverse_compatibility_check}

abbrev pub operational_evidence_check : Check
operational_evidence_check = record {
  id = "operational-evidence";
  title = "KubePreflight operational evidence is available";
  status = CheckStatus.unknown;
  reason_codes = reason_observability_evidence_missing ∷ [];
  evidence = [];
}

abbrev pub incomplete_evidence : Evidence → Evidence
incomplete_evidence e = record e { complete = false }

unfoldable pub operational_checks :
    Assessment → Report → ClusterEvidenceIdentity → FindingsFreshness → List Check
operational_checks a r identity freshness =
    nodegroup_rollback_check a r identity freshness
    ∷ self_managed_node_evidence_check r
    ∷ fargate_evidence_check r
    ∷ managed_addon_check r identity freshness
    ∷ self_managed_addon_check r identity freshness
    ∷ workload_health_check r identity freshness
    ∷ disruption_check r identity freshness
    ∷ reverse_compatibility_check a r identity freshness
    ∷ coverage_check r
    ∷ []

-- What new checks do to an assessment.
abbrev pub with_checks : Assessment → List Check → Assessment
with_checks a checks =
    let readiness = combine_readiness a.readiness (readiness_from_checks checks) in
    record a {
      checks = a.checks ++ checks;
      readiness = readiness;
      evidence =
          if has_unknown_check checks || readiness.status == ReadinessStatus.insufficient_evidence
          then incomplete_evidence a.evidence
          else a.evidence;
    }

module _ (print_time : ℕ → String) (print_age : ℕ → String) where
  unfoldable pub apply_operational_readiness : Assessment → Option Report → Assessment
  apply_operational_readiness a none = record a {
    checks = a.checks ++ (operational_evidence_check ∷ []);
    readiness =
        combine_readiness a.readiness (readiness_from_checks (operational_evidence_check ∷ []));
    evidence = incomplete_evidence a.evidence;
  }
  apply_operational_readiness a (some r) = with_checks a (
      operational_checks a r (validate_cluster_evidence_identity r a.cluster)
        (validate_findings_freshness print_time print_age r a.generated_at))
