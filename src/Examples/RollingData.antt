-- ===== src/Examples/RollingData.antt =====
-- Test data: a snapshot of a cluster, an assessment and evidence that is not to be trusted.
use kubepreflight.Base.{ℕ, String, refl, true, string_eq, none, [], ◌∷◌}
use kubepreflight.Rollback.Types.{
  AssessmentMode, EligibilityStatus, ReadinessStatus, RecommendationDecision, Confidence,
}
use kubepreflight.Rollback.Reasons.{
  valid_reason_code, valid_reason_codes, reason_rollback_window_near_expiry, reason_code_eq,
  reason_rollback_evidence_stale, reason_rollback_evidence_cluster_unknown,
}
use kubepreflight.Rollback.Model.{Assessment, Cluster}
use kubepreflight.Rollback.Recommendation.Laws.{IsWellFormed}
use kubepreflight.Rollback.Freshness.{FindingsFreshness, FindingsFreshnessStatus}
use kubepreflight.Rollback.Provenance.{ClusterEvidenceIdentity, ClusterEvidenceIdentityStatus}
use kubepreflight.Rollback.Eks.Snapshot.{Snapshot}
use kubepreflight.Rollback.Eks.History.{SdkNames}
use kubepreflight.Rollback.Eks.Insights.{InsightStatusNames}

abbrev pub sdk : SdkNames
sdk = record {
  version_update = "VersionUpdate";
  successful = "Successful";
  standard_support = "STANDARD_SUPPORT";
  extended_support = "EXTENDED_SUPPORT";
  extended = "EXTENDED";
}

abbrev pub insight_names : InsightStatusNames
insight_names = record {
  passing = "PASSING";
  warning = "WARNING";
  error = "ERROR";
  unknown = "UNKNOWN";
}

-- Any text will do for what Go prints of a time.
abbrev pub no_text : ℕ → String
no_text t = ""

-- A cluster that went from 1.29 to 1.30 two seconds after the start of time.
abbrev pub a_snapshot : Snapshot
a_snapshot = record {
  cluster_name = "test";
  region = "us-east-1";
  current_version = "1.30";
  cluster_status = "ACTIVE";
  support_type = "STANDARD";
  observed_at = 3000000000;
  insights = [];
  updates =
      record {
        id = "u";
        type_name = "VersionUpdate";
        status = "Successful";
        created_at = 2000000000;
        version = "1.30";
        params = [];
      }
      ∷ [];
  cluster_versions = record { version = "1.29"; status = "STANDARD_SUPPORT" } ∷ [];
  errors = [];
}

abbrev pub a_cluster : Cluster
a_cluster = record {
  name = "test";
  region = "us-east-1";
  current_version = "1.31";
  rollback_target_version = "1.30";
  provider = "eks";
}

abbrev pub an_assessment : Assessment
an_assessment = record {
  schema_version = "kubepreflight.io/rollback-assessment/v1alpha1";
  mode = AssessmentMode.post_upgrade_readiness;
  cluster = a_cluster;
  eligibility = record {
    status = EligibilityStatus.eligible;
    window_expires_at = none;
    remaining_minutes = none;
    source = "amazon-eks";
    reason_codes = reason_rollback_window_near_expiry ∷ [];
  };
  readiness = record { status = ReadinessStatus.ready; blockers = 0; warnings = 0; unknowns = 0 };
  recommendation = record {
    decision = RecommendationDecision.operator_decision_required;
    confidence = Confidence.medium;
    reason_codes = [];
  };
  evidence = record {
    eks_insights_refreshed_at = none;
    cluster_observed_at = none;
    complete = true;
    window_calculation = "";
    timestamp_source = "";
  };
  checks = [];
  generated_at = 5000000000;
}

pub an_assessment-IsWellFormed : IsWellFormed an_assessment
unfolding valid_reason_code valid_reason_codes
an_assessment-IsWellFormed = record {
  version = refl;
  mode = refl;
  eligibility = refl;
  readiness = refl;
  eligibility_reasons = refl;
  recommendation_reasons = refl;
  checks = refl;
}

abbrev pub unknown_identity : ClusterEvidenceIdentity
unknown_identity = record {
  status = ClusterEvidenceIdentityStatus.unknown;
  reason = reason_rollback_evidence_cluster_unknown;
  evidence = [];
}

abbrev pub stale_findings : FindingsFreshness
stale_findings = record {
  status = FindingsFreshnessStatus.stale;
  reason = reason_rollback_evidence_stale;
  evidence = [];
}
