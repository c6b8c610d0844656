-- ===== src/Rollback/Provenance.antt =====
-- internal/rollback/operational.go: whether a findings report is evidence about the assessed
-- cluster, and for the rollback target.
use kubepreflight.Base.{
  String, Bool, true, false, ◌||◌, ◌==◌, ◌/=◌, string_eq, nat_eq, if◌then◌else◌, Option, none, some,
  List, [], ◌∷◌,
}
use kubepreflight.Findings.Inventory.{EksClusterInfo}
use kubepreflight.Findings.Report.{Report}
use kubepreflight.Versions.Parse.{normalize_kubernetes_version}
use kubepreflight.Rollback.Reasons.{
  ReasonCode, code_of, reason_rollback_evidence_target_mismatch,
  reason_rollback_evidence_target_unknown, reason_rollback_evidence_cluster_mismatch,
  reason_rollback_evidence_cluster_unknown,
}
use kubepreflight.Rollback.Model.{Cluster}
use kubepreflight.Rollback.Texts.{◌+s◌, trim_text, empty_as_unknown}

pub data ApiEvidenceTargetStatus : Type 0 where
  validated mismatch unknown : ApiEvidenceTargetStatus

pub record EvidenceTarget : Type 0 where
  pub status : ApiEvidenceTargetStatus
  pub reason : ReasonCode
  pub evidence : List String

abbrev unknown_target : String → EvidenceTarget
unknown_target line = record {
  status = ApiEvidenceTargetStatus.unknown;
  reason = reason_rollback_evidence_target_unknown;
  evidence = line ∷ [];
}

-- The comparison of the two normal forms.
abbrev pub compare_targets :
    String → String → String → Option String → Option String → EvidenceTarget
compare_targets label found target (some found_minor) (some target_minor) =
    if found_minor /= target_minor
    then record {
      status = ApiEvidenceTargetStatus.mismatch;
      reason = reason_rollback_evidence_target_mismatch;
      evidence =
          (label +s " evidence target mismatch: findings target=" +s found +s " rollback target="
            +s target)
          ∷ [];
    }
    else record { status = ApiEvidenceTargetStatus.validated; reason = code_of ""; evidence = [] }
compare_targets label found target _ _ = unknown_target (
    label +s " evidence target provenance unknown: findings target=" +s found +s " rollback target="
    +s target +s " (unparseable version)")

unfoldable pub validate_rollback_evidence_target : String → String → String → EvidenceTarget
validate_rollback_evidence_target label findings_target rollback_target =
    let found = trim_text findings_target in
    let target = trim_text rollback_target in
    if found == "" || target == ""
    then unknown_target (
        label
        +s " evidence target provenance unknown: findings target="
        +s empty_as_unknown found
        +s " rollback target="
        +s empty_as_unknown target)
    else compare_targets label found target (normalize_kubernetes_version found)
        (normalize_kubernetes_version target)

pub data ClusterEvidenceIdentityStatus : Type 0 where
  match_found mismatch unknown not_applicable : ClusterEvidenceIdentityStatus

pub record ClusterEvidenceIdentity : Type 0 where
  pub status : ClusterEvidenceIdentityStatus
  pub reason : ReasonCode
  pub evidence : List String

abbrev pub identity_blocks : ClusterEvidenceIdentity → Bool
identity_blocks id = elim id.status [
  | ClusterEvidenceIdentityStatus.mismatch ↦ true
  | ClusterEvidenceIdentityStatus.unknown ↦ true
  | _ ↦ false
]

unfoldable pub is_manifest_only_report : Report → Bool
is_manifest_only_report r = elim r.eks_cluster [
  | none ↦ trim_text r.cluster_context == ""
  | some _ ↦ false
]

abbrev pub name_of : Option EksClusterInfo → String
name_of none = ""
name_of (some c) = trim_text c.cluster_name

abbrev pub region_of : Option EksClusterInfo → String
region_of none = ""
region_of (some c) = trim_text c.region

abbrev cluster_line : String → String → String → String → String
cluster_line found_name found_region name region =
    found_name +s " region=" +s found_region +s " vs assessed cluster=" +s name +s " region="
    +s region

-- The names and regions, trimmed.
unfoldable pub identity_between : String → String → String → String → ClusterEvidenceIdentity
identity_between found_name found_region name region =
    if found_name == "" || (found_region == "" || (name == "" || region == ""))
    then record {
      status = ClusterEvidenceIdentityStatus.unknown;
      reason = reason_rollback_evidence_cluster_unknown;
      evidence =
          ("cluster identity provenance unknown: findings cluster="
            +s cluster_line (empty_as_unknown found_name) (empty_as_unknown found_region)
                (empty_as_unknown name) (empty_as_unknown region))
          ∷ [];
    }
    else if found_name /= name || found_region /= region
    then record {
      status = ClusterEvidenceIdentityStatus.mismatch;
      reason = reason_rollback_evidence_cluster_mismatch;
      evidence =
          ("cluster identity mismatch: findings cluster="
            +s cluster_line found_name found_region name region)
          ∷ [];
    }
    else record {
      status = ClusterEvidenceIdentityStatus.match_found;
      reason = code_of "";
      evidence = [];
    }

unfoldable pub validate_cluster_evidence_identity : Report → Cluster → ClusterEvidenceIdentity
validate_cluster_evidence_identity r cluster =
    if is_manifest_only_report r
    then record {
      status = ClusterEvidenceIdentityStatus.not_applicable;
      reason = code_of "";
      evidence = [];
    }
    else identity_between (name_of r.eks_cluster) (region_of r.eks_cluster) (trim_text cluster.name)
        (trim_text cluster.region)
