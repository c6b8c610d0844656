-- ===== src/Findings/Inventory.antt =====
-- internal/findings/report.go: the EKS metadata that a report carries. Numbers of Go's int32 are
-- natural numbers here.
use kubepreflight.Base.{ℕ, String, Bool, Option, List}

pub record EksAddonInfo : Type 0 where
  pub name : String
  pub current_version : String
  pub compatible_versions : List String
  pub compatible : Bool
  pub verification_unavailable : Bool

pub record EksNodegroupHealthIssue : Type 0 where
  pub code : String
  pub message : String
  pub resource_ids : List String

pub record EksNodegroupInfo : Type 0 where
  pub name : String
  pub status : String
  pub version : String
  pub release_version : String
  pub ami_type : String
  pub capacity_type : String
  pub desired_size : Option ℕ
  pub min_size : Option ℕ
  pub max_size : Option ℕ
  pub max_unavailable : Option ℕ
  pub max_unavailable_percentage : Option ℕ
  pub launch_template : Bool
  pub health_issues : List EksNodegroupHealthIssue
  pub auto_scaling_groups : List String
  pub readiness_status : String
  pub notes : List String

pub record EksClusterInfo : Type 0 where
  pub cluster_name : String
  pub region : String
  pub version : String
  pub platform_version : String
  pub status : String
  pub support_type : String
  pub endpoint_access : String
  pub arn : String
