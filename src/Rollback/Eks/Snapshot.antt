-- ===== src/Rollback/Eks/Snapshot.antt =====
-- internal/rollback/eks/collector.go: what is collected of a cluster, and the versions next to its
-- own (internal/rollback/eks/eligibility.go).
use kubepreflight.Base.{
  ℕ, String, Option, none, some, List, [], ◌∷◌, ◌==◌, nat_eq, if◌then◌else◌, codes,
}
use kubepreflight.Base.Int.{negsuc, ℤ, pos, ◌-ℤ◌, int_eq}
use kubepreflight.Versions.Decimal.{max_int}
use kubepreflight.Versions.Parse.{trim_space, trim_prefix_v, onto_first, read_parts, format_version}

pub record InsightResourceRecord : Type 0 where
  pub arn : String
  pub kubernetes_resource_uri : String
  pub status : String
  pub reason : String

pub record InsightRecord : Type 0 where
  pub id : String
  pub name : String
  pub category : String
  pub status : String
  pub reason : String
  pub description : String
  pub recommendation : String
  pub last_refresh_time : ℕ
  pub last_transition_time : ℕ
  pub additional_info : List (String × String)
  pub resources : List InsightResourceRecord

pub record UpdateRecord : Type 0 where
  pub id : String
  pub type_name : String
  pub status : String
  pub created_at : ℕ
  pub version : String
  pub params : List (String × String)

pub record ClusterVersionRecord : Type 0 where
  pub version : String
  pub status : String

pub record Snapshot : Type 0 where
  pub cluster_name : String
  pub region : String
  pub current_version : String
  pub cluster_status : String
  pub support_type : String
  pub observed_at : ℕ
  pub insights : List InsightRecord
  pub updates : List UpdateRecord
  pub cluster_versions : List ClusterVersionRecord
  pub errors : List (String × String)

-- strings.Split at dots.
unfoldable pub split : List ℕ → List (List ℕ)
split [] = [] ∷ []
split (c ∷ s) = let rest = split s in if c == 46 then [] ∷ rest else onto_first c rest

unfoldable pub parse_minor : String → Option (ℤ × ℤ)
parse_minor v = read_parts (split (trim_prefix_v (trim_space (codes v))))

-- `minor-1`, which wraps around at the least int.
abbrev one_less : ℤ → ℤ
one_less minor = if minor == negsuc max_int then pos max_int else minor -ℤ pos 1

abbrev pub previous_of : Option (ℤ × ℤ) → String
previous_of none = ""
previous_of (some (major, minor)) =
    if minor == pos 0 then "" else format_version major (one_less minor)

unfoldable pub previous_minor : String → String
previous_minor version = previous_of (parse_minor version)
