-- ===== src/Rollback/Eks/History.antt =====
-- internal/rollback/eks/eligibility.go: what a snapshot says of errors, updates and versions. The
-- constants of the AWS SDK are arguments. A Go map of errors is the list of its entries.
use kubepreflight.Base.{
  ℕ, ◌*◌, String, Bool, not, ◌&&◌, ◌||◌, ◌==◌, ◌/=◌, string_eq, nat_eq, if◌then◌else◌, ltb, Option,
  none, some, List, [], ◌∷◌, any, filter,
}
use kubepreflight.Base.Sorting.{sort}
use kubepreflight.Rollback.Types.{eligibility_status_eq}
use kubepreflight.Rollback.Reasons.{reason_code_eq}
use kubepreflight.Rollback.Texts.{has_prefix}
use kubepreflight.Rollback.Freshness.{second}
use kubepreflight.Rollback.Eks.Snapshot.{
  Snapshot, UpdateRecord, ClusterVersionRecord, previous_minor,
}

abbrev pub rollback_window : ℕ
rollback_window = 7 * 24 * 60 * 60 * second

-- The strings of the AWS SDK that the code compares with.
pub record SdkNames : Type 0 where
  pub version_update : String
  pub successful : String
  pub standard_support : String
  pub extended_support : String
  pub extended : String

unfoldable pub has_errors : Snapshot → List String → Bool
has_errors snap keys = any (λ key. any (λ e. e.0 == key) snap.errors) keys

unfoldable pub has_error_prefix : Snapshot → String → Bool
has_error_prefix snap prefix = any (λ e. has_prefix e.0 prefix) snap.errors

unfoldable pub target_version_record :
    List ClusterVersionRecord → String → Option ClusterVersionRecord
target_version_record [] target = none
target_version_record (v ∷ vs) target =
    let rest = target_version_record vs target in if v.version == target then some v else rest

abbrev pub status_of_record : Option ClusterVersionRecord → String
status_of_record none = ""
status_of_record (some v) = v.status

unfoldable pub target_status : List ClusterVersionRecord → String → String
target_status versions target = status_of_record (target_version_record versions target)

abbrev pub first_of : {A : Type 0} → List A → Option A
first_of [] = none
first_of (a ∷ _) = some a

unfoldable pub previous_version_is_n_minus_one : String → String → Bool
previous_version_is_n_minus_one current previous =
    previous /= "" && previous_minor current == previous

module _ (sdk : SdkNames) where
  unfoldable pub is_supported_target_status : String → Bool
  is_supported_target_status status =
      status == sdk.standard_support || status == sdk.extended_support

  abbrev pub is_version_update : String → UpdateRecord → Bool
  is_version_update current u =
      u.type_name == sdk.version_update
      && (u.status == sdk.successful
          && not (current /= "" && (u.version /= "" && u.version /= current)))

  -- The newest update comes first.
  unfoldable pub latest_successful_version_update : List UpdateRecord → String → Option UpdateRecord
  latest_successful_version_update updates current =
      first_of
        (sort (λ a b. ltb b.created_at a.created_at) (filter (is_version_update current) updates))
