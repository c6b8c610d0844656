-- ===== src/Rollback/Eks/Checklist.antt =====
-- internal/rollback/eks/eligibility.go: reason codes and `eligibilityChecks`. How Go's time package
-- prints a time is an argument.
use Prim.Native.String as Str
use kubepreflight.Base.{
  ℕ, String, Bool, ◌==◌, string_eq, nat_eq, if◌then◌else◌, Option, none, some, List, [], ◌∷◌, has,
}
use kubepreflight.Rollback.Types.{EligibilityStatus, eligibility_status_eq, CheckStatus}
use kubepreflight.Rollback.Reasons.{
  ReasonCode, reason_code_eq, reason_eks_upgrade_history_unavailable, reason_cluster_not_active,
  reason_rollback_window_expired, reason_previous_version_not_n_minus_one,
  reason_rollback_target_unsupported, reason_rollback_target_requires_extended_support,
  reason_end_of_extended_support_auto_upgrade_unknown, reason_eks_feature_compatibility_unverified,
}
use kubepreflight.Rollback.Model.{Eligibility, Check}
use kubepreflight.Rollback.Texts.{empty_as_unknown}
use kubepreflight.Rollback.Eks.Snapshot.{Snapshot, UpdateRecord}
use kubepreflight.Rollback.Eks.History.{target_status}

-- Reasons without those seen before.
unfoldable pub unseen : List ReasonCode → List ReasonCode → List ReasonCode
unseen seen [] = []
unseen seen (r ∷ rs) = if has r seen then unseen seen rs else r ∷ unseen (r ∷ seen) rs

abbrev pub unique_reason_codes : List ReasonCode → List ReasonCode
unique_reason_codes reasons = unseen [] reasons

abbrev pub reason_if : Bool → ReasonCode → List ReasonCode
reason_if b reason = if b then reason ∷ [] else []

abbrev pub status_for_reason : Eligibility → ReasonCode → CheckStatus
status_for_reason e reason =
    if has reason e.reason_codes
    then CheckStatus.fail
    else if e.status == EligibilityStatus.unknown
    then CheckStatus.unknown
    else CheckStatus.pass

abbrev pub reason_if_present : Eligibility → ReasonCode → List ReasonCode
reason_if_present e reason = reason_if (has reason e.reason_codes) reason

abbrev pub reason_check : Eligibility → String → String → ReasonCode → List String → Check
reason_check e id title reason evidence = record {
  id = id;
  title = title;
  status = status_for_reason e reason;
  reason_codes = reason_if_present e reason;
  evidence = evidence;
}

abbrev pub unknown_check : String → String → ReasonCode → Check
unknown_check id title reason = record {
  id = id;
  title = title;
  status = CheckStatus.unknown;
  reason_codes = reason ∷ [];
  evidence = [];
}

module _ (print_time : ℕ → String) where
  abbrev window_check : Eligibility → Option UpdateRecord → Check
  window_check e none = record {
    id = "rollback-window";
    title = "EKS rollback window is active";
    status = CheckStatus.unknown;
    reason_codes =
        reason_eks_upgrade_history_unavailable ∷ reason_if_present e reason_rollback_window_expired;
    evidence = [];
  }
  window_check e (some u) =
      reason_check e "rollback-window" "EKS rollback window is active"
        reason_rollback_window_expired
        (Str.◌++◌ "upgrade update id: " u.id
          ∷ Str.◌++◌ "upgrade update createdAt: " (print_time u.created_at)
          ∷ "window calculation: conservative"
          ∷ "timestamp source: eks_update_created_at"
          ∷ [])

  unfoldable pub eligibility_checks :
      Snapshot → Eligibility → String → Option UpdateRecord → List Check
  eligibility_checks snap e target update =
      let version_status =
        Str.◌++◌ "target versionStatus: "
          (empty_as_unknown (target_status snap.cluster_versions target)) in
      reason_check e "cluster-active" "EKS cluster status is ACTIVE" reason_cluster_not_active
        (Str.◌++◌ "status: " (empty_as_unknown snap.cluster_status) ∷ [])
      ∷ reason_check e "rollback-target-supported" "Rollback target EKS version is supported"
          reason_rollback_target_unsupported
          (Str.◌++◌ "target version: " (empty_as_unknown target) ∷ version_status ∷ [])
      ∷ reason_check e "extended-support-policy"
          "Cluster upgrade policy allows extended-support rollback target"
          reason_rollback_target_requires_extended_support
          (Str.◌++◌ "upgrade policy supportType: " (empty_as_unknown snap.support_type)
            ∷ version_status
            ∷ [])
      ∷ reason_check e "previous-version" "Previous version is exactly N-1"
          reason_previous_version_not_n_minus_one
          (Str.◌++◌ "current version: " (empty_as_unknown snap.current_version)
            ∷ Str.◌++◌ "rollback target version: " (empty_as_unknown target)
            ∷ [])
      ∷ window_check e update
      ∷ unknown_check "end-of-extended-support-auto-upgrade"
          "End-of-extended-support auto-upgrade origin is not yet verified"
          reason_end_of_extended_support_auto_upgrade_unknown
      ∷ unknown_check "eks-feature-compatibility"
          "Backward-incompatible EKS feature compatibility is not yet verified"
          reason_eks_feature_compatibility_unverified
      ∷ []
