-- ===== src/Rollback/Eks/Eligibility.antt =====
-- internal/rollback/eks/eligibility.go: `EvaluateEligibility`. The constants of the AWS SDK and how
-- Go's time package prints a time are arguments.
pub mod Laws
use Prim.Native.String as Str
use Prim.Native.Nat.{◌/◌}
use kubepreflight.Base.{
  ℕ, ◌+◌, ◌-◌, ◌*◌, String, Bool, true, false, not, ◌&&◌, ◌||◌, ◌==◌, ◌/=◌, string_eq, nat_eq,
  if◌then◌else◌, ltb, leb, Option, none, some, List, [], ◌∷◌, ◌++◌, any, has, filter, length, map,
}
use kubepreflight.Base.Sorting.{sort}
use kubepreflight.Rollback.Types.{
  AssessmentMode, EligibilityStatus, eligibility_status_eq, ReadinessStatus, RecommendationDecision,
  Confidence, CheckStatus,
}
use kubepreflight.Rollback.Reasons.{
  ReasonCode, reason_code_eq, reason_eks_upgrade_history_unavailable, reason_cluster_not_active,
  reason_rollback_window_expired, reason_previous_version_not_n_minus_one,
  reason_rollback_target_unsupported, reason_rollback_target_requires_extended_support,
  reason_end_of_extended_support_auto_upgrade_unknown, reason_eks_feature_compatibility_unverified,
}
use kubepreflight.Rollback.Model.{
  Assessment, Cluster, Eligibility, Readiness, Recommendation, Evidence, Check, new_assessment,
}
use kubepreflight.Rollback.Texts.{has_prefix, empty_as_unknown}
use kubepreflight.Rollback.Freshness.{second}
use kubepreflight.Rollback.Eks.Snapshot.{
  Snapshot, UpdateRecord, ClusterVersionRecord, previous_minor,
}
use kubepreflight.Rollback.Eks.History.{
  rollback_window, SdkNames, has_errors, has_error_prefix, target_version_record,
  previous_version_is_n_minus_one, is_supported_target_status, latest_successful_version_update,
}
use kubepreflight.Rollback.Eks.Checklist.{unique_reason_codes, reason_if, eligibility_checks}

abbrev pub unknown_assessment : Assessment → ReasonCode → Assessment
unknown_assessment a reason = record a {
  eligibility = record {
    status = EligibilityStatus.unknown;
    window_expires_at = none;
    remaining_minutes = none;
    source = "amazon-eks";
    reason_codes = reason ∷ [];
  };
  readiness = record {
    status = ReadinessStatus.insufficient_evidence;
    blockers = 0;
    warnings = 0;
    unknowns = 1;
  };
  recommendation = record {
    decision = RecommendationDecision.operator_decision_required;
    confidence = Confidence.low;
    reason_codes = reason ∷ [];
  };
  evidence = record a.evidence { complete = false };
}

abbrev pub readiness_unknown_reasons : List ReasonCode
readiness_unknown_reasons =
    reason_end_of_extended_support_auto_upgrade_unknown
    ∷ reason_eks_feature_compatibility_unverified ∷ []

module _ (sdk : SdkNames) (print_time : ℕ → String) where
  abbrev pub record_reasons : Snapshot → Option ClusterVersionRecord → List ReasonCode
  record_reasons snap none = reason_rollback_target_unsupported ∷ []
  record_reasons snap (some v) =
      if not (is_supported_target_status sdk v.status)
      then reason_rollback_target_unsupported ∷ []
      else reason_if (v.status == sdk.extended_support && snap.support_type /= sdk.extended)
          reason_rollback_target_requires_extended_support

  abbrev pub target_reasons : Snapshot → String → Option ClusterVersionRecord → List ReasonCode
  target_reasons snap target found =
      if target == ""
      then reason_previous_version_not_n_minus_one ∷ []
      else record_reasons snap found

  abbrev pub update_reasons : Snapshot → String → ℕ → Option UpdateRecord → List ReasonCode
  update_reasons snap target now none = reason_eks_upgrade_history_unavailable ∷ []
  update_reasons snap target now (some u) =
      reason_if (not (previous_version_is_n_minus_one snap.current_version target))
        reason_previous_version_not_n_minus_one
      ++ reason_if (leb (u.created_at + rollback_window) now) reason_rollback_window_expired

  -- The reasons against a rollback, in the order in which they are found.
  unfoldable pub eligibility_reasons : Snapshot → ℕ → List ReasonCode
  eligibility_reasons snap now =
      let target = previous_minor snap.current_version in
      reason_if (snap.cluster_status /= "" && snap.cluster_status /= "ACTIVE")
        reason_cluster_not_active
      ++ (target_reasons snap target (target_version_record snap.cluster_versions target)
          ++ update_reasons snap target now
              (latest_successful_version_update sdk snap.updates snap.current_version))

  abbrev window_expires_at : Option UpdateRecord → Option ℕ
  window_expires_at none = none
  window_expires_at (some u) = some (u.created_at + rollback_window)

  -- Whole minutes, 0 once the window has expired.
  abbrev remaining_minutes : ℕ → Option UpdateRecord → Option ℕ
  remaining_minutes now none = none
  remaining_minutes now (some u) = some ((u.created_at + rollback_window - now) / (60 * second))

  abbrev text_if_some : Option UpdateRecord → String → String
  text_if_some none text = ""
  text_if_some (some _) text = text

  abbrev pub started : Snapshot → ℕ → Assessment
  started snap now =
      let a = new_assessment AssessmentMode.post_upgrade_readiness now in
      record a {
        cluster = record {
          name = snap.cluster_name;
          region = snap.region;
          current_version = snap.current_version;
          rollback_target_version = previous_minor snap.current_version;
          provider = "eks";
        };
        evidence = record a.evidence {
          cluster_observed_at = if snap.observed_at == 0 then some now else some snap.observed_at;
        };
      }

  abbrev pub collection_failed : Snapshot → Bool
  collection_failed snap =
      has_errors snap ("describe-cluster" ∷ "list-updates" ∷ "describe-cluster-versions" ∷ [])
      || has_error_prefix snap "describe-update:"

  abbrev pub eligibility_of : List ReasonCode → ℕ → Option UpdateRecord → Eligibility
  eligibility_of reasons now update = record {
    status = elim reasons [
      | [] ↦ EligibilityStatus.eligible
      | _ ∷ _ ↦ EligibilityStatus.unavailable
    ];
    window_expires_at = window_expires_at update;
    remaining_minutes = remaining_minutes now update;
    source = "amazon-eks";
    reason_codes = unique_reason_codes reasons;
  }

  abbrev pub readiness_of : List ReasonCode → Readiness
  readiness_of [] = record {
    status = ReadinessStatus.insufficient_evidence;
    blockers = 0;
    warnings = 0;
    unknowns = length readiness_unknown_reasons;
  }
  readiness_of (r ∷ rs) = record {
    status = ReadinessStatus.blocked;
    blockers = length (unique_reason_codes (r ∷ rs));
    warnings = 0;
    unknowns = 0;
  }

  abbrev pub first_recommendation : List ReasonCode → Recommendation
  first_recommendation [] = record {
    decision = RecommendationDecision.operator_decision_required;
    confidence = Confidence.low;
    reason_codes = readiness_unknown_reasons;
  }
  first_recommendation (r ∷ rs) = record {
    decision = RecommendationDecision.do_not_proceed;
    confidence = Confidence.high;
    reason_codes = unique_reason_codes (r ∷ rs);
  }

  -- The evidence is complete on no path: with reasons it is not, and without any it is set so.
  abbrev pub decided : Snapshot → ℕ → List ReasonCode → Option UpdateRecord → Assessment
  decided snap now reasons update =
      let a = started snap now in
      record a {
        eligibility = eligibility_of reasons now update;
        readiness = readiness_of reasons;
        recommendation = first_recommendation reasons;
        evidence = record a.evidence {
          complete = false;
          window_calculation = text_if_some update "conservative";
          timestamp_source = text_if_some update "eks_update_created_at";
        };
        checks =
            eligibility_checks print_time snap (eligibility_of reasons now update)
              (previous_minor snap.current_version) update;
      }

  unfoldable pub evaluate_eligibility : Option Snapshot → ℕ → Assessment
  evaluate_eligibility none now =
      let a = new_assessment AssessmentMode.post_upgrade_readiness now in
      unknown_assessment
        (record a { evidence = record a.evidence { cluster_observed_at = some now } })
        reason_eks_upgrade_history_unavailable
  evaluate_eligibility (some snap) now =
      if collection_failed snap
      then unknown_assessment (started snap now) reason_eks_upgrade_history_unavailable
      else decided snap now (eligibility_reasons snap now)
          (latest_successful_version_update sdk snap.updates snap.current_version)
