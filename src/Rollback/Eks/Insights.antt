-- ===== src/Rollback/Eks/Insights.antt =====
-- internal/rollback/eks/insights.go: `ApplyRollbackInsights`. The constants of the AWS SDK and how
-- Go's time package prints a time are arguments; the empty time is 0.
use Prim.Native.String as Str
use kubepreflight.Base.{
  ℕ, ◌-◌, ◌*◌, String, Bool, true, false, not, ◌&&◌, ◌||◌, ◌==◌, ◌/=◌, string_eq, nat_eq,
  if◌then◌else◌, ltb, Option, none, some, List, [], ◌∷◌, ◌++◌, has, filter, map, count,
}
use kubepreflight.Rollback.Types.{ReadinessStatus, RecommendationDecision, Confidence, CheckStatus}
use kubepreflight.Rollback.Reasons.{
  ReasonCode, reason_code_eq, reason_eks_insights_unavailable, reason_eks_insights_stale,
  reason_eks_insights_blocking, reason_end_of_extended_support_auto_upgrade_unknown,
  reason_eks_feature_compatibility_unverified,
}
use kubepreflight.Rollback.Model.{Assessment, Readiness, Recommendation, Evidence, Check}
use kubepreflight.Rollback.Texts.{◌+s◌, empty_as_unknown}
use kubepreflight.Rollback.Freshness.{second}
use kubepreflight.Rollback.Eks.Snapshot.{Snapshot, InsightRecord, InsightResourceRecord}
use kubepreflight.Rollback.Eks.History.{has_errors, has_error_prefix}
use kubepreflight.Rollback.Eks.Checklist.{unique_reason_codes, reason_if}

abbrev pub insight_freshness_window : ℕ
insight_freshness_window = 24 * 60 * 60 * second

-- The insight statuses of the AWS SDK.
pub record InsightStatusNames : Type 0 where
  pub passing : String
  pub warning : String
  pub error : String
  pub unknown : String

abbrev pub remove_reason_code : List ReasonCode → ReasonCode → List ReasonCode
remove_reason_code codes remove = filter (λ c. c /= remove) codes

abbrev pub is_unknown_evidence : ReasonCode → Bool
is_unknown_evidence c = has c (
    reason_end_of_extended_support_auto_upgrade_unknown
    ∷ reason_eks_feature_compatibility_unverified ∷ reason_eks_insights_unavailable
    ∷ reason_eks_insights_stale ∷ [])

unfoldable pub remaining_unknown_evidence : Assessment → ℕ
remaining_unknown_evidence a = count is_unknown_evidence a.recommendation.reason_codes

-- An insight without a refresh time, or one refreshed more than a day ago.
abbrev pub is_stale : ℕ → InsightRecord → Bool
is_stale now insight =
    insight.last_refresh_time == 0 || ltb insight_freshness_window (now - insight.last_refresh_time)

-- The oldest refresh time of the insights that have one.
unfoldable pub oldest_refresh : Option ℕ → List InsightRecord → Option ℕ
oldest_refresh oldest [] = oldest
oldest_refresh oldest (i ∷ is) =
    oldest_refresh
      (if i.last_refresh_time == 0 then oldest else elim oldest [
        | none ↦ some i.last_refresh_time
        | some t ↦ if ltb i.last_refresh_time t then some i.last_refresh_time else some t
      ])
      is

abbrev or_before : Option ℕ → Option ℕ → Option ℕ
or_before none before = before
or_before (some t) _ = some t

abbrev pub unavailable_check : Check
unavailable_check = record {
  id = "rollback-insights";
  title = "EKS rollback readiness insights are available";
  status = CheckStatus.unknown;
  reason_codes = reason_eks_insights_unavailable ∷ [];
  evidence = [];
}

abbrev pub insufficient : ℕ → Readiness
insufficient n = record {
  status = ReadinessStatus.insufficient_evidence;
  blockers = 0;
  warnings = 0;
  unknowns = n;
}

abbrev pub with_evidence_complete : Assessment → Bool → Evidence
with_evidence_complete a b = record a.evidence { complete = b }

abbrev pub low_with : Assessment → ReasonCode → Recommendation
low_with a reason = record {
  decision = RecommendationDecision.operator_decision_required;
  confidence = Confidence.low;
  reason_codes = unique_reason_codes (a.recommendation.reason_codes ++ (reason ∷ []));
}

unfoldable pub mark_insights_unavailable : Assessment → Assessment
mark_insights_unavailable a = record a {
  readiness = insufficient 1;
  recommendation = low_with a reason_eks_insights_unavailable;
  evidence = with_evidence_complete a false;
  checks = a.checks ++ (unavailable_check ∷ []);
}

unfoldable pub mark_insights_stale : Assessment → ℕ → Assessment
mark_insights_stale a n = record a {
  readiness = insufficient n;
  recommendation = low_with a reason_eks_insights_stale;
  evidence = with_evidence_complete a false;
}

module _ (names : InsightStatusNames) (print_time : ℕ → String) where
  abbrev pub is_blocking : InsightRecord → Bool
  is_blocking i = i.status == names.error || i.status == names.unknown

  -- The cases of the switch are tried in order.
  abbrev pub is_warning : InsightRecord → Bool
  is_warning i = not (is_blocking i) && i.status == names.warning

  abbrev pub insight_check_status : String → CheckStatus
  insight_check_status status =
      if status == names.passing
      then CheckStatus.pass
      else if status == names.warning
      then CheckStatus.warning
      else if status == names.error
      then CheckStatus.fail
      else CheckStatus.unknown

  abbrev labelled : String → String → String
  labelled label text = Str.◌++◌ label text

  abbrev line_if : Bool → String → List String
  line_if b line = if b then line ∷ [] else []

  abbrev resource_line : InsightResourceRecord → String
  resource_line r =
      "resource: arn="
      +s empty_as_unknown r.arn
      +s " uri="
      +s empty_as_unknown r.kubernetes_resource_uri
      +s " status="
      +s empty_as_unknown r.status
      +s " reason="
      +s empty_as_unknown r.reason

  abbrev insight_evidence : InsightRecord → List String
  insight_evidence i =
      labelled "insight id: " (empty_as_unknown i.id)
      ∷ labelled "status: " (empty_as_unknown i.status)
      ∷ labelled "description: " (empty_as_unknown i.description)
      ∷ (line_if (i.last_refresh_time /= 0)
            (labelled "lastRefreshTime: " (print_time i.last_refresh_time))
          ++ (line_if (i.last_transition_time /= 0)
                (labelled "lastTransitionTime: " (print_time i.last_transition_time))
              ++ (line_if (i.recommendation /= "") (labelled "recommendation: " i.recommendation)
                  ++ map resource_line i.resources)))

  abbrev blocking_reasons : Bool → List ReasonCode → List ReasonCode
  blocking_reasons b codes =
      if b then unique_reason_codes (codes ++ (reason_eks_insights_blocking ∷ [])) else codes

  unfoldable pub insight_check : InsightRecord → ℕ → Check
  insight_check i now = record {
    id = Str.◌++◌ "rollback-insight-" i.id;
    title = empty_as_unknown i.name;
    status = if is_stale now i then CheckStatus.unknown else insight_check_status i.status;
    reason_codes =
        blocking_reasons (is_blocking i) (reason_if (is_stale now i) reason_eks_insights_stale);
    evidence = insight_evidence i;
  }

  -- The assessment after the loop over the insights.
  abbrev pub with_insights : Assessment → Snapshot → ℕ → Assessment
  with_insights a snap now = record a {
    recommendation = record a.recommendation {
      reason_codes =
          remove_reason_code a.recommendation.reason_codes
            reason_eks_feature_compatibility_unverified;
    };
    evidence = record a.evidence {
      eks_insights_refreshed_at =
          or_before (oldest_refresh none snap.insights) a.evidence.eks_insights_refreshed_at;
    };
    checks = a.checks ++ map (λ i. insight_check i now) snap.insights;
  }

  abbrev pub blocked_by_insights : Assessment → ℕ → ℕ → Assessment
  blocked_by_insights a blockers warnings = record a {
    readiness = record {
      status = ReadinessStatus.blocked;
      blockers = blockers;
      warnings = warnings;
      unknowns = 0;
    };
    recommendation = record {
      decision = RecommendationDecision.do_not_proceed;
      confidence = Confidence.high;
      reason_codes =
          unique_reason_codes
            (a.recommendation.reason_codes ++ (reason_eks_insights_blocking ∷ []));
    };
    evidence = with_evidence_complete a false;
  }

  abbrev pub warned_by_insights : Assessment → ℕ → Assessment
  warned_by_insights a warnings = record a {
    readiness = record {
      status = ReadinessStatus.high_risk;
      blockers = 0;
      warnings = warnings;
      unknowns = 0;
    };
    recommendation = record a.recommendation {
      decision = RecommendationDecision.operator_decision_required;
      confidence = Confidence.medium;
    };
    evidence = with_evidence_complete a (remaining_unknown_evidence a == 0);
  }

  abbrev pub unknown_after_insights : Assessment → Assessment
  unknown_after_insights a = record a {
    readiness = insufficient (remaining_unknown_evidence a);
    recommendation = record a.recommendation { confidence = Confidence.low };
    evidence = with_evidence_complete a false;
  }

  abbrev pub ready_after_insights : Assessment → Assessment
  ready_after_insights a = record a {
    readiness = record { status = ReadinessStatus.ready; blockers = 0; warnings = 0; unknowns = 0 };
    recommendation = record a.recommendation {
      decision = RecommendationDecision.operator_decision_required;
      confidence = Confidence.medium;
    };
    evidence = with_evidence_complete a true;
  }

  -- The counters of the loop decide.
  unfoldable pub conclude_insights : Assessment → ℕ → ℕ → ℕ → Assessment
  conclude_insights a stale blockers warnings =
      if ltb 0 stale
      then mark_insights_stale a stale
      else if ltb 0 blockers
      then blocked_by_insights a blockers warnings
      else if ltb 0 warnings
      then warned_by_insights a warnings
      else if ltb 0 (remaining_unknown_evidence a)
      then unknown_after_insights a
      else ready_after_insights a

  abbrev pub insights_missing : Snapshot → Bool
  insights_missing snap =
      has_errors snap ("list-rollback-insights" ∷ [])
      || has_error_prefix snap "describe-rollback-insight:"

  unfoldable pub apply_rollback_insights : Assessment → Option Snapshot → ℕ → Assessment
  apply_rollback_insights a none now = mark_insights_unavailable a
  apply_rollback_insights a (some snap) now =
      if insights_missing snap
      then mark_insights_unavailable a
      else conclude_insights (with_insights a snap now) (count (is_stale now) snap.insights)
          (count is_blocking snap.insights) (count is_warning snap.insights)
