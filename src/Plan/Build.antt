-- ===== src/Plan/Build.antt =====
-- internal/plan/plan.go: the plan over its hops, its exit code and its verdict. The assessment of a
-- later hop is the caller's function.
pub mod Laws
use Prim.Native.String as Str
use kubepreflight.Base.{
  ℕ, zero, suc, String, Bool, true, false, not, Option, none, some, List, [], ◌∷◌, any, ltb,
  if◌then◌else◌, ◌⊎◌, inl, inr,
}
use kubepreflight.Findings.Finding.{Finding}
use kubepreflight.Findings.Readiness.{Verdict, clean, passed_with_warnings, blocked, incomplete}
use kubepreflight.Findings.Report.{Report, is_complete, result, exit_code}
use kubepreflight.Versions.Decimal.{decimal}
use kubepreflight.Versions.Hops.{Hop}
use kubepreflight.Plan.Action.{UpgradeActionPlan}
use kubepreflight.Plan.Phases.{build_action_plan}

pub data HopStatus : Type 0 where
  exact predicted : HopStatus

abbrev pub hop_status_text : HopStatus → String
hop_status_text exact = "EXACT"
hop_status_text predicted = "PREDICTED"

pub record CarryForwardNote : Type 0 where
  pub rule_id : String
  pub reason : String
  pub recommended_command : String

pub record HopReport : Type 0 where
  pub hop : Hop
  pub status : HopStatus
  pub report : Option Report
  pub carry_forward : List CarryForwardNote

pub record PlanReport : Type 0 where
  pub schema_version : String
  pub cluster_context : String
  pub provider : String
  pub from_version : String
  pub from_version_source : String
  pub to_version : String
  pub generated_at : ℕ
  pub hops : List HopReport
  pub action_plan : Option UpgradeActionPlan

pub data PlanError : Type 0 where
  no_hops no_hop1_report : PlanError
  assessing : Hop → String → PlanError

abbrev pub exact_hop : Hop → Report → HopReport
exact_hop hop r = record { hop = hop; status = exact; report = some r; carry_forward = [] }

abbrev pub header_of :
    String → String → String → String → String → ℕ → List HopReport → UpgradeActionPlan → PlanReport
header_of cluster_context provider from_version source to_version now hops action_plan = record {
  schema_version = "1.1";
  cluster_context = cluster_context;
  provider = provider;
  from_version = from_version;
  from_version_source = source;
  to_version = to_version;
  generated_at = now;
  hops = hops;
  action_plan = some action_plan;
}

module _ (assess_future_hop : Hop → String ⊎ HopReport) where
  abbrev assessed :
      Hop → String ⊎ HopReport → PlanError ⊎ List HopReport → PlanError ⊎ List HopReport
  assessed hop (inl e) rest = inl (assessing hop e)
  assessed hop (inr hr) (inl e) = inl e
  assessed hop (inr hr) (inr hrs) = inr (hr ∷ hrs)

  -- The loop over the later hops, which stops at the first error.
  unfoldable pub future_hops : List Hop → PlanError ⊎ List HopReport
  future_hops [] = inr []
  future_hops (hop ∷ hops) = assessed hop (assess_future_hop hop) (future_hops hops)

  abbrev with_hops :
      (List HopReport → PlanReport)
      → HopReport
      → PlanError ⊎ List HopReport
      → PlanError ⊎ PlanReport
  with_hops plan first (inl e) = inl e
  with_hops plan first (inr later) = inr (plan (first ∷ later))

  unfoldable pub build_plan :
      String
      → String
      → String
      → String
      → String
      → List Hop
      → Option Report
      → ℕ
      → PlanError ⊎ PlanReport
  build_plan cluster_context provider from_version source to_version [] _ now = inl no_hops
  build_plan cluster_context provider from_version source to_version (_ ∷ _) none now =
      inl no_hop1_report
  build_plan cluster_context provider from_version source to_version (hop ∷ hops) (some r) now =
      with_hops
        (λ hrs.
          header_of cluster_context provider from_version source to_version now hrs
            (build_action_plan (some r) now))
        (exact_hop hop r) (future_hops hops)

-- The report of the first hop, if any.
abbrev pub first_report : PlanReport → Option Report
first_report p = elim p.hops [ [] ↦ none | hr ∷ _ ↦ hr.report ]

abbrev exit_code_of : Option Report → ℕ
exit_code_of none = 0
exit_code_of (some r) = exit_code r

unfoldable pub overall_exit_code : PlanReport → ℕ
overall_exit_code p = exit_code_of (first_report p)

pub data PlanLabel : Type 0 where
  ready conditionally_ready not_ready assessment_incomplete : PlanLabel

abbrev pub plan_label_text : PlanLabel → String
plan_label_text ready = "READY"
plan_label_text conditionally_ready = "CONDITIONALLY READY"
plan_label_text not_ready = "NOT READY FOR UPGRADE"
plan_label_text assessment_incomplete = "ASSESSMENT INCOMPLETE"

abbrev by_result : Report → Verdict → PlanLabel × String
by_result r blocked = (not_ready, Str.◌++◌ (decimal r.summary.blockers) " blocker(s) found")
by_result r passed_with_warnings = (
  conditionally_ready,
  Str.◌++◌ "No hard blockers, but "
      (Str.◌++◌ (decimal r.summary.warnings) " warning(s) should be reviewed"),
)
by_result r _ = (ready, "No known upgrade blockers detected")

abbrev verdict_of : Option Report → PlanLabel × String
verdict_of none = (ready, "No known upgrade blockers detected")
verdict_of (some r) =
    if not (is_complete r)
    then if ltb 0 r.summary.blockers
      then (
        assessment_incomplete,
        Str.◌++◌ "Assessment incomplete; " (
            Str.◌++◌ (decimal r.summary.blockers)
              " blocker(s) observed with available evidence. One or more evidence sources could not be collected — resolve coverage errors and rerun."),
      )
      else (
        assessment_incomplete,
        "One or more evidence sources could not be collected; resolve coverage errors and rerun",
      )
    else if any (λ f. f.global_blocker) r.findings
    then (not_ready, "Global API write blocker detected")
    else by_result r (result r)

unfoldable pub plan_verdict : PlanReport → PlanLabel × String
plan_verdict p = verdict_of (first_report p)
