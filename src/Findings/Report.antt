-- ===== src/Findings/Report.antt =====
-- internal/findings/report.go: the report, its construction, and the verdict with its exit code.
-- Of the EKS metadata, the upgrade insights, which no code modelled here reads, are left out of the
-- record.
pub mod Verdicts
use kubepreflight.Base.{
  ℕ, ◌+◌, String, Bool, true, false, not, ◌==◌, ◌/=◌, string_eq, if◌then◌else◌, ◌||◌, ◌&&◌, Option,
  none, some, List, [], ◌∷◌, map, any, ltb, has,
}
use kubepreflight.Findings.Types.{Severity, Plane, plane_eq}
use kubepreflight.Findings.Context.{UpgradeContext, UpgradeGate, upgrade_gate_eq}
use kubepreflight.Findings.Execution.{
  CoverageStatus, coverage_status_eq, RuleApplicability, rule_applicability_eq, RuleExecutionState,
  rule_execution_state_eq, PlaneCoverage, ScanCoverage, RuleExecutionRecord,
}
use kubepreflight.Findings.Inventory.{EksAddonInfo, EksNodegroupInfo, EksClusterInfo}
use kubepreflight.Findings.Reference.{ResourceReference, concept_key}
use kubepreflight.Findings.Finding.{Finding, effective_upgrade_gate}
use kubepreflight.Findings.Priority.{assign_priority}
use kubepreflight.Findings.ApiCompat.{ApiCompatibilitySummary, build_api_compatibility_summary}
use kubepreflight.Findings.Readiness.{
  Verdict, clean, passed_with_warnings, blocked, incomplete, UpgradeReadinessSummary,
  build_upgrade_readiness_summary,
}

pub record Summary : Type 0 where
  pub blockers : ℕ
  pub warnings : ℕ
  pub infos : ℕ
  pub operator_decisions : ℕ

pub record Report : Type 0 where
  pub schema_version : String
  pub current_version : String
  pub target_version : String
  pub cluster_context : String
  pub provider : String
  pub upgrade_context : UpgradeContext
  pub scanned_at : ℕ
  pub assumptions : List String
  pub namespace_allowlist : List String
  pub findings : List Finding
  pub summary : Summary
  pub coverage : ScanCoverage
  pub api_compatibility : Option ApiCompatibilitySummary
  pub upgrade_readiness : Option UpgradeReadinessSummary
  pub eks_cluster : Option EksClusterInfo
  pub eks_addons : List EksAddonInfo
  pub eks_nodegroups : List EksNodegroupInfo
  pub rule_executions : List RuleExecutionRecord
  pub rule_executions_normalized : Bool

-- A rule that applied and did not finish cleanly.
abbrev pub is_gap : RuleExecutionRecord → Bool
is_gap rec =
    rec.applicability == RuleApplicability.applicable && rec.state /= RuleExecutionState.evaluated

unfoldable pub any_partial : ScanCoverage → Bool
any_partial c =
    c.kubernetes.status == CoverageStatus.partial
    || c.aws.status == CoverageStatus.partial
    || c.manifests.status == CoverageStatus.partial

unfoldable pub is_complete : Report → Bool
unfolding any_partial
is_complete r =
    if any_partial r.coverage
    then false
    else if not r.rule_executions_normalized && any is_gap r.rule_executions
    then false
    else true

unfoldable pub result_and_exit_code : Report → Verdict × ℕ
unfolding is_complete
result_and_exit_code r =
    if not (is_complete r)
    then (incomplete, 3)
    else if ltb 0 r.summary.blockers
    then (blocked, 2)
    else if ltb 0 r.summary.warnings || ltb 0 r.summary.operator_decisions
    then (passed_with_warnings, 1)
    else (clean, 0)

unfoldable pub result : Report → Verdict
unfolding result_and_exit_code
result r = (result_and_exit_code r).0

unfoldable pub exit_code : Report → ℕ
unfolding result_and_exit_code
exit_code r = (result_and_exit_code r).1

-- The two `switch`es of the loop of `NewReport`.
count_gate : UpgradeGate → Summary → Summary
count_gate UpgradeGate.block s = record s { blockers = s.blockers + 1 }
count_gate UpgradeGate.operator_decision s = record s {
  operator_decisions = s.operator_decisions + 1;
}
count_gate _ s = s

count_severity : Severity → UpgradeGate → Summary → Summary
count_severity Severity.warning g s = record s { warnings = s.warnings + 1 }
count_severity Severity.info g s = record s { infos = s.infos + 1 }
count_severity Severity.blocker g s =
    if g /= UpgradeGate.block then record s { warnings = s.warnings + 1 } else s
count_severity _ g s = s

pub summarize : Summary → List Finding → Summary
unfolding count_gate count_severity
summarize s [] = s
summarize s (f ∷ fs) =
    summarize
      (count_severity f.severity (effective_upgrade_gate f)
        (count_gate (effective_upgrade_gate f) s))
      fs

abbrev pub no_summary : Summary
no_summary = record { blockers = 0; warnings = 0; infos = 0; operator_decisions = 0 }

abbrev pub default_coverage : ScanCoverage
default_coverage = record {
  kubernetes = record { status = CoverageStatus.complete; errors = [] };
  aws = record { status = CoverageStatus.skipped; errors = [] };
  manifests = record { status = CoverageStatus.skipped; errors = [] };
}

unfoldable pub set_coverage : Report → ScanCoverage → Report
set_coverage r c =
    let covered : Report = record r { coverage = c } in
    record covered {
      upgrade_readiness = some (build_upgrade_readiness_summary r.findings (result covered));
    }

abbrev pub cross_plane_manifest_assumption : String
cross_plane_manifest_assumption =
    "Cross-plane matches assume supplied manifests target this cluster."

-- `canonicalKey`, the hash of the JSON of its parts, is an argument.
module _ (canonical_key : List String → String) where
  concepts_on : Plane → List ResourceReference → List String
  concepts_on p [] = []
  concepts_on p (ref ∷ refs) =
      let rest = concepts_on p refs in
      if ref.plane /= p
      then rest
      else elim (concept_key canonical_key ref) [ some key ↦ key ∷ rest | none ↦ rest ]

  has_cross_plane_match : List ResourceReference → Bool
  unfolding concepts_on
  has_cross_plane_match refs =
      any (λ key. has key (concepts_on Plane.live refs)) (concepts_on Plane.manifest refs)

  assumptions_of : List Finding → List String
  unfolding has_cross_plane_match
  assumptions_of fs =
      if any (λ f. has_cross_plane_match f.resources) fs
      then cross_plane_manifest_assumption ∷ []
      else []

  unfoldable pub new_report_with_upgrade_context :
      String → String → String → UpgradeContext → ℕ → List Finding → Report
  unfolding summarize assumptions_of
  new_report_with_upgrade_context target_version cluster_context provider upgrade_context scanned_at
        findings =
      let fs = map assign_priority findings in
      let r : Report = record {
        schema_version = "1.1";
        current_version = "";
        target_version = target_version;
        cluster_context = cluster_context;
        provider = provider;
        upgrade_context = upgrade_context;
        scanned_at = scanned_at;
        assumptions = assumptions_of fs;
        namespace_allowlist = [];
        findings = fs;
        summary = summarize no_summary fs;
        coverage = default_coverage;
        api_compatibility = some (build_api_compatibility_summary fs);
        upgrade_readiness = none;
        eks_cluster = none;
        eks_addons = [];
        eks_nodegroups = [];
        rule_executions = [];
        rule_executions_normalized = false;
      } in
      record r { upgrade_readiness = some (build_upgrade_readiness_summary fs (result r)) }

  unfoldable pub new_report : String → String → String → ℕ → List Finding → Report
  unfolding new_report_with_upgrade_context
  new_report target_version cluster_context provider scanned_at fs =
      new_report_with_upgrade_context target_version cluster_context provider
        UpgradeContext.unspecified scanned_at fs
