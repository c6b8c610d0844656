-- ===== src/Comparison/Normalize.antt =====
-- internal/comparison/normalize.go: `LoadAndNormalize` after the document is parsed, and
-- internal/v1compat/contract.go: `ExpectedRuleIDs`.
pub mod Legacy
use kubepreflight.Base.{
  String, Bool, true, false, ◌==◌, string_eq, if◌then◌else◌, ◌||◌, Option, none, some, List, [],
  ◌∷◌, map, any, ◌⊎◌, inl, inr,
}
use kubepreflight.Findings.Execution.{RuleApplicability, RuleExecutionState, RuleExecutionRecord}
use kubepreflight.Findings.Finding.{Finding}
use kubepreflight.Findings.Priority.{assign_priority}
use kubepreflight.Findings.ApiCompat.{build_api_compatibility_summary}
use kubepreflight.Findings.Readiness.{build_upgrade_readiness_summary}
use kubepreflight.Findings.Report.{Report, result}

abbrev pub expected_rule_ids : List String
expected_rule_ids =
    "API-001" ∷ "API-002" ∷ "WH-001" ∷ "WH-002" ∷ "WH-004" ∷ "WH-005" ∷ "DRAIN-001" ∷ "DRAIN-002"
    ∷ "DRAIN-003" ∷ "DRAIN-004" ∷ "DRAIN-005" ∷ "PDB-001" ∷ "PDB-002" ∷ "NODE-001" ∷ "NODE-002"
    ∷ "NODE-003" ∷ "NET-002" ∷ "WORKLOAD-001" ∷ "ADDON-001" ∷ "ADDON-002" ∷ "EKS-NG-001"
    ∷ "EKS-NG-002" ∷ "EKS-NG-003" ∷ "EKS-NG-004" ∷ "EKS-INSIGHT-001" ∷ "EKS-INSIGHT-002"
    ∷ "EKS-INSIGHT-003" ∷ "COREDNS-001" ∷ "CRD-001" ∷ "CRD-002" ∷ "APISERVICE-001" ∷ []

-- An entry of the map `hasFinding`.
abbrev pub has_finding : List Finding → String → Bool
has_finding fs rule_id = any (λ f. f.rule_id == rule_id) fs

unfoldable pub legacy_record : List Finding → String → RuleExecutionRecord
legacy_record fs rule_id =
    if has_finding fs rule_id
    then record {
      rule_id = rule_id;
      applicability = RuleApplicability.applicable;
      state = RuleExecutionState.evaluated;
      reason =
          "legacy report contains a finding from this rule; execution metadata was backfilled from finding presence, not a native execution record";
    }
    else record {
      rule_id = rule_id;
      applicability = RuleApplicability.applicable;
      state = RuleExecutionState.not_evaluated;
      reason =
          "legacy report does not contain native rule-execution metadata; absence of a finding was not treated as evaluated-and-clean";
    }

-- The branch on the records of the report, which are given first.
unfoldable pub backfill : List RuleExecutionRecord → Report → Report
backfill [] r = record r {
  rule_executions = map (legacy_record r.findings) expected_rule_ids;
  rule_executions_normalized = true;
}
backfill (rec ∷ recs) r = r

unfoldable pub normalize_rule_executions : Report → Report
unfolding backfill
normalize_rule_executions r = backfill r.rule_executions r

abbrev pub or_some {ℓ} : {A : Type ℓ} → Option A → A → Option A
or_some none d = some d
or_some (some a) d = some a

-- The body of the loop over the findings.
unfoldable pub prioritize : Finding → Finding
prioritize f = if f.priority == "" then assign_priority f else f

-- The priorities and the two summaries, where they are missing.
unfoldable pub fill : Report → Report
unfolding prioritize
fill r =
    let fs = map prioritize r.findings in
    let prioritized : Report = record r { findings = fs } in
    record prioritized {
      api_compatibility = or_some r.api_compatibility (build_api_compatibility_summary fs);
      upgrade_readiness =
          or_some r.upgrade_readiness (build_upgrade_readiness_summary fs (result prioritized));
    }

-- The steps after the two required fields are checked.
unfoldable pub normalize : Report → Report
unfolding fill normalize_rule_executions
normalize r = normalize_rule_executions (fill r)

pub data LoadError : Type 0 where
  unrecognizable : LoadError

unfoldable pub load_and_normalize : Report → Report ⊎ LoadError
unfolding normalize
load_and_normalize r =
    if r.schema_version == "" || r.target_version == ""
    then inr unrecognizable
    else inl (normalize r)
