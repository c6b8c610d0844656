-- ===== src/Examples/Data.antt =====
-- Test data: two findings of two rules, reports that hold them, and two orders of a map.
use mathlib.Core.List.Perm
use mathlib.Core.List.{reverse, reverse_perm}
use kubepreflight.Base.{ℕ, String, true, false, string_eq, none, List, [], ◌∷◌}
use kubepreflight.Findings.Types.{Severity, ConfidenceTier}
use kubepreflight.Findings.Context.{UpgradeContext, UpgradeGate, upgrade_gate_eq}
use kubepreflight.Findings.Execution.{RuleApplicability, RuleExecutionState, RuleExecutionRecord}
use kubepreflight.Findings.Finding.{Finding}
use kubepreflight.Findings.Report.{
  Report, no_summary, default_coverage, new_report_with_upgrade_context,
}
use kubepreflight.Comparison.Compare.{MapOrder}

abbrev pub a_finding : String → Severity → String → Finding
a_finding rule_id severity fingerprint = record {
  rule_id = rule_id;
  severity = severity;
  confidence = ConfidenceTier.static_certain;
  message = "a message";
  resources = [];
  evidence = [];
  remediation = "";
  remediation_detail = none;
  impact_scopes = [];
  upgrade_gate = UpgradeGate.unset;
  global_blocker = false;
  critical_infra = false;
  priority = "";
  priority_reason = "";
  affected_scope = "";
  can_upgrade_continue = false;
  fingerprint = fingerprint;
}

abbrev pub api_finding : Finding
api_finding = a_finding "API-001" Severity.blocker "api"

abbrev pub pdb_finding : Finding
pdb_finding = a_finding "PDB-001" Severity.warning "pdb"

abbrev pub evaluated_record : String → RuleExecutionRecord
evaluated_record rule_id = record {
  rule_id = rule_id;
  applicability = RuleApplicability.applicable;
  state = RuleExecutionState.evaluated;
  reason = "";
}

abbrev pub a_report : List Finding → List RuleExecutionRecord → Report
a_report fs records = record {
  schema_version = "1.1";
  current_version = "1.29";
  target_version = "1.30";
  cluster_context = "test";
  provider = "";
  upgrade_context = UpgradeContext.unspecified;
  scanned_at = 0;
  assumptions = [];
  namespace_allowlist = [];
  findings = fs;
  summary = no_summary;
  coverage = default_coverage;
  api_compatibility = none;
  upgrade_readiness = none;
  eks_cluster = none;
  eks_addons = [];
  eks_nodegroups = [];
  rule_executions = records;
  rule_executions_normalized = false;
}

abbrev pub old : Report
old = a_report (api_finding ∷ pdb_finding ∷ []) []

-- API-001 ran and found nothing; PDB-001 did not run.
abbrev pub new : Report
new = a_report [] (evaluated_record "API-001" ∷ [])

abbrev pub in_order : MapOrder
in_order = record { range = λ m. m; range-perm = λ m. Perm.rfl }

abbrev pub backwards : MapOrder
backwards = record { range = reverse; range-perm = reverse_perm }

abbrev pub global_finding : Finding
global_finding = record api_finding { global_blocker = true }

abbrev pub critical_finding : Finding
critical_finding = record pdb_finding { critical_infra = true }

-- A report as the program makes it, with a stand-in for the hash of a resource's key.
abbrev pub fresh : Report
fresh =
    new_report_with_upgrade_context (λ parts. "") "1.30" "test" "" UpgradeContext.unspecified 0
      (api_finding ∷ pdb_finding ∷ [])

-- Any function will do for what `%d` prints.
abbrev pub decimal : ℕ → String
decimal n = "1"
