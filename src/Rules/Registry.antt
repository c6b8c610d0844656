-- ===== src/Rules/Registry.antt =====
-- internal/rules/rule.go and internal/rules/defaults.go: `RunAllWithExecutions`. A rule is what it
-- implements of the three interfaces; its checks are parameters. `reason_of` stands for
-- `sanitizeRuleError` of the joined errors, which redacts their text with regular expressions.
use Prim.Native.String.{◌++◌ as append}
use kubepreflight.Base.{
  ℕ, suc, String, Bool, true, false, not, ◌==◌, string_eq, if◌then◌else◌, Option, none, some, List,
  [], ◌∷◌, ◌++◌, map, any,
}
use kubepreflight.Base.Order.{string_lt}
use kubepreflight.Base.Sorting.{sort}
use kubepreflight.Findings.Execution.{RuleApplicability, RuleExecutionState, RuleExecutionRecord}
use kubepreflight.Findings.Finding.{Finding, FindingError, validate}
use kubepreflight.Coverage.Status.{join}
use kubepreflight.Rules.Evidence.{
  EvidenceDependency, label, ScanContext, DependencyState, dependency_state,
}

-- `AllRuleIDs`: the rules of `NewDefaultRegistry`, in the order in which it registers them.
abbrev pub all_rule_ids : List String
all_rule_ids =
    "API-001" ∷ "API-002" ∷ "WH-001" ∷ "WH-002" ∷ "WH-004" ∷ "WH-005" ∷ "DRAIN-001" ∷ "DRAIN-002"
    ∷ "DRAIN-003" ∷ "DRAIN-004" ∷ "DRAIN-005" ∷ "PDB-001" ∷ "PDB-002" ∷ "NODE-001" ∷ "NODE-002"
    ∷ "NODE-003" ∷ "NET-002" ∷ "WORKLOAD-001" ∷ "ADDON-001" ∷ "ADDON-002" ∷ "EKS-NG-001"
    ∷ "EKS-NG-002" ∷ "EKS-NG-003" ∷ "EKS-NG-004" ∷ "EKS-INSIGHT-001" ∷ "EKS-INSIGHT-002"
    ∷ "EKS-INSIGHT-003" ∷ "COREDNS-001" ∷ "CRD-001" ∷ "CRD-002" ∷ "APISERVICE-001" ∷ []

-- What `Evaluate` does: it returns findings, with an error or not, or it panics.
pub data Evaluation : Type 0 where
  returned : List Finding → Option String → Evaluation
  panicked : String → Evaluation

pub data RuleError : Type 0 where
  invalid_finding : ℕ → FindingError → RuleError
  evaluate_error : String → RuleError
  rule_panic : String → RuleError

pub record DependencyStatus : Type 0 where
  pub not_applicable : Bool
  pub missing_plane : Bool
  pub insufficient_evidence : Bool
  pub reason : String

abbrev pub no_status : DependencyStatus
no_status = record {
  not_applicable = false;
  missing_plane = false;
  insufficient_evidence = false;
  reason = "";
}

-- The tests that stand for the three variables of the loop over the dependencies.
abbrev pub is_applicable : DependencyState → Bool
is_applicable DependencyState.not_applicable = false
is_applicable _ = true

abbrev pub is_partial : DependencyState → Bool
is_partial DependencyState.partial = true
is_partial _ = false

abbrev pub is_missing : DependencyState → Bool
is_missing DependencyState.missing = true
is_missing _ = false

-- The findings that `Validate` accepts, and the errors of the others with their positions.
unfoldable pub keep_valid : List Finding → List Finding
keep_valid [] = []
keep_valid (f ∷ fs) =
    let rest = keep_valid fs in elim (validate f) [ none ↦ f ∷ rest | some e ↦ rest ]

unfoldable pub errors_from : ℕ → List Finding → List RuleError
errors_from i [] = []
errors_from i (f ∷ fs) =
    let rest = errors_from (suc i) fs in
    elim (validate f) [ none ↦ rest | some e ↦ invalid_finding i e ∷ rest ]

pub record Outcome : Type 0 where
  pub findings : List Finding
  pub errors : List RuleError
  pub record_of : RuleExecutionRecord

abbrev pub execution :
    String → RuleApplicability → RuleExecutionState → String → RuleExecutionRecord
execution rule_id applicability state reason = record {
  rule_id = rule_id;
  applicability = applicability;
  state = state;
  reason = reason;
}

abbrev pub excluded : String → String → RuleExecutionRecord
excluded rule_id =
    execution rule_id RuleApplicability.not_applicable RuleExecutionState.not_evaluated

abbrev pub insufficient : String → String → RuleExecutionRecord
insufficient rule_id =
    execution rule_id RuleApplicability.applicable RuleExecutionState.insufficient_evidence

-- A rule of scans `S`. The dependencies are those for the context if the rule declares such, and
-- else the fixed ones.
pub record Rule (S : Type 0) : Type 0 where
  pub id : String
  pub evidence_dependencies_for : Option (S → List EvidenceDependency)
  pub evidence_dependencies : Option (List EvidenceDependency)
  pub evaluate : S → String → Evaluation

dependencies_of :
    {S : Type 0}
    → Option (S → List EvidenceDependency)
    → Option (List EvidenceDependency)
    → S
    → List EvidenceDependency
dependencies_of (some f) fixed sc = f sc
dependencies_of none (some deps) sc = deps
dependencies_of none none sc = []

unfoldable pub rule_evidence_dependencies : {S : Type 0} → Rule S → S → List EvidenceDependency
unfolding dependencies_of
rule_evidence_dependencies rule sc =
    dependencies_of rule.evidence_dependencies_for rule.evidence_dependencies sc

-- The registered rule of an ID: a later one replaces an earlier one.
abbrev pub find_rule : {S : Type 0} → String → List (Rule S) → Option (Rule S)
find_rule rule_id [] = none
find_rule rule_id (rule ∷ rules) =
    let later = find_rule rule_id rules in
    elim later [ some r ↦ some r | none ↦ if rule.id == rule_id then some rule else none ]

-- `evaluateRuleSafely`: a panic becomes an error.
abbrev pub evaluate_rule_safely : Evaluation → List Finding × List RuleError
evaluate_rule_safely (returned fs none) = (fs, [])
evaluate_rule_safely (returned fs (some e)) = (fs, evaluate_error e ∷ [])
evaluate_rule_safely (panicked e) = ([], rule_panic e ∷ [])

-- `strings.Join(sortedStrings(…), ", ")`, behind a text.
reason_from : String → List String → String
reason_from text labels = append text (join ", " (sort string_lt labels))

abbrev pub labels_of :
    (DependencyState → Bool) → List (EvidenceDependency × DependencyState) → List String
labels_of p [] = []
labels_of p ((dep, state) ∷ deps) =
    let rest = labels_of p deps in if p state then label dep ∷ rest else rest

abbrev pub is_nil {ℓ} : {A : Type ℓ} → List A → Bool
is_nil [] = true
is_nil (x ∷ xs) = false

-- `evaluateRuleDependencies`, from the dependencies with their states.
unfoldable pub dependency_status : List (EvidenceDependency × DependencyState) → DependencyStatus
unfolding reason_from
dependency_status [] = no_status
dependency_status (dep ∷ deps) =
    if not (any (λ d. is_applicable d.1) (dep ∷ deps))
    then record no_status {
      not_applicable = true;
      reason = "required evidence plane was not requested for this scan mode";
    }
    else if not (is_nil (labels_of is_missing (dep ∷ deps)))
    then record no_status {
      missing_plane = true;
      reason =
          reason_from "required evidence was unavailable for: " (labels_of is_missing (dep ∷ deps));
    }
    else if not (is_nil (labels_of is_partial (dep ∷ deps)))
    then record no_status {
      insufficient_evidence = true;
      reason =
          reason_from "required collector data was unavailable for: "
            (labels_of is_partial (dep ∷ deps));
    }
    else no_status

-- The body of the loop after the evaluation: `errs` are the errors of this rule.
unfoldable pub conclude_rule :
    (List RuleError → String) → String → DependencyStatus → List Finding → List RuleError → Outcome
conclude_rule reason_of rule_id status fs [] = record {
  findings = fs;
  errors = [];
  record_of =
      if status.insufficient_evidence
      then insufficient rule_id status.reason
      else execution rule_id RuleApplicability.applicable RuleExecutionState.evaluated "";
}
conclude_rule reason_of rule_id status fs errs = record {
  findings = fs;
  errors = errs;
  record_of =
      execution rule_id RuleApplicability.applicable RuleExecutionState.failed (reason_of errs);
}

unfoldable pub run_evaluation :
    (List RuleError → String) → String → DependencyStatus → List Finding × List RuleError → Outcome
unfolding conclude_rule keep_valid errors_from
run_evaluation reason_of rule_id status (fs, errs) =
    if status.not_applicable
    then record { findings = []; errors = []; record_of = excluded rule_id status.reason }
    else if status.missing_plane
    then record { findings = []; errors = []; record_of = insufficient rule_id status.reason }
    else conclude_rule reason_of rule_id status (keep_valid fs) (errors_from 0 fs ++ errs)

module _ {K A M : Type 0} (reason_of : List RuleError → String)
    (rules : List (Rule (Option (ScanContext K A M)))) (sc : Option (ScanContext K A M))
    (target_version : String) where
  abbrev pub state_of : EvidenceDependency → EvidenceDependency × DependencyState
  state_of dep = (dep, dependency_state dep sc)

  unfoldable pub evaluate_rule_dependencies : Rule (Option (ScanContext K A M)) → DependencyStatus
  unfolding dependency_status
  evaluate_rule_dependencies rule =
      dependency_status (map state_of (rule_evidence_dependencies rule sc))

  -- The body of the loop over the universe, for the rule that is registered under the ID.
  unfoldable pub run_found : String → Option (Rule (Option (ScanContext K A M))) → Outcome
  unfolding run_evaluation evaluate_rule_dependencies
  run_found rule_id none = record {
    findings = [];
    errors = [];
    record_of = excluded rule_id "not registered for this scan mode";
  }
  run_found rule_id (some rule) =
      run_evaluation reason_of rule_id (evaluate_rule_dependencies rule)
        (evaluate_rule_safely (rule.evaluate sc target_version))

  unfoldable pub run_rule : String → Outcome
  unfolding run_found
  run_rule rule_id = run_found rule_id (find_rule rule_id rules)

  -- The loop: the findings, the records, and the errors with the IDs of their rules.
  unfoldable pub run_universe :
      List String → List Finding × List RuleExecutionRecord × List (String × List RuleError)
  unfolding run_rule
  run_universe [] = ([], [], [])
  run_universe (rule_id ∷ ids) =
      let rest = run_universe ids in
      let out = run_rule rule_id in
      (
        out.findings ++ rest.0,
        out.record_of ∷ rest.1,
        (if is_nil out.errors then rest.2 else (rule_id, out.errors) ∷ rest.2),
      )

  unfoldable pub run_all_with_executions :
      List Finding × List RuleExecutionRecord × List (String × List RuleError)
  unfolding run_universe
  run_all_with_executions = run_universe all_rule_ids
