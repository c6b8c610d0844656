-- ===== src/Rules/Evaluated.antt =====
-- When a rule is recorded as evaluated.
use kubepreflight.Base.{
  ℕ, suc, ◌≡◌, refl, ap, sym, ◌∙◌, String, Bool, true, false, not, string_eq, ◌&&◌, ◌||◌, Option,
  none, some, List, [], ◌∷◌, ◌++◌, map, any, arith,
}
use kubepreflight.Findings.Execution.{
  rule_applicability_eq, RuleExecutionState, rule_execution_state_eq, coverage_status_eq,
}
use kubepreflight.Findings.Finding.{Finding}
use kubepreflight.Rules.Evidence.{EvidenceDependency, ScanContext, DependencyState}
use kubepreflight.Rules.Registry.{
  Evaluation, returned, panicked, RuleError, DependencyStatus, dependency_status, is_missing,
  is_applicable, is_partial, is_nil, labels_of, keep_valid, errors_from, Rule, find_rule,
  evaluate_rule_safely, rule_evidence_dependencies, evaluate_rule_dependencies, conclude_rule,
  run_evaluation, run_found, run_rule, state_of,
}

errors_from-nil : (i : ℕ) (fs : List Finding) → errors_from i fs ≡ [] → keep_valid fs ≡ fs
unfolding errors_from keep_valid
errors_from-nil i [] h = refl
errors_from-nil i (f ∷ fs) h = ground (arith, errors_from-nil (suc i) fs)

labels-nil :
    (p : DependencyState → Bool) (deps : List (EvidenceDependency × DependencyState))
    → is_nil (labels_of p deps) ≡ true
    → any (λ d. p d.1) deps ≡ false
labels-nil p [] h = refl
labels-nil p (d ∷ deps) h = ground (arith, labels-nil p deps)

-- A dependency whose plane was collected without an error that concerns it.
abbrev pub is_available : DependencyState → Bool
is_available DependencyState.available = true
is_available _ = false

-- Every dependency of the list is available or of a plane that was not requested, and one is
-- available, unless the list is empty.
abbrev pub all_requested_available : List (EvidenceDependency × DependencyState) → Bool
all_requested_available deps =
    not (any (λ d. is_missing d.1 || is_partial d.1) deps)
    && (is_nil deps || any (λ d. is_available d.1) deps)

none_either :
    (deps : List (EvidenceDependency × DependencyState))
    → any (λ d. is_missing d.1) deps ≡ false
    → any (λ d. is_partial d.1) deps ≡ false
    → any (λ d. is_missing d.1 || is_partial d.1) deps ≡ false
none_either [] k l = refl
none_either (d ∷ deps) k l = ground (arith, none_either deps)

some_available :
    (deps : List (EvidenceDependency × DependencyState))
    → any (λ d. is_applicable d.1) deps ≡ true
    → any (λ d. is_missing d.1) deps ≡ false
    → any (λ d. is_partial d.1) deps ≡ false
    → any (λ d. is_available d.1) deps ≡ true
some_available [] h k l = h
some_available ((dep, state) ∷ deps) h k l = ground (arith, some_available deps)

dependency_status-clear :
    (deps : List (EvidenceDependency × DependencyState))
    → (dependency_status deps).not_applicable ≡ false
    → (dependency_status deps).missing_plane ≡ false
    → (dependency_status deps).insufficient_evidence ≡ false
    → all_requested_available deps ≡ true
unfolding dependency_status
dependency_status-clear [] h k l = refl
dependency_status-clear (d ∷ deps) h k l = ground (
  arith,
  labels-nil is_missing (d ∷ deps),
  labels-nil is_partial (d ∷ deps),
  none_either (d ∷ deps),
  some_available (d ∷ deps),
)

append-nil_both {ℓ} : {A : Type ℓ} (xs ys : List A) → xs ++ ys ≡ [] → (xs ≡ []) × (ys ≡ [])
append-nil_both [] ys h = (refl, h)
append-nil_both (x ∷ xs) ys h = cc

conclude_rule-evaluated :
    (reason_of : List RuleError → String) (rule_id : String) (s : DependencyStatus)
    (fs : List Finding) (errs : List RuleError)
    → (conclude_rule reason_of rule_id s fs errs).record_of.state ≡ RuleExecutionState.evaluated
    → (s.insufficient_evidence ≡ false)
      × (errs ≡ [])
      × ((conclude_rule reason_of rule_id s fs errs).findings ≡ fs)
unfolding conclude_rule
conclude_rule-evaluated reason_of rule_id s fs [] h = ground arith
conclude_rule-evaluated reason_of rule_id s fs (e ∷ errs) h = cc

-- A run that ends in `evaluated`: nothing stood in its way, and every finding is kept.
run_evaluation-evaluated :
    (reason_of : List RuleError → String) (rule_id : String) (s : DependencyStatus)
    (fs : List Finding) (errs : List RuleError)
    → (run_evaluation reason_of rule_id s (fs, errs)).record_of.state ≡ RuleExecutionState.evaluated
    → (s.not_applicable ≡ false)
      × (s.missing_plane ≡ false)
      × (s.insufficient_evidence ≡ false)
      × (errs ≡ [])
      × ((run_evaluation reason_of rule_id s (fs, errs)).findings ≡ fs)
unfolding run_evaluation
run_evaluation-evaluated reason_of rule_id s fs errs h =
    let es = errors_from 0 fs in
    ground (
      arith,
      conclude_rule-evaluated reason_of rule_id s (keep_valid fs) (es ++ errs),
      append-nil_both es errs,
      errors_from-nil 0 fs,
    )

safe_nil :
    (v : Evaluation)
    → (evaluate_rule_safely v).1 ≡ []
    → v ≡ returned (evaluate_rule_safely v).0 none
safe_nil (returned fs none) h = refl
safe_nil (returned fs (some e)) h = cc
safe_nil (panicked e) h = cc

module _ {K A M : Type 0} (reason_of : List RuleError → String)
    (rules : List (Rule (Option (ScanContext K A M)))) (sc : Option (ScanContext K A M))
    (target_version : String) where
  -- All the evidence that the scan requested of what a rule depends on is available.
  abbrev pub evidence_available : Rule (Option (ScanContext K A M)) → Bool
  evidence_available rule =
      all_requested_available
        (map (state_of reason_of rules sc target_version) (rule_evidence_dependencies rule sc))

  status-collected :
      (rule : Rule (Option (ScanContext K A M)))
      → let s = evaluate_rule_dependencies reason_of rules sc target_version rule in
        s.not_applicable ≡ false
        → s.missing_plane ≡ false
        → s.insufficient_evidence ≡ false
        → evidence_available rule ≡ true
  unfolding evaluate_rule_dependencies
  status-collected rule =
      dependency_status-clear
        (map (state_of reason_of rules sc target_version) (rule_evidence_dependencies rule sc))

  run_found-evaluated :
      (rule_id : String) (o : Option (Rule (Option (ScanContext K A M))))
      → let out = run_found reason_of rules sc target_version rule_id o in
        out.record_of.state ≡ RuleExecutionState.evaluated
        → (rule : Rule (Option (ScanContext K A M))) × (o ≡ some rule)
          × (evidence_available rule ≡ true)
          × (rule.evaluate sc target_version ≡ returned out.findings none)
  unfolding run_found
  run_found-evaluated rule_id none h = cc
  run_found-evaluated rule_id (some rule) h =
      let v = rule.evaluate sc target_version in
      let out = evaluate_rule_safely v in
      let s = evaluate_rule_dependencies reason_of rules sc target_version rule in
      let (a, m, i, e, f) = run_evaluation-evaluated reason_of rule_id s out.0 out.1 h in
      (rule, refl, status-collected rule a m i, safe_nil v e ∙ ap (λ t. returned t none) (sym f))

  -- If a scan records a rule as evaluated, the rule is registered, all the
  -- requested evidence that it depends on was collected without an error, it returned without an
  -- error or a panic, and all that it returned is kept.
  pub run_rule-evaluated :
      (rule_id : String)
      → let out = run_rule reason_of rules sc target_version rule_id in
        out.record_of.state ≡ RuleExecutionState.evaluated
        → (rule : Rule (Option (ScanContext K A M))) × (find_rule rule_id rules ≡ some rule)
          × (evidence_available rule ≡ true)
          × (rule.evaluate sc target_version ≡ returned out.findings none)
  unfolding run_rule
  run_rule-evaluated rule_id = run_found-evaluated rule_id (find_rule rule_id rules)
