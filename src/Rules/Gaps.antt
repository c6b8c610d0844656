-- ===== src/Rules/Gaps.antt =====
-- A rule that goes wrong leaves a gap in the records of `RunAllWithExecutions`.
use kubepreflight.Base.{
  ℕ, suc, ◌≡◌, refl, sym, subst, String, Bool, true, false, not, ◌==◌, string_eq, eq_iff, ◌&&◌,
  ◌||◌, Option, none, some, List, [], ◌∷◌, ◌++◌, map, any, has, arith, inl, inr, Bool-cases,
}
use kubepreflight.Findings.Execution.{
  rule_applicability_eq, rule_execution_state_eq, coverage_status_eq,
}
use kubepreflight.Findings.Finding.{Finding, FindingError, validate}
use kubepreflight.Findings.Report.{Report, is_gap, is_complete}
use kubepreflight.Rules.Evidence.{EvidenceDependency, ScanContext, DependencyState}
use kubepreflight.Rules.Registry.{
  Evaluation, returned, panicked, RuleError, DependencyStatus, dependency_status, is_applicable,
  is_missing, is_nil, labels_of, errors_from, Rule, find_rule, evaluate_rule_safely,
  rule_evidence_dependencies, evaluate_rule_dependencies, conclude_rule, run_evaluation, run_found,
  run_rule, run_universe, run_all_with_executions, all_rule_ids, state_of,
}

abbrev is_invalid : Option FindingError → Bool
is_invalid none = false
is_invalid (some e) = true

-- A rule panicked, returned an error, or returned a finding that is not valid.
abbrev pub misbehaved : Evaluation → Bool
misbehaved (panicked e) = true
misbehaved (returned fs (some e)) = true
misbehaved (returned fs none) = any (λ f. is_invalid (validate f)) fs

-- The dependencies let the rule run: none is missing, and one is of a requested plane, unless there
-- are none.
abbrev pub lets_run : List (EvidenceDependency × DependencyState) → Bool
lets_run deps =
    (is_nil deps || any (λ d. is_applicable d.1) deps) && not (any (λ d. is_missing d.1) deps)

no_labels :
    (p : DependencyState → Bool) (deps : List (EvidenceDependency × DependencyState))
    → any (λ d. p d.1) deps ≡ false
    → is_nil (labels_of p deps) ≡ true
no_labels p [] h = refl
no_labels p ((dep, state) ∷ deps) h = ground (arith, no_labels p deps)

dependency_status-lets_run :
    (deps : List (EvidenceDependency × DependencyState))
    → lets_run deps ≡ true
    → ((dependency_status deps).not_applicable ≡ false)
      × ((dependency_status deps).missing_plane ≡ false)
unfolding dependency_status
dependency_status-lets_run [] h = (refl, refl)
dependency_status-lets_run (d ∷ deps) h = ground (arith, no_labels is_missing (d ∷ deps))

errors_from-invalid :
    (i : ℕ) (fs : List Finding)
    → any (λ f. is_invalid (validate f)) fs ≡ true
    → is_nil (errors_from i fs) ≡ false
unfolding errors_from
errors_from-invalid i [] h = sym h
errors_from-invalid i (f ∷ fs) h = ground (arith, errors_from-invalid (suc i) fs)

nil-append_right : (xs ys : List RuleError) → is_nil ys ≡ false → is_nil (xs ++ ys) ≡ false
nil-append_right [] ys h = h
nil-append_right (x ∷ xs) ys h = refl

nil-append_left : (xs ys : List RuleError) → is_nil xs ≡ false → is_nil (xs ++ ys) ≡ false
nil-append_left [] ys h = cc
nil-append_left (x ∷ xs) ys h = refl

misbehaved-errors :
    (v : Evaluation)
    → misbehaved v ≡ true
    → let out = evaluate_rule_safely v in is_nil (errors_from 0 out.0 ++ out.1) ≡ false
misbehaved-errors (panicked e) h = nil-append_right (errors_from 0 []) _ refl
misbehaved-errors (returned fs (some e)) h = nil-append_right (errors_from 0 fs) _ refl
misbehaved-errors (returned fs none) h =
    nil-append_left (errors_from 0 fs) [] (errors_from-invalid 0 fs h)

conclude_rule-gap :
    (reason_of : List RuleError → String) (rule_id : String) (s : DependencyStatus)
    (fs : List Finding) (errs : List RuleError)
    → is_nil errs ≡ false
    → is_gap (conclude_rule reason_of rule_id s fs errs).record_of ≡ true
unfolding conclude_rule
conclude_rule-gap reason_of rule_id s fs [] h = cc
conclude_rule-gap reason_of rule_id s fs (e ∷ errs) h = refl

module _ {K A M : Type 0} (reason_of : List RuleError → String)
    (rules : List (Rule (Option (ScanContext K A M)))) (sc : Option (ScanContext K A M))
    (target_version : String) where
  -- The evidence lets a rule run in the scan.
  abbrev pub can_run : Rule (Option (ScanContext K A M)) → Bool
  can_run rule =
      lets_run
        (map (state_of reason_of rules sc target_version) (rule_evidence_dependencies rule sc))

  run_rule-gap :
      (rule_id : String) (rule : Rule (Option (ScanContext K A M)))
      → find_rule rule_id rules ≡ some rule
      → can_run rule ≡ true
      → misbehaved (rule.evaluate sc target_version) ≡ true
      → is_gap (run_rule reason_of rules sc target_version rule_id).record_of ≡ true
  unfolding run_rule run_found evaluate_rule_dependencies run_evaluation
  run_rule-gap rule_id rule e c m =
      let deps =
        map (state_of reason_of rules sc target_version) (rule_evidence_dependencies rule sc) in
      let (a, k) = dependency_status-lets_run deps c in
      rw (e, a, k)
        (conclude_rule-gap reason_of rule_id (dependency_status deps) _ _
          (misbehaved-errors (rule.evaluate sc target_version) m))

  run_universe-gap :
      (rule_id : String)
      → is_gap (run_rule reason_of rules sc target_version rule_id).record_of ≡ true
      → (ids : List String) → has rule_id ids ≡ true
      → any is_gap (run_universe reason_of rules sc target_version ids).1 ≡ true
  unfolding run_universe
  run_universe-gap rule_id g [] h = cc
  run_universe-gap rule_id g (id ∷ ids) h = elim (Bool-cases (id == rule_id)) [
    | inl e ↦
        let here : is_gap (run_rule reason_of rules sc target_version id).record_of ≡ true =
          subst (λ i. is_gap (run_rule reason_of rules sc target_version i).record_of ≡ true)
            (sym ((eq_iff id rule_id).0 e)) g in
        ground arith
    | inr e ↦ ground (arith, run_universe-gap rule_id g ids)
  ]

  -- If a registered rule of the universe, whose evidence lets it run, panicked, returned an error or
  -- returned an invalid finding, a report that holds the scan's records as its own is not complete.
  pub is_complete-misbehaved :
      (r : Report) (rule_id : String) (rule : Rule (Option (ScanContext K A M)))
      → r.rule_executions ≡ (run_all_with_executions reason_of rules sc target_version).1
      → r.rule_executions_normalized ≡ false
      → has rule_id all_rule_ids ≡ true
      → find_rule rule_id rules ≡ some rule
      → can_run rule ≡ true
      → misbehaved (rule.evaluate sc target_version) ≡ true
      → is_complete r ≡ false
  unfolding run_all_with_executions is_complete
  is_complete-misbehaved r rule_id rule e n u found c m =
      let gap = run_universe-gap rule_id (run_rule-gap rule_id rule found c m) all_rule_ids u in
      let g : any is_gap r.rule_executions ≡ true = rw e gap in ground arith
