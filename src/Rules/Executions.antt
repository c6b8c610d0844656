-- ===== src/Rules/Executions.antt =====
-- What `RunAllWithExecutions` guarantees.
use mathlib.Core.Path.{ap₂}
use kubepreflight.Base.{
  ◌≡◌, ◌≢◌, refl, sym, String, true, false, string_eq, Option, none, some, List, [], ◌∷◌, ◌++◌, map,
  any, All, All-append, arith, inl, inr, Bool-cases, subst,
}
use kubepreflight.Findings.Execution.{
  rule_applicability_eq, rule_execution_state_eq, coverage_status_eq,
}
use kubepreflight.Findings.Finding.{Finding, validate}
use kubepreflight.Findings.Report.{Report, is_gap, is_complete}
use kubepreflight.Rules.Evidence.{ScanContext}
use kubepreflight.Rules.Registry.{
  RuleError, DependencyStatus, is_nil, Outcome, keep_valid, errors_from, Rule, find_rule,
  evaluate_rule_safely, evaluate_rule_dependencies, conclude_rule, run_evaluation, run_found,
  run_rule, run_universe, run_all_with_executions, all_rule_ids,
}

abbrev pub IsValid : Finding → Type 0
IsValid f = validate f ≡ none

pub keep_valid-IsValid : (fs : List Finding) → All IsValid (keep_valid fs)
unfolding keep_valid
keep_valid-IsValid [] = tt
keep_valid-IsValid (f ∷ fs) = ground (arith, keep_valid-IsValid fs)

nonempty {ℓ} : {A : Type ℓ} (xs : List A) → xs ≢ [] → is_nil xs ≡ false
nonempty [] h = absurd (h refl)
nonempty (x ∷ xs) h = refl

conclude_rule_lem :
    (reason_of : List RuleError → String) (rule_id : String) (s : DependencyStatus)
    (fs : List Finding) (errs : List RuleError)
    → let out = conclude_rule reason_of rule_id s fs errs in
      (out.record_of.rule_id ≡ rule_id)
      × (out.findings ≡ fs)
      × (is_nil out.errors ≡ false → is_gap out.record_of ≡ true)
unfolding conclude_rule
conclude_rule_lem reason_of rule_id s fs [] = ground arith
conclude_rule_lem reason_of rule_id s fs (e ∷ errs) = (refl, refl, λ h. refl)

-- Whatever a rule does, its record carries its ID, the findings kept are valid, and an error shows
-- in the record as a gap.
module _ {K A M : Type 0} (reason_of : List RuleError → String)
    (rules : List (Rule (Option (ScanContext K A M)))) (sc : Option (ScanContext K A M))
    (target_version : String) where
  abbrev run : String → Outcome
  run = run_rule reason_of rules sc target_version

  run_found_lem :
      (rule_id : String) (r : Option (Rule (Option (ScanContext K A M))))
      → let out = run_found reason_of rules sc target_version rule_id r in
        (out.record_of.rule_id ≡ rule_id)
        × All IsValid out.findings
        × (is_nil out.errors ≡ false → is_gap out.record_of ≡ true)
  unfolding run_found run_evaluation
  run_found_lem rule_id none = (refl, tt, λ h. cc)
  run_found_lem rule_id (some rule) =
      let (fs, errs) = evaluate_rule_safely (rule.evaluate sc target_version) in
      let s = evaluate_rule_dependencies reason_of rules sc target_version rule in
      let (i, f, e) =
        conclude_rule_lem reason_of rule_id s (keep_valid fs) (errors_from 0 fs ++ errs) in
      elim (Bool-cases s.not_applicable) [
        | inl h ↦ rw h (refl, tt, λ h. cc)
        | inr h ↦ elim (Bool-cases s.missing_plane) [
          | inl k ↦ rw (h, k) (refl, tt, λ h. cc)
          | inr k ↦ rw (h, k) (i, subst (All IsValid) (sym f) (keep_valid-IsValid fs), e)
        ]
      ]

  run_rule_lem :
      (rule_id : String)
      → ((run rule_id).record_of.rule_id ≡ rule_id)
        × All IsValid (run rule_id).findings
        × (is_nil (run rule_id).errors ≡ false → is_gap (run rule_id).record_of ≡ true)
  unfolding run_rule
  run_rule_lem rule_id = run_found_lem rule_id (find_rule rule_id rules)

  -- The record of a rule carries its ID.
  pub run_rule-rule_id :
      (rule_id : String)
      → (run_rule reason_of rules sc target_version rule_id).record_of.rule_id ≡ rule_id
  run_rule-rule_id rule_id = (run_rule_lem rule_id).0

  run_universe_lem :
      (ids : List String)
      → let out = run_universe reason_of rules sc target_version ids in
        (map (λ r. r.rule_id) out.1 ≡ ids)
        × All IsValid out.0
        × (is_nil out.2 ≡ false → any is_gap out.1 ≡ true)
  run_universe_lem [] = unfold run_universe in (refl, tt, λ h. cc)
  run_universe_lem (rule_id ∷ ids) = universe_step (run_rule_lem rule_id) (run_universe_lem ids)
    where
      universe_step :
          ((run rule_id).record_of.rule_id ≡ rule_id)
            × All IsValid (run rule_id).findings
            × (is_nil (run rule_id).errors ≡ false → is_gap (run rule_id).record_of ≡ true)
          → (let rest = run_universe reason_of rules sc target_version ids in
              (map (λ r. r.rule_id) rest.1 ≡ ids)
              × All IsValid rest.0
              × (is_nil rest.2 ≡ false → any is_gap rest.1 ≡ true))
          → (let out = run_universe reason_of rules sc target_version (rule_id ∷ ids) in
              (map (λ r. r.rule_id) out.1 ≡ rule_id ∷ ids)
              × All IsValid out.0
              × (is_nil out.2 ≡ false → any is_gap out.1 ≡ true))
      universe_step (i, f, e) (is, fs, es) =
          unfold run_universe in (ap₂ ◌∷◌ i is, All-append IsValid _ _ f fs, λ h. ground arith)

  -- A scan yields exactly one record for each rule of the universe, in its order.
  pub run_all_with_executions-rule_id :
      map (λ r. r.rule_id) (run_all_with_executions reason_of rules sc target_version).1
      ≡ all_rule_ids
  unfolding run_all_with_executions
  run_all_with_executions-rule_id = (run_universe_lem all_rule_ids).0

  -- Every finding that a scan yields passes validation, whatever the rules return.
  pub run_all_with_executions-IsValid :
      All IsValid (run_all_with_executions reason_of rules sc target_version).0
  unfolding run_all_with_executions
  run_all_with_executions-IsValid = (run_universe_lem all_rule_ids).1

  -- If a scan yields an error, a report that holds the scan's records as its own is not complete.
  pub run_all_with_executions-is_complete :
      (r : Report)
      → r.rule_executions ≡ (run_all_with_executions reason_of rules sc target_version).1
      → r.rule_executions_normalized ≡ false
      → (run_all_with_executions reason_of rules sc target_version).2 ≢ []
      → is_complete r ≡ false
  unfolding run_all_with_executions is_complete
  run_all_with_executions-is_complete r e n ne =
      let errors = (run_universe reason_of rules sc target_version all_rule_ids).2 in
      let gap = (run_universe_lem all_rule_ids).2 (nonempty errors ne) in
      let g : any is_gap r.rule_executions ≡ true = rw e gap in ground arith
