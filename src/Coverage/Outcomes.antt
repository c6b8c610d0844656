-- ===== src/Coverage/Outcomes.antt =====
-- What a row of the table of rule executions may say.
use kubepreflight.Base.{
  ℕ, ◌≡◌, ◌≢◌, refl, String, true, false, ◌==◌, eq_iff, arith, inl, inr, Bool-cases,
}
use kubepreflight.Findings.Execution.{
  RuleApplicability, rule_applicability_eq, RuleExecutionState, RuleExecutionRecord,
}
use kubepreflight.Findings.Report.{Report}
use kubepreflight.Coverage.Rows.{outcome_of_state, rule_outcome_label, row_of}

abbrev clean_label : String
clean_label = "No issue detected"

module _ (decimal : ℕ → String) where
  outcome_of_state-clean :
      (s : RuleExecutionState) (n : ℕ)
      → outcome_of_state decimal s n ≡ clean_label
      → s ≡ RuleExecutionState.evaluated
  unfolding outcome_of_state
  outcome_of_state-clean RuleExecutionState.evaluated n e = refl
  outcome_of_state-clean RuleExecutionState.insufficient_evidence n e =
      let h : false ≡ true = (eq_iff "Unable to verify" clean_label).1 e in cc
  outcome_of_state-clean RuleExecutionState.failed n e =
      let h : false ≡ true = (eq_iff "Evaluation failed" clean_label).1 e in cc
  outcome_of_state-clean RuleExecutionState.not_evaluated n e =
      let h : false ≡ true = (eq_iff "Not evaluated" clean_label).1 e in cc
  outcome_of_state-clean (RuleExecutionState.other t) n e =
      let h : false ≡ true = (eq_iff "Not evaluated" clean_label).1 e in cc

  not_applicable-clean : "Not applicable" ≡ clean_label → ⊥
  not_applicable-clean e = let h : false ≡ true = (eq_iff "Not applicable" clean_label).1 e in cc

  rule_outcome_label-clean :
      (a : RuleApplicability) (s : RuleExecutionState) (n : ℕ)
      → rule_outcome_label decimal a s n ≡ clean_label
      → (a ≢ RuleApplicability.not_applicable) × (s ≡ RuleExecutionState.evaluated)
  unfolding rule_outcome_label
  rule_outcome_label-clean a s n e = elim (Bool-cases (a == RuleApplicability.not_applicable)) [
    | inl h ↦ absurd (not_applicable-clean (rw h at e))
    | inr h ↦ ((λ k. ground arith), outcome_of_state-clean s n (rw h at e))
  ]

  -- A row reads "No issue detected" only for a rule that was in scope and was evaluated, whatever
  -- the findings of the report are and however `%d` prints a number.
  pub row_of-evaluated :
      (r : Report) (rec : RuleExecutionRecord)
      → (row_of decimal r rec).outcome ≡ "No issue detected"
      → (rec.applicability ≢ RuleApplicability.not_applicable)
        × (rec.state ≡ RuleExecutionState.evaluated)
  unfolding row_of
  row_of-evaluated r rec e = rule_outcome_label-clean rec.applicability rec.state _ e
