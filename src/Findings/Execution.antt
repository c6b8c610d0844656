-- ===== src/Findings/Execution.antt =====
-- internal/findings/report.go: coverage of the evidence planes, and what became of each rule.
-- `other t` is a value `t` that is none of the constants, as a document read from JSON may
-- hold; `…_text` gives the string that a value is.
use kubepreflight.Base.{
  String, ◌≡◌, ◌↔◌, Bool, true, false, ◌==◌, Eq, eq_iff, arith, string_eq, List,
}

pub data CoverageStatus : Type 0 where
  complete partial skipped : CoverageStatus
  other : String → CoverageStatus

abbrev pub coverage_status_text : CoverageStatus → String
coverage_status_text CoverageStatus.complete = "complete"
coverage_status_text CoverageStatus.partial = "partial"
coverage_status_text CoverageStatus.skipped = "skipped"
coverage_status_text (CoverageStatus.other t) = t

abbrev pub coverage_status_beq : CoverageStatus → CoverageStatus → Bool
coverage_status_beq CoverageStatus.complete CoverageStatus.complete = true
coverage_status_beq CoverageStatus.partial CoverageStatus.partial = true
coverage_status_beq CoverageStatus.skipped CoverageStatus.skipped = true
coverage_status_beq (CoverageStatus.other s) (CoverageStatus.other t) = s == t
coverage_status_beq _ _ = false

pub coverage_status_beq_iff : (a b : CoverageStatus) → (coverage_status_beq a b ≡ true) ↔ (a ≡ b)
coverage_status_beq_iff (CoverageStatus.other s) (CoverageStatus.other t) =
    ground (arith, eq_iff s t)
coverage_status_beq_iff _ _ = ground arith

instance abbrev pub coverage_status_eq : Eq CoverageStatus
coverage_status_eq = record { beq = coverage_status_beq; beq_iff = coverage_status_beq_iff }

pub data RuleApplicability : Type 0 where
  applicable not_applicable : RuleApplicability
  other : String → RuleApplicability

abbrev pub rule_applicability_text : RuleApplicability → String
rule_applicability_text RuleApplicability.applicable = "applicable"
rule_applicability_text RuleApplicability.not_applicable = "not_applicable"
rule_applicability_text (RuleApplicability.other t) = t

abbrev pub rule_applicability_beq : RuleApplicability → RuleApplicability → Bool
rule_applicability_beq RuleApplicability.applicable RuleApplicability.applicable = true
rule_applicability_beq RuleApplicability.not_applicable RuleApplicability.not_applicable = true
rule_applicability_beq (RuleApplicability.other s) (RuleApplicability.other t) = s == t
rule_applicability_beq _ _ = false

pub rule_applicability_beq_iff :
    (a b : RuleApplicability) → (rule_applicability_beq a b ≡ true) ↔ (a ≡ b)
rule_applicability_beq_iff (RuleApplicability.other s) (RuleApplicability.other t) =
    ground (arith, eq_iff s t)
rule_applicability_beq_iff _ _ = ground arith

instance abbrev pub rule_applicability_eq : Eq RuleApplicability
rule_applicability_eq = record {
  beq = rule_applicability_beq;
  beq_iff = rule_applicability_beq_iff;
}

pub data RuleExecutionState : Type 0 where
  evaluated not_evaluated insufficient_evidence failed : RuleExecutionState
  other : String → RuleExecutionState

abbrev pub rule_execution_state_text : RuleExecutionState → String
rule_execution_state_text RuleExecutionState.evaluated = "evaluated"
rule_execution_state_text RuleExecutionState.not_evaluated = "not_evaluated"
rule_execution_state_text RuleExecutionState.insufficient_evidence = "insufficient_evidence"
rule_execution_state_text RuleExecutionState.failed = "failed"
rule_execution_state_text (RuleExecutionState.other t) = t

abbrev pub rule_execution_state_beq : RuleExecutionState → RuleExecutionState → Bool
rule_execution_state_beq RuleExecutionState.evaluated RuleExecutionState.evaluated = true
rule_execution_state_beq RuleExecutionState.not_evaluated RuleExecutionState.not_evaluated = true
rule_execution_state_beq RuleExecutionState.insufficient_evidence
      RuleExecutionState.insufficient_evidence =
    true
rule_execution_state_beq RuleExecutionState.failed RuleExecutionState.failed = true
rule_execution_state_beq (RuleExecutionState.other s) (RuleExecutionState.other t) = s == t
rule_execution_state_beq _ _ = false

pub rule_execution_state_beq_iff :
    (a b : RuleExecutionState) → (rule_execution_state_beq a b ≡ true) ↔ (a ≡ b)
rule_execution_state_beq_iff (RuleExecutionState.other s) (RuleExecutionState.other t) =
    ground (arith, eq_iff s t)
rule_execution_state_beq_iff _ _ = ground arith

instance abbrev pub rule_execution_state_eq : Eq RuleExecutionState
rule_execution_state_eq = record {
  beq = rule_execution_state_beq;
  beq_iff = rule_execution_state_beq_iff;
}

pub record PlaneCoverage : Type 0 where
  pub status : CoverageStatus
  pub errors : List String

pub record ScanCoverage : Type 0 where
  pub kubernetes : PlaneCoverage
  pub aws : PlaneCoverage
  pub manifests : PlaneCoverage

pub record RuleExecutionRecord : Type 0 where
  pub rule_id : String
  pub applicability : RuleApplicability
  pub state : RuleExecutionState
  pub reason : String
