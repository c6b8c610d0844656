-- ===== src/Comparison/Model.antt =====
-- internal/comparison/model.go: the comparison document.
use kubepreflight.Base.{ℕ, String, Bool, List}
use kubepreflight.Base.Int.{ℤ}
use kubepreflight.Findings.Context.{UpgradeContext}
use kubepreflight.Findings.Reference.{ResourceReference}
use kubepreflight.Findings.Finding.{Finding}
use kubepreflight.Findings.Readiness.{Verdict}

pub record FieldChange : Type 0 where
  pub before : String
  pub after : String

-- `Changes` is a map from the names of the tracked fields; the names and their changes, in the
-- order in which `diffFinding` looks at the fields.
pub record Changed : Type 0 where
  pub fingerprint : String
  pub rule_id : String
  pub resources : List ResourceReference
  pub changes : List (String × FieldChange)

pub record Summary : Type 0 where
  pub baseline_verdict : Verdict
  pub current_verdict : Verdict
  pub baseline_upgrade_context : String
  pub current_upgrade_context : String
  pub verdict_changed : Bool
  pub baseline_readiness_score : ℤ
  pub current_readiness_score : ℤ
  pub readiness_score_delta : ℤ
  pub new : ℕ
  pub resolved : ℕ
  pub changed : ℕ
  pub unchanged : ℕ
  pub new_blockers : ℕ
  pub resolved_blockers : ℕ
  pub not_re_evaluated : ℕ

-- The two texts that `Compare` puts in `Warnings`, with the values that they print.
pub data Warning : Type 0 where
  target_versions_differ : String → String → Warning
  upgrade_contexts_differ : UpgradeContext → UpgradeContext → Warning

-- An `Entry` is the finding that it embeds.
pub record Comparison : Type 0 where
  pub schema_version : String
  pub warnings : List Warning
  pub summary : Summary
  pub new : List Finding
  pub resolved : List Finding
  pub changed : List Changed
  pub unchanged : List Finding
  pub not_re_evaluated : List Finding
