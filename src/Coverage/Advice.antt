-- ===== src/Coverage/Advice.antt =====
-- The advisories of the coverage: when nothing is said.
use mathlib.Core.Logic.{◌↔◌}
use text.Mathlib.TextLemmas.{append-ne-nil_of_right_ne-nil}
use kubepreflight.Base.{ℕ, ◌≡◌, String, Bool, true, false, if◌then◌else◌, refl, List, length, ltb}
use kubepreflight.Findings.Execution.{ScanCoverage}
use kubepreflight.Coverage.Status.{
  EvaluationCoverageStatus, complete, partial, unavailable, normalized_legacy, EvaluationCoverage,
  OverallCoverage, advisory_of, evaluation_advisory, overall_advisory_of, overall_advisory,
  build_overall_coverage, overall_of, degraded_planes_of,
}

module _ (decimal : ℕ → String) where
  advisory_of_iff :
      (s : EvaluationCoverageStatus) (c : EvaluationCoverage)
      → (advisory_of decimal s c ≡ "") ↔ (s ≡ complete)
  unfolding advisory_of
  advisory_of_iff partial c = (λ h. absurd (append-ne-nil_of_right_ne-nil _ (λ k. cc) h), λ k. cc)
  advisory_of_iff unavailable c = (λ h. cc, λ k. cc)
  advisory_of_iff normalized_legacy c = (λ h. cc, λ k. cc)
  advisory_of_iff complete c = (λ h. refl, λ k. refl)

  overall_partial :
      (b : Bool) (o : OverallCoverage)
      → (overall_advisory_of decimal (if b then partial else complete) o ≡ "")
        ↔ ((if b then partial else complete) ≡ complete)
  unfolding overall_advisory_of
  overall_partial true o = (λ h. absurd (append-ne-nil_of_right_ne-nil _ (λ k. cc) h), λ k. cc)
  overall_partial false o = (λ h. refl, λ k. refl)

  overall_of_iff :
      (s : EvaluationCoverageStatus) (c : EvaluationCoverage) (planes : List String)
      → s ≡ c.status
      → (overall_advisory decimal (overall_of s c planes) ≡ "")
        ↔ ((overall_of s c planes).status ≡ complete)
  unfolding overall_of overall_advisory
  overall_of_iff complete c planes e =
      overall_partial (ltb 0 (length planes)) (overall_of complete c planes)
  overall_of_iff partial c planes e = overall_partial true (overall_of partial c planes)
  overall_of_iff unavailable c planes e =
      unfold overall_advisory_of evaluation_advisory in rw e (advisory_of_iff c.status c)
  overall_of_iff normalized_legacy c planes e =
      unfold overall_advisory_of evaluation_advisory in rw e (advisory_of_iff c.status c)

  -- The advisory on the combined coverage is empty exactly if its status is complete, however `%d`
  -- prints a number.
  pub overall_advisory_iff :
      (c : EvaluationCoverage) (sc : ScanCoverage)
      → (overall_advisory decimal (build_overall_coverage c sc) ≡ "")
        ↔ ((build_overall_coverage c sc).status ≡ complete)
  unfolding build_overall_coverage
  overall_advisory_iff c sc = overall_of_iff c.status c (degraded_planes_of sc) refl
