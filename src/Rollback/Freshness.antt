-- ===== src/Rollback/Freshness.antt =====
-- internal/rollback/operational.go: whether a findings report is recent, and the gates for findings
-- that are of another cluster or not recent. Times are nanoseconds since Go's zero time, which is 0.
-- How Go's time package prints a time and an age are arguments.
use kubepreflight.Base.{
  ℕ, ◌+◌, ◌-◌, ◌*◌, String, Bool, true, false, ◌==◌, string_eq, nat_eq, if◌then◌else◌, ltb, List,
  [], ◌∷◌,
}
use kubepreflight.Findings.Report.{Report}
use kubepreflight.Rollback.Types.{CheckStatus}
use kubepreflight.Rollback.Reasons.{
  ReasonCode, code_of, reason_rollback_evidence_stale, reason_rollback_evidence_timestamp_unknown,
}
use kubepreflight.Rollback.Model.{Check}
use kubepreflight.Rollback.Texts.{◌+s◌}
use kubepreflight.Rollback.Checks.{raise}
use kubepreflight.Rollback.Provenance.{
  ClusterEvidenceIdentity, identity_blocks, is_manifest_only_report,
}

pub data FindingsFreshnessStatus : Type 0 where
  fresh stale unknown not_applicable : FindingsFreshnessStatus

pub record FindingsFreshness : Type 0 where
  pub status : FindingsFreshnessStatus
  pub reason : ReasonCode
  pub evidence : List String

abbrev pub freshness_blocks : FindingsFreshness → Bool
freshness_blocks f = elim f.status [
  | FindingsFreshnessStatus.stale ↦ true
  | FindingsFreshnessStatus.unknown ↦ true
  | _ ↦ false
]

abbrev pub second : ℕ
second = 1000000000

-- 24 hours, and a tolerance of 5 minutes for a clock that is ahead.
abbrev pub findings_max_age : ℕ
findings_max_age = 24 * 60 * 60 * second

abbrev pub findings_future_skew_tolerance : ℕ
findings_future_skew_tolerance = 5 * 60 * second

module _ (print_time : ℕ → String) (print_age : ℕ → String) where
  abbrev format_evidence_timestamp : ℕ → String
  format_evidence_timestamp t = if t == 0 then "unknown" else print_time t

  abbrev unknown_age : String → FindingsFreshness
  unknown_age line = record {
    status = FindingsFreshnessStatus.unknown;
    reason = reason_rollback_evidence_timestamp_unknown;
    evidence = ("findings evidence timestamp unknown: " +s line) ∷ [];
  }

  unfoldable pub freshness_between : ℕ → ℕ → FindingsFreshness
  freshness_between scanned_at evaluated_at =
      if scanned_at == 0
      then unknown_age
          ("scannedAt is missing, evaluated at " +s format_evidence_timestamp evaluated_at)
      else if evaluated_at == 0
      then unknown_age (
          "rollback assessment evaluation time is missing, scanned at "
          +s format_evidence_timestamp scanned_at)
      else if ltb (evaluated_at + findings_future_skew_tolerance) scanned_at
      then unknown_age (
          "scanned at "
          +s format_evidence_timestamp scanned_at
          +s " is more than "
          +s print_age findings_future_skew_tolerance
          +s " ahead of evaluation time "
          +s format_evidence_timestamp evaluated_at
          +s " (future clock skew detected)")
      else if ltb findings_max_age (evaluated_at - scanned_at)
      then record {
        status = FindingsFreshnessStatus.stale;
        reason = reason_rollback_evidence_stale;
        evidence =
            ("findings evidence stale: scanned at "
              +s format_evidence_timestamp scanned_at
              +s ", evaluated at "
              +s format_evidence_timestamp evaluated_at
              +s ", age "
              +s print_age (evaluated_at - scanned_at)
              +s " exceeds the "
              +s print_age findings_max_age
              +s " maximum")
            ∷ [];
      }
      else record { status = FindingsFreshnessStatus.fresh; reason = code_of ""; evidence = [] }

  unfoldable pub validate_findings_freshness : Report → ℕ → FindingsFreshness
  validate_findings_freshness r evaluated_at =
      if is_manifest_only_report r
      then record {
        status = FindingsFreshnessStatus.not_applicable;
        reason = code_of "";
        evidence = [];
      }
      else freshness_between r.scanned_at evaluated_at

abbrev pub apply_identity_gate : Check → ClusterEvidenceIdentity → Check
apply_identity_gate check id = raise check CheckStatus.unknown id.reason id.evidence

abbrev pub apply_freshness_gate : Check → FindingsFreshness → Check
apply_freshness_gate check f = raise check CheckStatus.unknown f.reason f.evidence

unfoldable pub apply_provenance_gates : Check → ClusterEvidenceIdentity → FindingsFreshness → Check
apply_provenance_gates check id f =
    let gated = if identity_blocks id then apply_identity_gate check id else check in
    if freshness_blocks f then apply_freshness_gate gated f else gated
