-- ===== src/Rollback/Checks.antt =====
-- internal/rollback/operational.go: the status of a check, the signals of findings, and the
-- readiness that checks amount to.
pub mod Laws
use Prim.Native.String as Str
use kubepreflight.Base.{
  ℕ, ◌+◌, String, Bool, true, false, ◌||◌, ◌==◌, string_eq, if◌then◌else◌, ltb, List, [], ◌∷◌, ◌++◌,
  any, filter, append_unique, codes,
}
use kubepreflight.Findings.Types.{Severity, severity_text}
use kubepreflight.Findings.Finding.{Finding}
use kubepreflight.Rollback.Types.{
  ReadinessStatus, readiness_status_eq, CheckStatus, check_status_eq,
}
use kubepreflight.Rollback.Reasons.{ReasonCode, reason_code_eq}
use kubepreflight.Rollback.Model.{Check, Readiness}
use kubepreflight.Rollback.Texts.{has_prefix, last_is_dash}

abbrev pub check_rank : CheckStatus → ℕ
check_rank CheckStatus.fail = 3
check_rank CheckStatus.unknown = 2
check_rank CheckStatus.warning = 1
check_rank _ = 0

abbrev pub max_check_status : CheckStatus → CheckStatus → CheckStatus
max_check_status a b = if ltb (check_rank a) (check_rank b) then b else a

-- `check.Status = maxCheckStatus(check.Status, s)` with a reason and evidence.
abbrev pub raise : Check → CheckStatus → ReasonCode → List String → Check
raise check status reason evidence = record check {
  status = max_check_status check.status status;
  reason_codes = append_unique check.reason_codes reason;
  evidence = check.evidence ++ evidence;
}

abbrev pub rule_matches_one : String → String → Bool
rule_matches_one rule_id prefix =
    if last_is_dash (codes prefix) then has_prefix rule_id prefix else rule_id == prefix

unfoldable pub rule_matches : String → List String → Bool
rule_matches rule_id prefixes = any (rule_matches_one rule_id) prefixes

unfoldable pub findings_with_prefixes : List Finding → List String → List Finding
findings_with_prefixes fs prefixes = filter (λ f. rule_matches f.rule_id prefixes) fs

-- The format `%s %s: %s`.
abbrev pub finding_line : Finding → String
finding_line f =
    Str.◌++◌ f.rule_id
      (Str.◌++◌ " " (Str.◌++◌ (severity_text f.severity) (Str.◌++◌ ": " f.message)))

abbrev pub signal_status : Severity → CheckStatus
signal_status Severity.blocker = CheckStatus.fail
signal_status _ = CheckStatus.warning

unfoldable pub apply_finding_signals : Check → List Finding → List String → ReasonCode → Check
apply_finding_signals check [] prefixes reason = check
apply_finding_signals check (f ∷ fs) prefixes reason =
    apply_finding_signals
      (if rule_matches f.rule_id prefixes
        then raise check (signal_status f.severity) reason (finding_line f ∷ [])
        else check)
      fs prefixes reason

-- The three counters of `readinessFromChecks`.
abbrev pub count_check : CheckStatus → Readiness → Readiness
count_check CheckStatus.fail r = record r { blockers = r.blockers + 1 }
count_check CheckStatus.warning r = record r { warnings = r.warnings + 1 }
count_check CheckStatus.unknown r = record r { unknowns = r.unknowns + 1 }
count_check _ r = r

unfoldable pub count_checks : Readiness → List Check → Readiness
count_checks r [] = r
count_checks r (check ∷ checks) = count_checks (count_check check.status r) checks

abbrev pub readiness_of_counts : Readiness → Readiness
readiness_of_counts r = record r {
  status =
      if ltb 0 r.blockers
      then ReadinessStatus.blocked
      else if ltb 0 r.unknowns
      then ReadinessStatus.insufficient_evidence
      else if ltb 0 r.warnings
      then ReadinessStatus.high_risk
      else ReadinessStatus.ready;
}

abbrev pub no_readiness : Readiness
no_readiness = record {
  status = ReadinessStatus.other "";
  blockers = 0;
  warnings = 0;
  unknowns = 0;
}

unfoldable pub readiness_from_checks : List Check → Readiness
readiness_from_checks checks = readiness_of_counts (count_checks no_readiness checks)

abbrev pub combined_status : ReadinessStatus → ReadinessStatus → ReadinessStatus
combined_status existing operational =
    if existing == ReadinessStatus.blocked || operational == ReadinessStatus.blocked
    then ReadinessStatus.blocked
    else if existing == ReadinessStatus.insufficient_evidence
        || operational == ReadinessStatus.insufficient_evidence
    then ReadinessStatus.insufficient_evidence
    else ReadinessStatus.high_risk

unfoldable pub combine_readiness : Readiness → Readiness → Readiness
combine_readiness existing operational =
    if existing.status == ReadinessStatus.other "" || existing.status == ReadinessStatus.ready
    then operational
    else if operational.status == ReadinessStatus.ready
    then existing
    else record {
      status = combined_status existing.status operational.status;
      blockers = existing.blockers + operational.blockers;
      warnings = existing.warnings + operational.warnings;
      unknowns = existing.unknowns + operational.unknowns;
    }

unfoldable pub has_unknown_check : List Check → Bool
has_unknown_check checks = any (λ c. c.status == CheckStatus.unknown) checks
