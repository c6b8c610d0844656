-- ===== src/Examples/Loading.antt =====
-- A legacy document: two findings and no record of what ran.
use kubepreflight.Base.{◌≡◌, true, refl}
use kubepreflight.Comparison.Compare.{rule_proven_evaluated}
use kubepreflight.Comparison.Normalize.{
  has_finding, legacy_record, normalize_rule_executions, normalize,
}
use kubepreflight.Comparison.Normalize.Legacy.{
  normalize_rule_executions-has_finding, normalize_idem,
}
use kubepreflight.Examples.Data.{old}

api_backfilled :
    rule_proven_evaluated "API-001" (normalize_rule_executions old).rule_executions ≡ true
unfolding rule_proven_evaluated normalize_rule_executions legacy_record
api_backfilled = refl

normalize_rule_executions-has_finding_example : has_finding old.findings "API-001" ≡ true
normalize_rule_executions-has_finding_example =
    normalize_rule_executions-has_finding old "API-001" refl api_backfilled

normalize_idem_example : normalize (normalize old) ≡ normalize old
normalize_idem_example = normalize_idem old
