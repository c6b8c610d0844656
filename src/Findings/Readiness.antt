-- ===== src/Findings/Readiness.antt =====
-- internal/findings/report.go: the upgrade-readiness scorecard, a category for each rule family.
pub mod Laws
pub mod Continue
use kubepreflight.Base.{
  ℕ, ◌+◌, ◌*◌, ◌-◌, String, Bool, true, false, not, ◌==◌, string_eq, if◌then◌else◌, ◌||◌, ◌&&◌,
  Option, none, some, List, [], ◌∷◌, append_unique, map, any, ltb, lookup,
}
use kubepreflight.Base.Int.{ℤ, pos, ◌-ℤ◌, ltb_ℤ}
use kubepreflight.Base.Order.{string_lt}
use kubepreflight.Base.Sorting.{sort}
use kubepreflight.Findings.Types.{Severity, severity_eq}
use kubepreflight.Findings.Context.{UpgradeGate, upgrade_gate_eq}
use kubepreflight.Findings.Finding.{Finding, effective_upgrade_gate}

-- What `Result` returns.
pub data Verdict : Type 0 where
  clean passed_with_warnings blocked incomplete : Verdict

abbrev pub verdict_beq : Verdict → Verdict → Bool
verdict_beq clean clean = true
verdict_beq passed_with_warnings passed_with_warnings = true
verdict_beq blocked blocked = true
verdict_beq incomplete incomplete = true
verdict_beq _ _ = false

pub data CategoryStatus : Type 0 where
  passed warning failed : CategoryStatus

pub record UpgradeReadinessCategory : Type 0 where
  pub name : String
  pub status : CategoryStatus
  pub blocker_count : ℕ
  pub warning_count : ℕ
  pub rule_ids : List String

pub record UpgradeReadinessSummary : Type 0 where
  pub verdict : Verdict
  pub upgrade_continue : Bool
  pub readiness_score : ℤ
  pub categories : List UpgradeReadinessCategory

abbrev pub category_order : List String
category_order =
    "API Compatibility" ∷ "Extension APIs" ∷ "Admission Webhooks" ∷ "Disruption Safety"
    ∷ "Drain Readiness" ∷ "Node Readiness" ∷ "Add-ons" ∷ "CoreDNS" ∷ "Workload Health"
    ∷ "EKS Upgrade Insights" ∷ []

unfoldable pub category_by_rule_id : List (String × String)
category_by_rule_id =
    ("API-001", "API Compatibility")
    ∷ ("API-002", "API Compatibility")
    ∷ ("CRD-001", "Extension APIs")
    ∷ ("CRD-002", "Extension APIs")
    ∷ ("APISERVICE-001", "Extension APIs")
    ∷ ("WH-001", "Admission Webhooks")
    ∷ ("WH-002", "Admission Webhooks")
    ∷ ("WH-004", "Admission Webhooks")
    ∷ ("WH-005", "Admission Webhooks")
    ∷ ("PDB-001", "Disruption Safety")
    ∷ ("PDB-002", "Disruption Safety")
    ∷ ("DRAIN-001", "Drain Readiness")
    ∷ ("DRAIN-002", "Drain Readiness")
    ∷ ("DRAIN-003", "Drain Readiness")
    ∷ ("DRAIN-004", "Drain Readiness")
    ∷ ("DRAIN-005", "Drain Readiness")
    ∷ ("NODE-001", "Node Readiness")
    ∷ ("NODE-002", "Node Readiness")
    ∷ ("NODE-003", "Node Readiness")
    ∷ ("NET-002", "Node Readiness")
    ∷ ("EKS-NG-001", "Node Readiness")
    ∷ ("EKS-NG-002", "Node Readiness")
    ∷ ("EKS-NG-003", "Node Readiness")
    ∷ ("EKS-NG-004", "Node Readiness")
    ∷ ("ADDON-001", "Add-ons")
    ∷ ("ADDON-002", "Add-ons")
    ∷ ("COREDNS-001", "CoreDNS")
    ∷ ("WORKLOAD-001", "Workload Health")
    ∷ ("EKS-INSIGHT-001", "EKS Upgrade Insights")
    ∷ ("EKS-INSIGHT-002", "EKS Upgrade Insights")
    ∷ ("EKS-INSIGHT-003", "EKS Upgrade Insights")
    ∷ []

abbrev empty_category : String → UpgradeReadinessCategory
empty_category n = record {
  name = n;
  status = passed;
  blocker_count = 0;
  warning_count = 0;
  rule_ids = [];
}

abbrev warned : CategoryStatus → CategoryStatus
warned failed = failed
warned _ = warning

-- The `switch` of the loop body, on the gate of the finding.
abbrev count_gate : UpgradeGate → Finding → UpgradeReadinessCategory → UpgradeReadinessCategory
count_gate UpgradeGate.block f cat = record cat {
  blocker_count = cat.blocker_count + 1;
  status = failed;
}
count_gate UpgradeGate.operator_decision f cat = record cat {
  warning_count = cat.warning_count + 1;
  status = warned cat.status;
}
count_gate _ f cat =
    if f.severity == Severity.warning
    then record cat { warning_count = cat.warning_count + 1; status = warned cat.status }
    else cat

count_in_category : Finding → UpgradeReadinessCategory → UpgradeReadinessCategory
count_in_category f cat =
    count_gate (effective_upgrade_gate f) f
      (record cat { rule_ids = append_unique cat.rule_ids f.rule_id })

-- `byCategory[name]`, updated in place; the categories stand in `categoryOrder`.
update_category : String → Finding → List UpgradeReadinessCategory → List UpgradeReadinessCategory
unfolding count_in_category
update_category name f [] = []
update_category name f (cat ∷ cats) =
    let rest = update_category name f cats in
    if cat.name == name then count_in_category f cat ∷ cats else cat ∷ rest

count_finding :
    Finding → Option String → List UpgradeReadinessCategory → List UpgradeReadinessCategory
unfolding update_category
count_finding f none cats = cats
count_finding f (some name) cats = update_category name f cats

count_findings : List Finding → List UpgradeReadinessCategory → List UpgradeReadinessCategory
unfolding count_finding
count_findings [] cats = cats
count_findings (f ∷ fs) cats =
    count_findings fs (count_finding f (lookup f.rule_id category_by_rule_id) cats)

-- `3*(count-1)` and `count-1` are read with the base penalty added first, which is exact at 0 too.
penalty_of : CategoryStatus → UpgradeReadinessCategory → ℕ
penalty_of failed c = let p = 15 + 3 * c.blocker_count - 3 in if ltb 25 p then 25 else p
penalty_of warning c = let p = 5 + c.warning_count - 1 in if ltb 10 p then 10 else p
penalty_of passed c = 0

unfoldable pub category_penalty : UpgradeReadinessCategory → ℕ
unfolding penalty_of
category_penalty cat = penalty_of cat.status cat

-- The loop that subtracts the penalties.
subtract_penalties : ℤ → List UpgradeReadinessCategory → ℤ
unfolding ◌-ℤ◌
subtract_penalties score [] = score
subtract_penalties score (cat ∷ cats) =
    subtract_penalties (score -ℤ pos (category_penalty cat)) cats

any_blocker : List UpgradeReadinessCategory → Bool
any_blocker = any (λ cat. ltb 0 cat.blocker_count)

any_operator_decision : List Finding → Bool
any_operator_decision = any (λ f. effective_upgrade_gate f == UpgradeGate.operator_decision)

sort_rule_ids : UpgradeReadinessCategory → UpgradeReadinessCategory
unfolding sort
sort_rule_ids cat = record cat { rule_ids = sort string_lt cat.rule_ids }

-- The categories after the loop over the findings.
pub readiness_categories : List Finding → List UpgradeReadinessCategory
unfolding count_findings category_by_rule_id sort_rule_ids
readiness_categories fs = map sort_rule_ids (count_findings fs (map empty_category category_order))

unfoldable pub build_upgrade_readiness_summary : List Finding → Verdict → UpgradeReadinessSummary
unfolding readiness_categories subtract_penalties any_blocker any_operator_decision category_penalty
build_upgrade_readiness_summary fs verdict =
    let cats = readiness_categories fs in
    let score = subtract_penalties (pos 100) cats in
    record {
      verdict = verdict;
      upgrade_continue =
          not (verdict_beq verdict incomplete)
          && not (any_blocker cats)
          && not (any_operator_decision fs);
      readiness_score = if ltb_ℤ score (pos 0) then pos 0 else score;
      categories = cats;
    }
