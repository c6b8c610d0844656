-- ===== src/Comparison/Normalize/Legacy.antt =====
-- What the normalization of a document keeps up.
use kubepreflight.Base.{
  ◌≡◌, ◌≢◌, refl, ap, sym, ◌∙◌, String, true, false, string_eq, Option, none, some, List, [], ◌∷◌,
  map, arith,
}
use mathlib.Core.Path.{ap₂}
use kubepreflight.Findings.Execution.{
  rule_applicability_eq, RuleExecutionState, rule_execution_state_eq, RuleExecutionRecord,
}
use kubepreflight.Findings.Finding.{Finding}
use kubepreflight.Findings.Priority.Laws.{assign_priority_idem}
use kubepreflight.Comparison.Compare.Proven.{proven_lem, find_execution-map}
use kubepreflight.Coverage.Status.{complete}
use kubepreflight.Coverage.Laws.{overall, overall-complete_iff}
use kubepreflight.Findings.ApiCompat.{ApiCompatibilitySummary}
use kubepreflight.Findings.Readiness.{UpgradeReadinessSummary}
use kubepreflight.Findings.Report.{Report}
use kubepreflight.Comparison.Compare.{rule_proven_evaluated}
use kubepreflight.Comparison.Normalize.{
  expected_rule_ids, has_finding, legacy_record, backfill, normalize_rule_executions, or_some,
  prioritize, fill, normalize,
}

prioritize_idem : (f : Finding) → prioritize (prioritize f) ≡ prioritize f
unfolding prioritize
prioritize_idem f = ground (arith, assign_priority_idem f)

map-prioritize_idem : (fs : List Finding) → map prioritize (map prioritize fs) ≡ map prioritize fs
map-prioritize_idem [] = refl
map-prioritize_idem (f ∷ fs) = ap₂ ◌∷◌ (prioritize_idem f) (map-prioritize_idem fs)

legacy_record_lem :
    (fs : List Finding) (rule_id : String)
    → ((legacy_record fs rule_id).rule_id ≡ rule_id)
      × ((legacy_record fs rule_id).state ≡ RuleExecutionState.evaluated
          → has_finding fs rule_id ≡ true)
unfolding legacy_record
legacy_record_lem fs rule_id = ground arith

-- In a report that recorded no executions, normalization proves a rule to have run only if the
-- report has a finding of that rule: the absence of a finding is never taken for a clean run.
pub normalize_rule_executions-has_finding :
    (r : Report) (rule_id : String)
    → r.rule_executions ≡ []
    → rule_proven_evaluated rule_id (normalize_rule_executions r).rule_executions ≡ true
    → has_finding r.findings rule_id ≡ true
unfolding normalize_rule_executions
normalize_rule_executions-has_finding r rule_id e h =
    let k : rule_proven_evaluated rule_id (backfill [] r).rule_executions ≡ true = rw e at h in
    let (rec, q, s) =
      proven_lem rule_id (map (legacy_record r.findings) expected_rule_ids)
        (unfold backfill in k) in
    let t =
      find_execution-map (legacy_record r.findings) (λ id. (legacy_record_lem r.findings id).0)
        rule_id expected_rule_ids rec q in
    (legacy_record_lem r.findings rule_id).1 (ap (λ u. u.state) (sym t) ∙ s)

-- The combined coverage of a normalized report without records of its own never reads complete.
pub normalize_rule_executions-overall :
    (r : Report)
    → r.rule_executions ≡ []
    → (overall (normalize_rule_executions r)).status ≢ complete
unfolding normalize_rule_executions
normalize_rule_executions-overall r e h =
    let (c, n, norm, o) = (overall-complete_iff (backfill r.rule_executions r)).0 h in
    let k : (backfill [] r).rule_executions_normalized ≡ false = rw e at norm in
    unfold backfill in cc

backfill_idem :
    (recs : List RuleExecutionRecord) (r : Report)
    → r.rule_executions ≡ recs
    → normalize_rule_executions (backfill recs r) ≡ backfill recs r
unfolding normalize_rule_executions backfill
backfill_idem [] r e = refl
backfill_idem (rec ∷ recs) r e = rw e refl

-- Both summaries are there and every finding has its priority.
record IsFilled (r : Report) : Type 0 where
  api : (d : ApiCompatibilitySummary) → or_some r.api_compatibility d ≡ r.api_compatibility
  readiness : (d : UpgradeReadinessSummary) → or_some r.upgrade_readiness d ≡ r.upgrade_readiness
  priorities : map prioritize r.findings ≡ r.findings

or_some_twice {ℓ} : {A : Type ℓ} (o : Option A) (c d : A) → or_some (or_some o c) d ≡ or_some o c
or_some_twice none c d = refl
or_some_twice (some a) c d = refl

fill-IsFilled : (r : Report) → IsFilled (fill r)
unfolding fill
fill-IsFilled r = record {
  api = λ d. or_some_twice r.api_compatibility _ d;
  readiness = λ d. or_some_twice r.upgrade_readiness _ d;
  priorities = map-prioritize_idem r.findings;
}

backfill-IsFilled :
    (recs : List RuleExecutionRecord) (r : Report) → IsFilled r → IsFilled (backfill recs r)
unfolding backfill
backfill-IsFilled [] r f = record {
  api = f.api;
  readiness = f.readiness;
  priorities = f.priorities;
}
backfill-IsFilled (rec ∷ recs) r f = f

fill_filled : (r : Report) → IsFilled r → fill r ≡ r
unfolding fill
fill_filled r f = rw (f.api, f.readiness, f.priorities) refl

-- A second normalization changes nothing.
pub normalize_idem : (r : Report) → normalize (normalize r) ≡ normalize r
unfolding normalize
normalize_idem r =
    let x = normalize_rule_executions (fill r) in
    let f : IsFilled x =
      unfold normalize_rule_executions in
      backfill-IsFilled (fill r).rule_executions (fill r) (fill-IsFilled r) in
    ap normalize_rule_executions (fill_filled x f)
    ∙ (unfold normalize_rule_executions in backfill_idem (fill r).rule_executions (fill r) refl)
