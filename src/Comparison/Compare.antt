-- ===== src/Comparison/Compare.antt =====
-- internal/comparison/compare.go: `Compare`.
pub mod Index
pub mod Placed
pub mod Accepted
pub mod Membership
pub mod Counts
pub mod Self
pub mod Proven
pub mod Deterministic
use mathlib.Core.List.{Perm}
use kubepreflight.Base.{
  ℕ, ◌+◌, String, Bool, true, false, not, ◌==◌, ◌/=◌, string_eq, if◌then◌else◌, ◌&&◌, Option, none,
  some, List, [], ◌∷◌, ◌++◌, map, length, any, count, ◌⊎◌, inl, inr,
}
use kubepreflight.Base.Int.{ℤ, pos, ◌-ℤ◌}
use kubepreflight.Base.Sorting.{sort}
use kubepreflight.Findings.Context.{UpgradeContext, upgrade_context_eq, upgrade_context_text}
use kubepreflight.Findings.Execution.{
  RuleApplicability, rule_applicability_eq, RuleExecutionState, rule_execution_state_eq,
  RuleExecutionRecord,
}
use kubepreflight.Findings.Finding.{Finding}
use kubepreflight.Findings.Readiness.{verdict_beq, UpgradeReadinessSummary}
use kubepreflight.Findings.Report.{Report, result}
use kubepreflight.Comparison.Model.{
  Changed, Summary, Warning, target_versions_differ, upgrade_contexts_differ, Comparison,
}
use kubepreflight.Comparison.Sort.{less_entry, less_changed, less_blocker_first, is_blocker}
use kubepreflight.Comparison.Diff.{diff_finding}

-- A `map[string]Finding` keyed by fingerprint is the list of its findings.
abbrev pub find : String → List Finding → Option Finding
find fp [] = none
find fp (f ∷ fs) = if f.fingerprint == fp then some f else find fp fs

abbrev pub is_some {ℓ} : {A : Type ℓ} → Option A → Bool
is_some none = false
is_some (some a) = true

-- The order in which Go's `range` visits a map is not specified: it is an argument, of which only
-- this is known.
pub record MapOrder : Type 0 where
  pub range : List Finding → List Finding
  pub range-perm : (m : List Finding) → Perm (range m) m

pub data IndexError : Type 0 where
  no_fingerprint : Finding → IndexError
  duplicate_fingerprint : Finding → IndexError

-- The loop of `indexByFingerprint`; `seen` is the map so far.
index_from : List Finding → List Finding → List Finding ⊎ IndexError
index_from seen [] = inl seen
index_from seen (f ∷ fs) =
    let rest = index_from (seen ++ (f ∷ [])) fs in
    if f.fingerprint == ""
    then inr (no_fingerprint f)
    else if is_some (find f.fingerprint seen)
    then inr (duplicate_fingerprint f)
    else rest

unfoldable pub index_by_fingerprint : List Finding → List Finding ⊎ IndexError
unfolding index_from
index_by_fingerprint fs = index_from [] fs

-- A map keyed by rule ID, where a later record of a rule replaces an earlier one.
unfoldable pub find_execution : String → List RuleExecutionRecord → Option RuleExecutionRecord
find_execution rule_id [] = none
find_execution rule_id (rec ∷ recs) =
    let later = find_execution rule_id recs in
    elim later [ some r ↦ some r | none ↦ if rec.rule_id == rule_id then some rec else none ]

abbrev proven : Option RuleExecutionRecord → Bool
proven none = false
proven (some rec) =
    rec.applicability == RuleApplicability.applicable && rec.state == RuleExecutionState.evaluated

unfoldable pub rule_proven_evaluated : String → List RuleExecutionRecord → Bool
unfolding find_execution
rule_proven_evaluated rule_id records = proven (find_execution rule_id records)

-- The buckets before they are sorted.
pub record Buckets : Type 0 where
  pub new : List Finding
  pub changed : List Changed
  pub unchanged : List Finding

abbrev pub is_empty {ℓ} : {A : Type ℓ} → List A → Bool
is_empty [] = true
is_empty (x ∷ xs) = false

pub changed_entry : Finding → Finding → Changed
changed_entry bf cf = record {
  fingerprint = cf.fingerprint;
  rule_id = cf.rule_id;
  resources = cf.resources;
  changes = diff_finding bf cf;
}

-- The body of the loop over the current findings, in front of what the rest of the loop gives.
unfoldable pub place : Finding → Option Finding → Buckets → Buckets
unfolding changed_entry
place cf none b = record b { new = cf ∷ b.new }
place cf (some bf) b =
    if is_empty (diff_finding bf cf)
    then record b { unchanged = cf ∷ b.unchanged }
    else record b { changed = changed_entry bf cf ∷ b.changed }

unfoldable pub classify_current : List Finding → List Finding → Buckets
unfolding place
classify_current baseline [] = record { new = []; changed = []; unchanged = [] }
classify_current baseline (cf ∷ cfs) =
    place cf (find cf.fingerprint baseline) (classify_current baseline cfs)

-- The loop over the baseline: the findings that are resolved, and those that are not re-evaluated.
unfoldable pub classify_baseline :
    List Finding → List RuleExecutionRecord → List Finding → List Finding × List Finding
classify_baseline current executions [] = ([], [])
classify_baseline current executions (bf ∷ bfs) =
    let rest = classify_baseline current executions bfs in
    if is_some (find bf.fingerprint current)
    then rest
    else if rule_proven_evaluated bf.rule_id executions
    then (bf ∷ rest.0, rest.1)
    else (rest.0, bf ∷ rest.1)

warnings_of : Report → Report → List Warning
warnings_of baseline current =
    (if baseline.target_version /= current.target_version
      then target_versions_differ baseline.target_version current.target_version ∷ []
      else [])
    ++ (if baseline.upgrade_context /= current.upgrade_context
        then upgrade_contexts_differ baseline.upgrade_context current.upgrade_context ∷ []
        else [])

abbrev score_of : Option UpgradeReadinessSummary → ℤ
score_of none = pos 0
score_of (some s) = s.readiness_score

-- `buildSummary`, from the sorted buckets.
build_summary :
    Report
    → Report
    → List Finding
    → List Finding
    → List Changed
    → List Finding
    → List Finding
    → Summary
unfolding ◌-ℤ◌
build_summary baseline current new resolved changed unchanged not_re_evaluated = record {
  baseline_verdict = result baseline;
  current_verdict = result current;
  baseline_upgrade_context = upgrade_context_text baseline.upgrade_context;
  current_upgrade_context = upgrade_context_text current.upgrade_context;
  verdict_changed = not (verdict_beq (result baseline) (result current));
  baseline_readiness_score = score_of baseline.upgrade_readiness;
  current_readiness_score = score_of current.upgrade_readiness;
  readiness_score_delta = score_of current.upgrade_readiness -ℤ score_of baseline.upgrade_readiness;
  new = length new;
  resolved = length resolved;
  changed = length changed;
  unchanged = length unchanged;
  new_blockers = count is_blocker new;
  resolved_blockers = count is_blocker resolved;
  not_re_evaluated = length not_re_evaluated;
}

-- `Compare` after the two maps are built: `currents` and `baselines` are what `range` gives of
-- them.
assemble : Report → Report → List Finding → List Finding → List Finding → List Finding → Comparison
unfolding warnings_of build_summary classify_current classify_baseline
assemble baseline current by_baseline by_current baselines currents =
    let b = classify_current by_baseline currents in
    let (resolved', not_re_evaluated') =
      classify_baseline by_current current.rule_executions baselines in
    let new = sort less_blocker_first b.new in
    let resolved = sort less_blocker_first resolved' in
    let not_re_evaluated = sort less_blocker_first not_re_evaluated' in
    let unchanged = sort less_entry b.unchanged in
    let changed = sort less_changed b.changed in
    record {
      schema_version = "kubepreflight.io/scan-comparison/v1";
      warnings = warnings_of baseline current;
      summary = build_summary baseline current new resolved changed unchanged not_re_evaluated;
      new = new;
      resolved = resolved;
      changed = changed;
      unchanged = unchanged;
      not_re_evaluated = not_re_evaluated;
    }

pub data CompareError : Type 0 where
  in_baseline in_current : IndexError → CompareError

pub compare_indexes :
    MapOrder
    → Report
    → Report
    → List Finding ⊎ IndexError
    → List Finding ⊎ IndexError
    → Comparison ⊎ CompareError
unfolding assemble
compare_indexes o baseline current (inr e) c = inr (in_baseline e)
compare_indexes o baseline current (inl b) (inr e) = inr (in_current e)
compare_indexes o baseline current (inl b) (inl c) =
    inl (assemble baseline current b c (o.range b) (o.range c))

unfoldable pub compare : MapOrder → Report → Report → Comparison ⊎ CompareError
unfolding compare_indexes
compare o baseline current =
    compare_indexes o baseline current (index_by_fingerprint baseline.findings)
      (index_by_fingerprint current.findings)
