-- ===== src/Comparison/Compare/Placed.antt =====
-- The buckets of `Compare`, finding by finding: each is a filter of the findings that were visited.
use mathlib.Core.List.{filter_map, filter_map-cons-some, filter_map-cons-none}
use kubepreflight.Base.{
  string_eq, if◌then◌else◌, Option, none, some, List, [], ◌∷◌, ◌≡◌, refl, ap, ◌∙◌, sym, arith, inl,
  inr, Bool-cases, Option-cases,
}
use kubepreflight.Findings.Execution.{RuleExecutionRecord}
use kubepreflight.Findings.Finding.{Finding}
use kubepreflight.Comparison.Model.{Changed}
use kubepreflight.Comparison.Diff.{diff_finding}
use kubepreflight.Comparison.Compare.{
  find, is_some, is_empty, changed_entry, place, Buckets, classify_current, classify_baseline,
  rule_proven_evaluated,
}

unfoldable pub new_at : Finding → Option Finding → Option Finding
new_at cf none = some cf
new_at cf (some bf) = none

unfoldable pub changed_at : Finding → Option Finding → Option Changed
changed_at cf none = none
changed_at cf (some bf) = if is_empty (diff_finding bf cf) then none else some (changed_entry bf cf)

unfoldable pub unchanged_at : Finding → Option Finding → Option Finding
unchanged_at cf none = none
unchanged_at cf (some bf) = if is_empty (diff_finding bf cf) then some cf else none

unfoldable pub as_new : List Finding → Finding → Option Finding
unfolding new_at
as_new baseline cf = new_at cf (find cf.fingerprint baseline)

unfoldable pub as_changed : List Finding → Finding → Option Changed
unfolding changed_at
as_changed baseline cf = changed_at cf (find cf.fingerprint baseline)

unfoldable pub as_unchanged : List Finding → Finding → Option Finding
unfolding unchanged_at
as_unchanged baseline cf = unchanged_at cf (find cf.fingerprint baseline)

unfoldable pub as_resolved : List Finding → List RuleExecutionRecord → Finding → Option Finding
as_resolved current executions bf =
    if is_some (find bf.fingerprint current)
    then none
    else if rule_proven_evaluated bf.rule_id executions
    then some bf
    else none

unfoldable pub as_not_re_evaluated :
    List Finding → List RuleExecutionRecord → Finding → Option Finding
as_not_re_evaluated current executions bf =
    if is_some (find bf.fingerprint current)
    then none
    else if rule_proven_evaluated bf.rule_id executions
    then none
    else some bf

-- What the head of a list adds to what its tail gives.
abbrev pub prepend {ℓ} : {A : Type ℓ} → Option A → List A → List A
prepend none xs = xs
prepend (some x) xs = x ∷ xs

pub filter_map-prepend {ℓ κ} :
    {A : Type ℓ} {B : Type κ} (f : A → Option B) (x : A) (xs : List A)
    → filter_map f (x ∷ xs) ≡ prepend (f x) (filter_map f xs)
filter_map-prepend f x xs = elim (Option-cases (f x)) [
  | inl h ↦ rw h (filter_map-cons-none f x xs h)
  | inr (b, h) ↦ rw h (filter_map-cons-some f x xs h)
]

place-buckets :
    (cf : Finding) (o : Option Finding) (b : Buckets)
    → (place cf o b).new ≡ prepend (new_at cf o) b.new
      × (place cf o b).changed ≡ prepend (changed_at cf o) b.changed
      × (place cf o b).unchanged ≡ prepend (unchanged_at cf o) b.unchanged
unfolding place changed_at unchanged_at new_at
place-buckets cf none b = (refl, refl, refl)
place-buckets cf (some bf) b = elim (Bool-cases (is_empty (diff_finding bf cf))) [
  | inl h ↦ rw h (refl, refl, refl)
  | inr h ↦ rw h (refl, refl, refl)
]

pub classify_current-cons :
    (baseline : List Finding) (cf : Finding) (cfs : List Finding)
    → classify_current baseline (cf ∷ cfs)
      ≡ place cf (find cf.fingerprint baseline) (classify_current baseline cfs)
unfolding classify_current
classify_current-cons baseline cf cfs = refl

pub classify_current-filter_map :
    (baseline currents : List Finding)
    → (classify_current baseline currents).new ≡ filter_map (as_new baseline) currents
      × (classify_current baseline currents).changed ≡ filter_map (as_changed baseline) currents
      × (classify_current baseline currents).unchanged ≡ filter_map (as_unchanged baseline) currents
unfolding as_new as_changed as_unchanged
classify_current-filter_map baseline [] = unfold classify_current filter_map in (refl, refl, refl)
classify_current-filter_map baseline (cf ∷ cfs) =
    let (n, c, u) =
      place-buckets cf (find cf.fingerprint baseline) (classify_current baseline cfs) in
    let (i, j, k) = classify_current-filter_map baseline cfs in
    let e = classify_current-cons baseline cf cfs in
    (
      ap (λ b. b.new) e ∙ n ∙ ap (prepend _) i ∙ sym (filter_map-prepend (as_new baseline) cf cfs),
      ap (λ b. b.changed) e
          ∙ c
          ∙ ap (prepend _) j
          ∙ sym (filter_map-prepend (as_changed baseline) cf cfs),
      ap (λ b. b.unchanged) e
          ∙ u
          ∙ ap (prepend _) k
          ∙ sym (filter_map-prepend (as_unchanged baseline) cf cfs),
    )

classify_baseline-cons :
    (current : List Finding) (ex : List RuleExecutionRecord) (bf : Finding) (bfs : List Finding)
    → let rest = classify_baseline current ex bfs in
      ((classify_baseline current ex (bf ∷ bfs)).0 ≡ prepend (as_resolved current ex bf) rest.0)
      × ((classify_baseline current ex (bf ∷ bfs)).1
          ≡ prepend (as_not_re_evaluated current ex bf) rest.1)
unfolding classify_baseline as_resolved as_not_re_evaluated
classify_baseline-cons current ex bf bfs = ground arith

pub classify_baseline-filter_map :
    (current : List Finding) (ex : List RuleExecutionRecord) (baselines : List Finding)
    → (classify_baseline current ex baselines).0 ≡ filter_map (as_resolved current ex) baselines
      × (classify_baseline current ex baselines).1
        ≡ filter_map (as_not_re_evaluated current ex) baselines
classify_baseline-filter_map current ex [] = unfold classify_baseline filter_map in (refl, refl)
classify_baseline-filter_map current ex (bf ∷ bfs) =
    let (r, n) = classify_baseline-cons current ex bf bfs in
    let (i, j) = classify_baseline-filter_map current ex bfs in
    (
      r ∙ ap (prepend _) i ∙ sym (filter_map-prepend (as_resolved current ex) bf bfs),
      n ∙ ap (prepend _) j ∙ sym (filter_map-prepend (as_not_re_evaluated current ex) bf bfs),
    )
