-- ===== src/Comparison/Compare/Counts.antt =====
-- The counts of a comparison's summary.
use native.Mathlib.Nat.{ℕ_set}
use mathlib.Core.Logic.{∥∥₁_elim}
use mathlib.Core.List.{Perm, Permᴰ}
use kubepreflight.Base.{
  ℕ, ◌+◌, Bool, Option, none, some, List, [], ◌∷◌, length, count, ◌≡◌, refl, ◌∙◌, arith, inl,
  string_eq,
}
use kubepreflight.Base.Sorting.{sort, sort-perm, length-perm}
use kubepreflight.Findings.Execution.{RuleExecutionRecord}
use kubepreflight.Findings.Finding.{Finding}
use kubepreflight.Findings.Report.{Report}
use kubepreflight.Comparison.Model.{Comparison}
use kubepreflight.Comparison.Sort.{less_entry, less_changed, less_blocker_first}
use kubepreflight.Comparison.Compare.{
  find, is_some, MapOrder, Buckets, place, classify_current, classify_baseline, compare, assemble,
  build_summary,
}
use kubepreflight.Comparison.Compare.Accepted.{document, compare-inl_iff}

abbrev size : Buckets → ℕ
size b = length b.new + length b.changed + length b.unchanged

size-place : (cf : Finding) (o : Option Finding) (b : Buckets) → size (place cf o b) ≡ size b + 1
unfolding place
size-place cf none b = omega arith
size-place cf (some bf) b = ground arith

size-classify_current :
    (baseline cs : List Finding) → size (classify_current baseline cs) ≡ length cs
unfolding classify_current
size-classify_current baseline [] = refl
size-classify_current baseline (cf ∷ cfs) = omega (
  arith,
  size-place cf (find cf.fingerprint baseline) (classify_current baseline cfs),
  size-classify_current baseline cfs,
)

-- Whether a finding of the baseline is still reported.
abbrev pub persists : List Finding → Finding → Bool
persists current bf = is_some (find bf.fingerprint current)

classify_baseline_size :
    (current : List Finding) (ex : List RuleExecutionRecord) (bs : List Finding)
    → length (classify_baseline current ex bs).0
        + length (classify_baseline current ex bs).1
        + count (persists current) bs
      ≡ length bs
unfolding classify_baseline
classify_baseline_size current ex [] = refl
classify_baseline_size current ex (bf ∷ bfs) = ground (arith, classify_baseline_size current ex bfs)

length-sort {ℓ} : {A : Type ℓ} (less : A → A → Bool) (l : List A) → length (sort less l) ≡ length l
length-sort less l = length-perm (sort-perm less l)

count-permᴰ {ℓ} : {A : Type ℓ} (p : A → Bool) {l r : List A} → Permᴰ l r → count p l ≡ count p r
count-permᴰ p Permᴰ.nil = refl
count-permᴰ p (Permᴰ.cons e d) = rw e (omega (arith, count-permᴰ p d))
count-permᴰ p (Permᴰ.swap e₁ e₂) = rw (e₁, e₂) (omega arith)
count-permᴰ p (Permᴰ.trans d₁ d₂) = count-permᴰ p d₁ ∙ count-permᴰ p d₂

count-perm {ℓ} : {A : Type ℓ} (p : A → Bool) {l r : List A} → Perm l r → count p l ≡ count p r
count-perm p d = ∥∥₁_elim d (ℕ_set _ _) (count-permᴰ p)

document_counts :
    (o : MapOrder) (b c : Report)
    → let d = document o b c in
      (d.summary.new ≡ length d.new)
      × (d.summary.resolved ≡ length d.resolved)
      × (d.summary.not_re_evaluated ≡ length d.not_re_evaluated)
      × (d.summary.new + d.summary.changed + d.summary.unchanged ≡ length c.findings)
      × (d.summary.resolved + d.summary.not_re_evaluated + count (persists c.findings) b.findings
          ≡ length b.findings)
unfolding document assemble build_summary
document_counts o b c =
    let bk = classify_current b.findings (o.range c.findings) in
    let gone = classify_baseline c.findings c.rule_executions (o.range b.findings) in
    (
      refl,
      refl,
      refl,
      omega (
        arith,
        length-sort less_blocker_first bk.new,
        length-sort less_changed bk.changed,
        length-sort less_entry bk.unchanged,
        size-classify_current b.findings (o.range c.findings),
        length-perm (o.range-perm c.findings),
      ),
      omega (
        arith,
        length-sort less_blocker_first gone.0,
        length-sort less_blocker_first gone.1,
        classify_baseline_size c.findings c.rule_executions (o.range b.findings),
        length-perm (o.range-perm b.findings),
        count-perm (persists c.findings) (o.range-perm b.findings),
      ),
    )

-- Where `Compare` succeeds, the summary counts the new, resolved and not re-evaluated findings; the
-- numbers of new, changed and unchanged findings add up to that of the current ones; and the
-- numbers of resolved, of not re-evaluated and of still reported findings add up to that of the
-- baseline.
pub compare_counts :
    (o : MapOrder) (b c : Report) (d : Comparison)
    → compare o b c ≡ inl d
    → (d.summary.new ≡ length d.new)
      × (d.summary.resolved ≡ length d.resolved)
      × (d.summary.not_re_evaluated ≡ length d.not_re_evaluated)
      × (d.summary.new + d.summary.changed + d.summary.unchanged ≡ length c.findings)
      × (d.summary.resolved + d.summary.not_re_evaluated + count (persists c.findings) b.findings
          ≡ length b.findings)
compare_counts o b c d h = rw ((compare-inl_iff o b c d).0 h).0 (document_counts o b c)
