-- ===== src/Comparison/Compare/Membership.antt =====
-- Which findings stand in which bucket of a comparison.
use mathlib.Core.Logic.{∥∥₁_elim, ◌↔◌}
use mathlib.Core.Option.{some-injective}
use mathlib.Core.Bool.{Bool-set}
use mathlib.Core.HLevel.{×_prop}
use mathlib.Core.List.{Mem, Mem-prop, filter_map, mem-filter_map}
use mathlib.Core.List.Perm
use kubepreflight.Base.{
  String, Bool, true, false, Option, some, List, [], ◌∷◌, ◌≡◌, refl, ap, arith, inl, subst,
}
use kubepreflight.Base.Sorting.{sort, sort-perm}
use kubepreflight.Findings.Execution.{RuleExecutionRecord}
use kubepreflight.Findings.Finding.{Finding}
use kubepreflight.Findings.Report.{Report}
use kubepreflight.Comparison.Model.{Comparison}
use kubepreflight.Comparison.Sort.{less_blocker_first}
use kubepreflight.Comparison.Compare.{MapOrder, rule_proven_evaluated, compare, assemble}
use kubepreflight.Comparison.Compare.Index.{Fresh, find_none-Fresh, Fresh-find-none}
use kubepreflight.Comparison.Compare.Placed.{
  new_at, as_new, as_resolved, as_not_re_evaluated, classify_current-filter_map,
  classify_baseline-filter_map,
}
use kubepreflight.Comparison.Compare.Accepted.{document, compare-inl_iff}

Fresh-prop : (fp : String) (fs : List Finding) → IsProp (Fresh fp fs)
Fresh-prop fp [] = hlevel
Fresh-prop fp (f ∷ fs) = let p = Fresh-prop fp fs in hlevel p

-- A bucket that keeps the findings of which `P` holds.
module _ (f : Finding → Option Finding) (P : Finding → Type 0) (prop : (a : Finding) → IsProp (P a))
    (keeps : (a b : Finding) → (f a ≡ some b) ↔ ((a ≡ b) × P a)) (less : Finding → Finding → Bool)
    (o : MapOrder) (m : List Finding) where
  bucket-mem_iff : (b : Finding) → Mem b (sort less (filter_map f (o.range m))) ↔ (Mem b m × P b)
  bucket-mem_iff b = (
    λ h.
        ∥∥₁_elim ((mem-filter_map f (o.range m)).0 ((Perm.mem_iff (sort-perm less _)).0 h))
          (let p = prop b in hlevel (p, Mem-prop))
          (λ (a, ma, e).
            let (q, pa) = (keeps a b).0 e in
            (subst (λ t. Mem t m) q ((Perm.mem_iff (o.range-perm m)).0 ma), subst P q pa)),
    λ (mb, pb). (Perm.mem_iff (sort-perm less _)).1 (
        (mem-filter_map f (o.range m)).1
          ∣ (b, (Perm.mem_iff (o.range-perm m)).1 mb, (keeps b b).1 (refl, pb)) ∣₁),
  )

as_resolved_iff :
    (m : List Finding) (ex : List RuleExecutionRecord) (a b : Finding)
    → (as_resolved m ex a ≡ some b)
      ↔ ((a ≡ b) × (Fresh a.fingerprint m × (rule_proven_evaluated a.rule_id ex ≡ true)))
unfolding as_resolved
as_resolved_iff m ex a b =
    ground
      (arith, some-injective a b, find_none-Fresh a.fingerprint m, Fresh-find-none a.fingerprint m)

as_not_re_evaluated_iff :
    (m : List Finding) (ex : List RuleExecutionRecord) (a b : Finding)
    → (as_not_re_evaluated m ex a ≡ some b)
      ↔ ((a ≡ b) × (Fresh a.fingerprint m × (rule_proven_evaluated a.rule_id ex ≡ false)))
unfolding as_not_re_evaluated
as_not_re_evaluated_iff m ex a b =
    ground
      (arith, some-injective a b, find_none-Fresh a.fingerprint m, Fresh-find-none a.fingerprint m)

as_new_iff :
    (m : List Finding) (a b : Finding) → (as_new m a ≡ some b) ↔ ((a ≡ b) × Fresh a.fingerprint m)
unfolding as_new new_at
as_new_iff m a b =
    ground
      (arith, some-injective a b, find_none-Fresh a.fingerprint m, Fresh-find-none a.fingerprint m)

resolved-document :
    (o : MapOrder) (b c : Report)
    → (document o b c).resolved
      ≡ sort less_blocker_first
          (filter_map (as_resolved c.findings c.rule_executions) (o.range b.findings))
unfolding document assemble
resolved-document o b c =
    ap (sort less_blocker_first)
      (classify_baseline-filter_map c.findings c.rule_executions (o.range b.findings)).0

not_re_evaluated-document :
    (o : MapOrder) (b c : Report)
    → (document o b c).not_re_evaluated
      ≡ sort less_blocker_first
          (filter_map (as_not_re_evaluated c.findings c.rule_executions) (o.range b.findings))
unfolding document assemble
not_re_evaluated-document o b c =
    ap (sort less_blocker_first)
      (classify_baseline-filter_map c.findings c.rule_executions (o.range b.findings)).1

new-document :
    (o : MapOrder) (b c : Report)
    → (document o b c).new
      ≡ sort less_blocker_first (filter_map (as_new b.findings) (o.range c.findings))
unfolding document assemble
new-document o b c =
    ap (sort less_blocker_first) (classify_current-filter_map b.findings (o.range c.findings)).0

-- Where `Compare` succeeds, a finding is resolved exactly if it is one of the baseline, no finding
-- of the current report has its fingerprint, and the current report proves that its rule ran to the
-- end.
pub compare-resolved_iff :
    (o : MapOrder) (b c : Report) (d : Comparison)
    → compare o b c ≡ inl d
    → (f : Finding)
    → Mem f d.resolved ↔ (
        Mem f b.findings
        × (Fresh f.fingerprint c.findings
            × (rule_proven_evaluated f.rule_id c.rule_executions ≡ true)))
compare-resolved_iff o b c d h f =
    rw (((compare-inl_iff o b c d).0 h).0, resolved-document o b c)
      (bucket-mem_iff (as_resolved c.findings c.rule_executions)
        (λ a.
          Fresh a.fingerprint c.findings
          × (rule_proven_evaluated a.rule_id c.rule_executions ≡ true))
        (λ a. ×_prop (Fresh-prop a.fingerprint c.findings) (Bool-set _ _))
        (as_resolved_iff c.findings c.rule_executions) less_blocker_first o b.findings f)

-- Where `Compare` succeeds, the findings that are not re-evaluated are exactly those of the
-- baseline whose fingerprint no finding of the current report has and whose rule the current report
-- does not prove to have run to the end.
pub compare-not_re_evaluated_iff :
    (o : MapOrder) (b c : Report) (d : Comparison)
    → compare o b c ≡ inl d
    → (f : Finding)
    → Mem f d.not_re_evaluated ↔ (
        Mem f b.findings
        × (Fresh f.fingerprint c.findings
            × (rule_proven_evaluated f.rule_id c.rule_executions ≡ false)))
compare-not_re_evaluated_iff o b c d h f =
    rw (((compare-inl_iff o b c d).0 h).0, not_re_evaluated-document o b c)
      (bucket-mem_iff (as_not_re_evaluated c.findings c.rule_executions)
        (λ a.
          Fresh a.fingerprint c.findings
          × (rule_proven_evaluated a.rule_id c.rule_executions ≡ false))
        (λ a. ×_prop (Fresh-prop a.fingerprint c.findings) (Bool-set _ _))
        (as_not_re_evaluated_iff c.findings c.rule_executions) less_blocker_first o b.findings f)

-- Where `Compare` succeeds, a finding is new exactly if it is one of the current report and no
-- finding of the baseline has its fingerprint.
pub compare-new_iff :
    (o : MapOrder) (b c : Report) (d : Comparison)
    → compare o b c ≡ inl d
    → (f : Finding) → Mem f d.new ↔ (Mem f c.findings × Fresh f.fingerprint b.findings)
compare-new_iff o b c d h f =
    rw (((compare-inl_iff o b c d).0 h).0, new-document o b c)
      (bucket-mem_iff (as_new b.findings) (λ a. Fresh a.fingerprint b.findings)
        (λ a. Fresh-prop a.fingerprint b.findings) (as_new_iff b.findings) less_blocker_first o
        c.findings f)
