-- ===== src/Comparison/Compare/Self.antt =====
-- A report compared with itself.
use mathlib.Core.Logic.Or
use mathlib.Core.List.{Mem, mem-cons, not-mem-nil, mem-cons_self, mem-cons_of_mem}
use mathlib.Core.List.Perm
use kubepreflight.Base.{
  Eq, String, true, some, List, [], ◌∷◌, ◌≡◌, refl, ap, ◌∙◌, sym, arith, inl, inr, Bool-cases, ◌==◌,
  ◌/=◌, string_eq, bool_eq, eq_iff, beq_refl, subst,
}
use kubepreflight.Base.Int.{ℤ, pos, ◌-ℤ◌}
use kubepreflight.Base.Sorting.{sort}
use kubepreflight.Findings.Types.{severity_eq, confidence_tier_eq}
use kubepreflight.Findings.Context.{upgrade_gate_eq, upgrade_context_eq}
use kubepreflight.Findings.Execution.{RuleExecutionRecord}
use kubepreflight.Findings.Readiness.{verdict_beq, Verdict}
use kubepreflight.Findings.Finding.{Finding, effective_upgrade_gate}
use kubepreflight.Findings.Report.{Report}
use kubepreflight.Comparison.Model.{Comparison}
use kubepreflight.Comparison.Diff.{diff_finding, entry_if, impact_scope_identity, resource_identity}
use kubepreflight.Comparison.Compare.{
  find, MapOrder, Buckets, place, classify_current, classify_baseline, compare, assemble,
  build_summary, warnings_of,
}
use kubepreflight.Comparison.Compare.Index.{IsIndexed, Mem-Fresh, Fresh, Finding-set}
use kubepreflight.Comparison.Compare.Placed.{classify_current-cons}
use kubepreflight.Comparison.Compare.Accepted.{document, compare-inl_iff}

entry_if-same {ℓ} :
    {A : Type ℓ} ⦃e : Eq A⦄ (a : A) (name s t : String) → entry_if (a /= a) name s t ≡ []
entry_if-same a name s t = rw (beq_refl a) refl

-- A finding does not differ from itself.
pub diff_finding_self : (f : Finding) → diff_finding f f ≡ []
unfolding diff_finding
diff_finding_self f =
    rw
      (
        entry_if-same f.severity,
        entry_if-same f.priority,
        entry_if-same f.confidence,
        entry_if-same f.can_upgrade_continue,
        entry_if-same (effective_upgrade_gate f),
        entry_if-same (impact_scope_identity f.impact_scopes),
        entry_if-same f.affected_scope,
        entry_if-same f.rule_id,
        entry_if-same (resource_identity f.resources),
      )
      refl

-- In an indexed list the lookup of a finding's fingerprint gives that finding.
find-Mem :
    (fs : List Finding) (f : Finding) → IsIndexed fs → Mem f fs → find f.fingerprint fs ≡ some f
find-Mem [] f i m = absurd (not-mem-nil m)
find-Mem (g ∷ gs) f (n, fresh, i) m =
    Or.elim (hlevel Finding-set) (mem-cons.0 m)
      (λ e.
        let hit = (eq_iff g.fingerprint f.fingerprint).1 (ap (λ x. x.fingerprint) (sym e)) in
        simp hit (ap some (sym e)))
      (λ k.
        let ih = find-Mem gs f i k in
        elim (Bool-cases (g.fingerprint == f.fingerprint)) [
          | inl h ↦ absurd (
              Mem-Fresh f gs k
                (subst (λ u. Fresh u gs) ((eq_iff g.fingerprint f.fingerprint).0 h) fresh))
          | inr h ↦ rw h ih
        ])

-- The buckets, where every finding visited is found unchanged.
Found : List Finding → List Finding → Type 0
Found m l = (f : Finding) → Mem f l → find f.fingerprint m ≡ some f

tail_Found : (m : List Finding) (f : Finding) (l : List Finding) → Found m (f ∷ l) → Found m l
unfolding Found
tail_Found m f l h g k = h g (mem-cons_of_mem f k)

place_self :
    (f : Finding) (b : Buckets)
    → ((place f (some f) b).new ≡ b.new) × ((place f (some f) b).changed ≡ b.changed)
unfolding place
place_self f b = rw (diff_finding_self f) (refl, refl)

classify_baseline-cons :
    (m : List Finding) (ex : List RuleExecutionRecord) (f : Finding) (l : List Finding)
    → find f.fingerprint m ≡ some f
    → classify_baseline m ex (f ∷ l) ≡ classify_baseline m ex l
unfolding classify_baseline
classify_baseline-cons m ex f l e = rw e refl

classify_current_self :
    (m l : List Finding)
    → Found m l
    → ((classify_current m l).new ≡ []) × ((classify_current m l).changed ≡ [])
unfolding Found
classify_current_self m [] h = unfold classify_current in (refl, refl)
classify_current_self m (f ∷ l) h =
    let (n, c) = classify_current_self m l (tail_Found m f l h) in
    let e : find f.fingerprint m ≡ some f = h f mem-cons_self in
    let step = place_self f (classify_current m l) in
    rw (classify_current-cons m f l, e) (step.0 ∙ n, step.1 ∙ c)

classify_baseline_self :
    (m : List Finding) (ex : List RuleExecutionRecord) (l : List Finding)
    → Found m l
    → classify_baseline m ex l ≡ ([], [])
unfolding Found
classify_baseline_self m ex [] h = unfold classify_baseline in refl
classify_baseline_self m ex (f ∷ l) h =
    classify_baseline-cons m ex f l (h f mem-cons_self)
    ∙ classify_baseline_self m ex l (tail_Found m f l h)

range-Found : (o : MapOrder) (m : List Finding) → IsIndexed m → Found m (o.range m)
unfolding Found
range-Found o m i f k = find-Mem m f i ((Perm.mem_iff (o.range-perm m)).0 k)

verdict_beq_refl : (v : Verdict) → verdict_beq v v ≡ true
verdict_beq_refl v = ground arith

warnings_of_self : (r : Report) → warnings_of r r ≡ []
unfolding warnings_of
warnings_of_self r = rw (beq_refl r.target_version, beq_refl r.upgrade_context) refl

sub_self : (a : ℤ) → a -ℤ a ≡ pos 0
unfolding ◌-ℤ◌
sub_self a = ground arith

document_self :
    (o : MapOrder) (r : Report)
    → IsIndexed r.findings
    → let d = document o r r in
      (d.warnings ≡ [])
      × (d.new ≡ [])
      × (d.changed ≡ [])
      × (d.resolved ≡ [])
      × (d.not_re_evaluated ≡ [])
      × (d.summary.new_blockers ≡ 0)
      × (d.summary.baseline_verdict ≡ d.summary.current_verdict)
      × (d.summary.readiness_score_delta ≡ pos 0)
unfolding document assemble build_summary sort
document_self o r i =
    let found = range-Found o r.findings i in
    let (n, c) = classify_current_self r.findings (o.range r.findings) found in
    let g = classify_baseline_self r.findings r.rule_executions (o.range r.findings) found in
    (warnings_of_self r, rw n refl, rw c refl, rw g refl, rw g refl, rw n refl, refl, sub_self _)

-- A report compared with itself, if it is accepted, shows nothing new, changed, resolved or not
-- re-evaluated, no warning, no new blocker, the same verdict twice and a score difference of 0.
pub compare_self :
    (o : MapOrder) (r : Report) (d : Comparison)
    → compare o r r ≡ inl d
    → (d.warnings ≡ [])
      × (d.new ≡ [])
      × (d.changed ≡ [])
      × (d.resolved ≡ [])
      × (d.not_re_evaluated ≡ [])
      × (d.summary.new_blockers ≡ 0)
      × (d.summary.baseline_verdict ≡ d.summary.current_verdict)
      × (d.summary.readiness_score_delta ≡ pos 0)
compare_self o r d h = let (e, i, j) = (compare-inl_iff o r r d).0 h in rw e (document_self o r i)
