-- ===== src/Examples/Comparing.antt =====
-- Two reports compared: one finding is resolved, the other is not re-evaluated.
use mathlib.Core.List.{Mem}
use kubepreflight.Base.{
  ◌+◌, ◌≡◌, ◌≢◌, ◌↔◌, refl, String, true, false, string_eq, count, length, inl, eq_iff,
}
use kubepreflight.Findings.Context.{upgrade_gate_eq}
use kubepreflight.Comparison.Compare.{compare, rule_proven_evaluated}
use kubepreflight.Comparison.Compare.Index.{IsIndexed, Fresh}
use kubepreflight.Comparison.Compare.Accepted.{document, compare-inl_iff}
use kubepreflight.Comparison.Compare.Membership.{compare-resolved_iff, compare-not_re_evaluated_iff}
use kubepreflight.Comparison.Compare.Deterministic.{compare-order_irrelevant}
use kubepreflight.Comparison.Compare.Counts.{compare_counts, persists}
use kubepreflight.Examples.Data.{api_finding, pdb_finding, old, new, in_order, backwards}

pdb-ne-api : ◌≢◌ {A = String} "pdb" "api"
pdb-ne-api e = let h : false ≡ true = (eq_iff "pdb" "api").1 e in cc

old-IsIndexed : IsIndexed old.findings
old-IsIndexed = ((λ e. cc), (pdb-ne-api, tt), ((λ e. cc), tt, tt))

accepted : compare in_order old new ≡ inl (document in_order old new)
accepted =
    (compare-inl_iff in_order old new (document in_order old new)).1 (refl, old-IsIndexed, tt)

accepted_self : compare in_order old old ≡ inl (document in_order old old)
accepted_self =
    (compare-inl_iff in_order old old (document in_order old old)).1
      (refl, old-IsIndexed, old-IsIndexed)

compare-inl_iff_example : (compare in_order old new ≡ inl (document in_order old new)) ↔ (
    (document in_order old new ≡ document in_order old new)
    × IsIndexed old.findings
    × IsIndexed new.findings)
compare-inl_iff_example = compare-inl_iff in_order old new (document in_order old new)

compare-order_irrelevant_example : compare in_order old new ≡ compare backwards old new
compare-order_irrelevant_example = compare-order_irrelevant in_order backwards old new

compare-resolved_iff_example : Mem api_finding (document in_order old new).resolved ↔ (
    Mem api_finding old.findings
    × (Fresh "api" new.findings × (rule_proven_evaluated "API-001" new.rule_executions ≡ true)))
compare-resolved_iff_example =
    compare-resolved_iff in_order old new (document in_order old new) accepted api_finding

compare-not_re_evaluated_iff_example :
    Mem pdb_finding (document in_order old new).not_re_evaluated ↔ (
      Mem pdb_finding old.findings
      × (Fresh "pdb" new.findings × (rule_proven_evaluated "PDB-001" new.rule_executions ≡ false)))
compare-not_re_evaluated_iff_example =
    compare-not_re_evaluated_iff in_order old new (document in_order old new) accepted pdb_finding

accepted_back : compare in_order new old ≡ inl (document in_order new old)
accepted_back =
    (compare-inl_iff in_order new old (document in_order new old)).1 (refl, tt, old-IsIndexed)

compare_counts_example :
    let d = document in_order old new in
    (d.summary.new ≡ length d.new)
    × (d.summary.resolved ≡ length d.resolved)
    × (d.summary.not_re_evaluated ≡ length d.not_re_evaluated)
    × (d.summary.new + d.summary.changed + d.summary.unchanged ≡ length new.findings)
    × (d.summary.resolved + d.summary.not_re_evaluated + count (persists new.findings) old.findings
        ≡ length old.findings)
compare_counts_example = compare_counts in_order old new (document in_order old new) accepted
