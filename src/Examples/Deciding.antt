-- ===== src/Examples/Deciding.antt =====
-- The gate on the comparison of two reports.
use kubepreflight.Base.{◌≡◌, ◌↔◌, refl, inl, true}
use kubepreflight.Comparison.Compare.{compare}
use kubepreflight.Comparison.Compare.Accepted.{document, compare-inl_iff}
use kubepreflight.Gate.Evaluate.{pass, neutral, evaluate, default_policy}
use kubepreflight.Gate.Decisions.{
  HasEvidence, IsAcceptable, evaluate-neutral_iff, evaluate-pass_iff,
}
use kubepreflight.Gate.Unchanged.{evaluate-compare_self}
use kubepreflight.Findings.Report.{is_complete}
use kubepreflight.Examples.Data.{old, new, in_order, decimal}

evaluate-neutral_iff_example :
    let d = document in_order old new in
    ((evaluate decimal old new d default_policy).decision ≡ neutral) ↔ (¬ HasEvidence old new d)
evaluate-neutral_iff_example =
    evaluate-neutral_iff decimal old new (document in_order old new) default_policy

evaluate-pass_iff_example :
    let d = document in_order old new in
    ((evaluate decimal old new d default_policy).decision ≡ pass)
    ↔ (HasEvidence old new d × IsAcceptable default_policy new d)
evaluate-pass_iff_example =
    evaluate-pass_iff decimal old new (document in_order old new) default_policy

accepted_new : compare in_order new new ≡ inl (document in_order new new)
accepted_new = (compare-inl_iff in_order new new (document in_order new new)).1 (refl, tt, tt)

new-is_complete : is_complete new ≡ true
unfolding is_complete
new-is_complete = refl

evaluate-compare_self_example :
    (evaluate decimal new new (document in_order new new) default_policy).decision ≡ pass
evaluate-compare_self_example =
    evaluate-compare_self decimal in_order new (document in_order new new) accepted_new
      new-is_complete
