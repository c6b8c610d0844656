-- ===== src/Gate/Unchanged.antt =====
-- The gate on a cluster that did not change.
use kubepreflight.Base.{ℕ, String, ◌≡◌, true, inl, arith}
use kubepreflight.Findings.Report.{Report, is_complete}
use kubepreflight.Comparison.Model.{Comparison}
use kubepreflight.Comparison.Compare.{MapOrder, compare}
use kubepreflight.Comparison.Compare.Self.{compare_self}
use kubepreflight.Gate.Evaluate.{pass, evaluate, default_policy}
use kubepreflight.Gate.Decisions.{evaluate-pass_iff}

-- A complete report compared with itself passes the gate under the default policy.
pub evaluate-compare_self :
    (decimal : ℕ → String) (o : MapOrder) (r : Report) (d : Comparison)
    → compare o r r ≡ inl d
    → is_complete r ≡ true
    → (evaluate decimal r r d default_policy).decision ≡ pass
evaluate-compare_self decimal o r d h c =
    let (w, n, ch, rs, nr, nb, v, sc) = compare_self o r d h in
    (evaluate-pass_iff decimal r r d default_policy).1 (
      (c, c, w),
      record {
        blockers = λ _. nb;
        new_warnings = λ e. cc;
        any_warnings = λ e. cc;
        verdict = λ _. rw v (omega arith);
        score = rw sc (omega arith);
      },
    )
