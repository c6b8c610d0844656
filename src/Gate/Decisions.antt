-- ===== src/Gate/Decisions.antt =====
-- What the gate decides.
use mathlib.Core.Logic.{◌↔◌}
use kubepreflight.Base.{
  ℕ, ◌≡◌, String, Bool, true, false, if◌then◌else◌, ◌&&◌, List, [], ◌∷◌, ◌++◌, ltb, arith, refl,
  sym, ◌∙◌,
}
use Prim.Native.Nat.{◌≤◌}
use kubepreflight.Base.Int.{ℤ, ltb_ℤ, ◌≤ℤ◌}
use kubepreflight.Findings.Types.{Severity, severity_eq}
use kubepreflight.Findings.Report.{Report, is_complete}
use kubepreflight.Comparison.Model.{Comparison}
use kubepreflight.Gate.Evaluate.{
  Decision, pass, fail, neutral, WarningPolicy, fail_on_new, fail_on_any, ReasonCode,
  insufficient_evidence, Policy, verdict_rank, verdict_regressed, count_severity, has_warnings,
  insufficient, reason_if, warning_reasons, reasons_of, evaluate, facts, decide,
}

-- The decision alone.
abbrev verdict : Bool → List ReasonCode → Decision
verdict true reasons = neutral
verdict false [] = pass
verdict false (r ∷ rs) = fail

verdict-pass_iff :
    (i : Bool) (rs : List ReasonCode) → (verdict i rs ≡ pass) ↔ ((i ≡ false) × (rs ≡ []))
verdict-pass_iff i rs = ground arith

-- The reasons alone.
abbrev cited : Bool → List ReasonCode → List ReasonCode
cited true reasons = insufficient_evidence ∷ []
cited false reasons = reasons

-- The policy accepts what changed: none of its four conditions fails.
pub record IsAcceptable (p : Policy) (c : Report) (cmp : Comparison) : Type 0 where
  pub blockers : p.fail_on_new_blockers ≡ true → cmp.summary.new_blockers ≡ 0
  pub new_warnings : p.warning_policy ≡ fail_on_new → count_severity cmp.new Severity.warning ≡ 0
  pub any_warnings : p.warning_policy ≡ fail_on_any → c.summary.warnings ≡ 0
  pub verdict :
      p.fail_on_verdict_regression ≡ true
      → verdict_rank cmp.summary.current_verdict ≤ verdict_rank cmp.summary.baseline_verdict
  pub score : p.minimum_score_delta ≤ℤ cmp.summary.readiness_score_delta

-- The evidence is good enough: both reports are complete and the comparison has no warning.
abbrev pub HasEvidence : Report → Report → Comparison → Type 0
HasEvidence b c cmp = (is_complete b ≡ true) × (is_complete c ≡ true) × (cmp.warnings ≡ [])

warnings_empty : (cmp : Comparison) → (has_warnings cmp ≡ false) ↔ (cmp.warnings ≡ [])
warnings_empty cmp = ground arith

insufficient_iff :
    (b c : Report) (cmp : Comparison) → (insufficient b c cmp ≡ false) ↔ HasEvidence b c cmp
unfolding insufficient
insufficient_iff b c cmp = ground (arith, warnings_empty cmp)

warning_reasons_iff :
    (w : WarningPolicy) (m n : ℕ)
    → (warning_reasons w m n ≡ []) ↔ ((w ≡ fail_on_new → m ≡ 0) × (w ≡ fail_on_any → n ≡ 0))
unfolding warning_reasons
warning_reasons_iff w m n = ground arith

four_nil :
    (ws xs ys zs : List ReasonCode)
    → (ws ++ xs ++ ys ++ zs ≡ []) ↔ ((ws ≡ []) × (xs ≡ []) × (ys ≡ []) × (zs ≡ []))
four_nil [] [] [] zs = (λ h. (refl, refl, refl, h), λ h. h.3)
four_nil [] [] (y ∷ ys) zs = (λ h. cc, λ h. cc)
four_nil [] (x ∷ xs) ys zs = (λ h. cc, λ h. cc)
four_nil (w ∷ ws) xs ys zs = (λ h. cc, λ h. cc)

reason_if-nil_iff : (b : Bool) (r : ReasonCode) → (reason_if b r ≡ []) ↔ (b ≡ false)
reason_if-nil_iff b r = ground arith

blockers_iff : (on : Bool) (n : ℕ) → (on && ltb 0 n ≡ false) ↔ (on ≡ true → n ≡ 0)
blockers_iff on n = ground arith

regressed_iff : (on : Bool) (m n : ℕ) → (on && ltb m n ≡ false) ↔ (on ≡ true → n ≤ m)
regressed_iff on m n = ground arith

score_iff : (d m : ℤ) → (ltb_ℤ d m ≡ false) ↔ (m ≤ℤ d)
score_iff d m = ground arith

-- No reason is found exactly if the policy accepts what changed.
reasons_of-nil_iff :
    (c : Report) (cmp : Comparison) (p : Policy) → (reasons_of c cmp p ≡ []) ↔ IsAcceptable p c cmp
unfolding reasons_of verdict_regressed
reasons_of-nil_iff c cmp p =
    let s = cmp.summary in
    let on = p.fail_on_new_blockers in
    let reg = p.fail_on_verdict_regression in
    let m = verdict_rank s.baseline_verdict in
    let n = verdict_rank s.current_verdict in
    let new = count_severity cmp.new Severity.warning in
    let blk = blockers_iff on s.new_blockers in
    let wrn = warning_reasons_iff p.warning_policy new c.summary.warnings in
    let rgr = regressed_iff reg m n in
    let scr = score_iff s.readiness_score_delta p.minimum_score_delta in
    let four =
      four_nil (reason_if (on && ltb 0 s.new_blockers) ReasonCode.new_blockers_detected)
        (warning_reasons p.warning_policy new c.summary.warnings)
        (reason_if (reg && ltb m n) ReasonCode.readiness_verdict_regressed)
        (reason_if (ltb_ℤ s.readiness_score_delta p.minimum_score_delta)
          ReasonCode.readiness_score_regressed) in
    (
      λ h.
          let (w, x, y, z) = four.0 h in
          record {
            blockers = blk.0 ((reason_if-nil_iff _ _).0 w);
            new_warnings = (wrn.0 x).0;
            any_warnings = (wrn.0 x).1;
            verdict = rgr.0 ((reason_if-nil_iff _ _).0 y);
            score = scr.0 ((reason_if-nil_iff _ _).0 z);
          },
      λ a. four.1 (
        (reason_if-nil_iff _ _).1 (blk.1 a.blockers),
        wrn.1 (a.new_warnings, a.any_warnings),
        (reason_if-nil_iff _ _).1 (rgr.1 a.verdict),
        (reason_if-nil_iff _ _).1 (scr.1 a.score),
      ),
    )

module _ (decimal : ℕ → String) where
  evaluate_at :
      (i : Bool) (rs : List ReasonCode) (c : Report) (cmp : Comparison)
      → let r =
          if i
          then facts decimal c cmp neutral (insufficient_evidence ∷ [])
          else decide decimal c cmp rs in
        (r.decision ≡ verdict i rs) × (r.reasons ≡ cited i rs)
  unfolding facts decide
  evaluate_at true rs c cmp = (refl, refl)
  evaluate_at false [] c cmp = (refl, refl)
  evaluate_at false (r ∷ rs) c cmp = (refl, refl)

  evaluate_lem :
      (b c : Report) (cmp : Comparison) (p : Policy)
      → ((evaluate decimal b c cmp p).decision
          ≡ verdict (insufficient b c cmp) (reasons_of c cmp p))
        × ((evaluate decimal b c cmp p).reasons ≡ cited (insufficient b c cmp) (reasons_of c cmp p))
  unfolding evaluate
  evaluate_lem b c cmp p = evaluate_at (insufficient b c cmp) (reasons_of c cmp p) c cmp

  -- The gate is neutral exactly if a report is incomplete or the comparison has a warning, whatever
  -- the policy and the findings are.
  pub evaluate-neutral_iff :
      (b c : Report) (cmp : Comparison) (p : Policy)
      → ((evaluate decimal b c cmp p).decision ≡ neutral) ↔ (¬ HasEvidence b c cmp)
  evaluate-neutral_iff b c cmp p = ground (arith, evaluate_lem b c cmp p, insufficient_iff b c cmp)

  -- The gate passes exactly if both reports are complete, the comparison has no warning, and none
  -- of the four conditions of the policy fails.
  pub evaluate-pass_iff :
      (b c : Report) (cmp : Comparison) (p : Policy)
      → ((evaluate decimal b c cmp p).decision ≡ pass)
        ↔ (HasEvidence b c cmp × IsAcceptable p c cmp)
  evaluate-pass_iff b c cmp p =
      let e = evaluate_lem b c cmp p in
      (
        λ h.
            let (i, r) = (verdict-pass_iff _ _).0 (sym e.0 ∙ h) in
            ((insufficient_iff b c cmp).0 i, (reasons_of-nil_iff c cmp p).0 r),
        λ (i, a).
            e.0
            ∙ (verdict-pass_iff _ _).1
                ((insufficient_iff b c cmp).1 i, (reasons_of-nil_iff c cmp p).1 a),
      )

  -- A decision cites no reason exactly if it is a pass.
  pub evaluate-reasons_iff :
      (b c : Report) (cmp : Comparison) (p : Policy)
      → ((evaluate decimal b c cmp p).reasons ≡ []) ↔ ((evaluate decimal b c cmp p).decision ≡ pass)
  evaluate-reasons_iff b c cmp p = ground (arith, evaluate_lem b c cmp p)
