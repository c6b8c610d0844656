-- ===== src/Plan/Build/Laws.antt =====
-- What a plan says follows from the scan of its first hop, and it has one entry for each hop.
use kubepreflight.Base.{
  ℕ, String, ◌≡◌, ◌≢◌, refl, ap, sym, ◌∙◌, subst, true, false, Option, none, some, List, [], ◌∷◌,
  map, any, arith, ◌⊎◌, inl, inr, Bool-cases,
}
use kubepreflight.Findings.Readiness.{Verdict, clean, passed_with_warnings, blocked, incomplete}
use kubepreflight.Findings.Report.{Report, is_complete, result, exit_code}
use kubepreflight.Versions.Hops.{Hop}
use kubepreflight.Plan.Phases.{build_action_plan}
use kubepreflight.Plan.Build.{
  HopReport, PlanReport, PlanError, future_hops, build_plan, first_report, overall_exit_code,
  PlanLabel, plan_verdict, ready, with_hops, conditionally_ready, not_ready, assessment_incomplete,
  exact_hop, header_of, assessed, verdict_of, by_result,
}

-- The label for a result.
abbrev pub label_of : Verdict → PlanLabel
label_of clean = ready
label_of passed_with_warnings = conditionally_ready
label_of blocked = not_ready
label_of incomplete = assessment_incomplete

complete-result : (r : Report) → is_complete r ≡ true → result r ≢ incomplete
unfolding result
complete-result r h e = ground arith

incomplete-result : (r : Report) → is_complete r ≡ false → result r ≡ incomplete
unfolding result
incomplete-result r h = ground arith

by_result-label : (r : Report) (v : Verdict) → v ≢ incomplete → (by_result r v).0 ≡ label_of v
by_result-label r clean h = refl
by_result-label r passed_with_warnings h = refl
by_result-label r blocked h = refl
by_result-label r incomplete h = absurd (h refl)

verdict_of-label :
    (r : Report)
    → (is_complete r ≡ true → any (λ f. f.global_blocker) r.findings ≡ true → result r ≡ blocked)
    → (verdict_of (some r)).0 ≡ label_of (result r)
verdict_of-label r global = elim (Bool-cases (is_complete r)) [
  | inr h ↦ rw (h, incomplete-result r h) (ground arith)
  | inl h ↦ elim (Bool-cases (any (λ f. f.global_blocker) r.findings)) [
    | inl g ↦ rw (h, g, global h g) refl
    | inr g ↦ rw (h, g) (by_result-label r (result r) (complete-result r h))
  ]
]

-- The verdict of a plan whose first hop carries a report, and its exit code, are those of the
-- report, provided that a complete report with a global blocker among its findings is blocked.
pub plan_verdict-result :
    (p : PlanReport) (r : Report)
    → first_report p ≡ some r
    → (is_complete r ≡ true → any (λ f. f.global_blocker) r.findings ≡ true → result r ≡ blocked)
    → ((plan_verdict p).0 ≡ label_of (result r)) × (overall_exit_code p ≡ exit_code r)
unfolding plan_verdict overall_exit_code
plan_verdict-result p r h global = rw h (verdict_of-label r global, refl)

module _ (assess : Hop → String ⊎ HopReport)
    (keeps : (h : Hop) (hr : HopReport) → assess h ≡ inr hr → hr.hop ≡ h) where
  assessed-cons :
      (hop : Hop) (o : String ⊎ HopReport) (rest : PlanError ⊎ List HopReport)
      (hrs : List HopReport)
      → assess hop ≡ o
      → assessed assess hop o rest ≡ inr hrs
      → (hr : HopReport) × (later : List HopReport) × (rest ≡ inr later)
        × (hrs ≡ hr ∷ later)
        × (hr.hop ≡ hop)
  assessed-cons hop (inl e) rest hrs ea h = cc
  assessed-cons hop (inr hr) (inl e) hrs ea h = cc
  assessed-cons hop (inr hr) (inr later) hrs ea h = (hr, later, refl, cc, keeps hop hr ea)

  future_hops-hop :
      (hops : List Hop) (hrs : List HopReport)
      → future_hops assess hops ≡ inr hrs
      → map (λ hr. hr.hop) hrs ≡ hops
  unfolding future_hops
  future_hops-hop [] hrs h = let e : [] ≡ hrs = cc in subst (λ l. map (λ hr. hr.hop) l ≡ []) e refl
  future_hops-hop (hop ∷ hops) hrs h =
      let (hr, later, e, split, same) =
        assessed-cons hop (assess hop) (future_hops assess hops) hrs refl h in
      ap (map (λ hr. hr.hop)) split
      ∙ ap (λ x. x ∷ map (λ hr. hr.hop) later) same
      ∙ ap (λ l. hop ∷ l) (future_hops-hop hops later e)

module _ (assess : Hop → String ⊎ HopReport)
    (keeps : (h : Hop) (hr : HopReport) → assess h ≡ inr hr → hr.hop ≡ h)
    (cluster_context provider from_version source to_version : String) (now : ℕ) where
  abbrev plan_with : List Hop → Option Report → PlanError ⊎ PlanReport
  plan_with hops o =
      build_plan assess cluster_context provider from_version source to_version hops o now

  inr_injective : (a b : PlanReport) → ◌≡◌ {A = PlanError ⊎ PlanReport} (inr a) (inr b) → a ≡ b
  inr_injective a b h = cc

  finished :
      (hop : Hop) (r : Report) (o : PlanError ⊎ List HopReport) (p : PlanReport)
      → with_hops assess
          (λ hrs.
            header_of cluster_context provider from_version source to_version now hrs
              (build_action_plan (some r) now))
          (exact_hop hop r)
          o
        ≡ inr p
      → (later : List HopReport) × (o ≡ inr later) × (p.hops ≡ exact_hop hop r ∷ later)
  finished hop r (inl e) p h = cc
  finished hop r (inr later) p h = (later, refl, ap (λ q. q.hops) (sym (inr_injective _ p h)))

  -- When the assessment of a hop keeps the hop, a plan that is built has one entry for each hop, in
  -- their order, and the first one carries the given report; without a hop or a report no plan is built.
  pub build_plan-hop :
      (hops : List Hop) (o : Option Report) (p : PlanReport)
      → plan_with hops o ≡ inr p
      → (map (λ hr. hr.hop) p.hops ≡ hops) × (first_report p ≡ o) × (o ≢ none)
  unfolding build_plan
  build_plan-hop [] o p h = cc
  build_plan-hop (hop ∷ hops) none p h = cc
  build_plan-hop (hop ∷ hops) (some r) p h =
      let (later, e, entries) = finished hop r (future_hops assess hops) p h in
      (
        ap (map (λ hr. hr.hop)) entries
            ∙ ap (λ l. hop ∷ l) (future_hops-hop assess keeps hops later e),
        ap (λ l. elim l [ [] ↦ none | hr ∷ _ ↦ hr.report ]) entries,
        λ e. cc,
      )
