-- ===== src/Plan/Phases/Laws.antt =====
-- The verdict of the checklist, its third phase and the sources that it names.
use kubepreflight.Base.{
  ℕ, String, ◌≡◌, ◌↔◌, refl, sym, ◌∙◌, subst, Bool, true, false, ◌&&◌, Option, none, some, List, [],
  ◌∷◌, any, has, arith, All, Bool-cases, inl, inr, string_eq, ◌==◌,
}
use kubepreflight.Findings.Report.{Report, is_complete}
use kubepreflight.Plan.Templates.{ActionTemplate, templates}
use kubepreflight.Plan.Action.{
  ActionStatus, ActionVerdict, PlanAction, ActionPhase, is_downgrade, present_rule_ids,
  critical_blocker_actions, has_blocking_phase1_action, action_plan_verdict, findings_of,
  with_sources, template_actions,
}
use kubepreflight.Plan.Action.Laws.{any_imp, demands, has_blocking-critical}
use kubepreflight.Plan.Action.Sources.{any-present}
use kubepreflight.Plan.Phases.{build_action_plan, execution_status, upgrade_execution_phase}

action_plan_verdict-ready_iff :
    (r : Report) (b : Bool)
    → (action_plan_verdict (some r) b ≡ ActionVerdict.ready)
      ↔ ((is_complete r ≡ true) × (b ≡ false))
action_plan_verdict-ready_iff r b = ground arith

ready_split :
    (r : Report) (now : ℕ) (demanded : Bool)
    → has_blocking_phase1_action (critical_blocker_actions (some r)) ≡ demanded
    → ((build_action_plan (some r) now).verdict ≡ ActionVerdict.ready)
      ↔ ((is_downgrade (some r) ≡ false) × (is_complete r ≡ true) × (demanded ≡ false))
unfolding build_action_plan
ready_split r now demanded e = elim (Bool-cases (is_downgrade (some r))) [
  | inl h ↦ rw h (λ k. cc, λ (k, _, _). cc)
  | inr h ↦
      rw (h, e)
        (let verdict = action_plan_verdict-ready_iff r demanded in
          (λ k. (refl, (verdict.0 k).0, (verdict.0 k).1), λ (_, c, d). verdict.1 (c, d)))
]

-- The checklist of a report is ready if and only if the report is no downgrade, it is complete, and
-- no template of the first phase demands an action: none of its rules has a finding, or the
-- template makes warnings optional and none of those findings blocks.
pub build_action_plan-ready_iff :
    (r : Report) (now : ℕ)
    → ((build_action_plan (some r) now).verdict ≡ ActionVerdict.ready) ↔ (
        (is_downgrade (some r) ≡ false)
        × (is_complete r ≡ true)
        × (any (demands (some r)) templates ≡ false))
build_action_plan-ready_iff r now = ready_split r now _ (has_blocking-critical (some r))

-- Every action of a phase has one status.
abbrev pub AllHave : ActionStatus → ActionPhase → Type 0
AllHave status phase = All (λ a. a.status ≡ status) phase.actions

abbrev pub third : List ActionPhase → Option ActionPhase
third (_ ∷ _ ∷ p ∷ _) = some p
third _ = none

-- When the report is no downgrade, the third phase is blocked as a whole if some template demands
-- an action, and ready as a whole otherwise.
pub build_action_plan-third :
    (r : Option Report) (now : ℕ)
    → is_downgrade r ≡ false
    → (p : ActionPhase) × (third (build_action_plan r now).phases ≡ some p)
      × AllHave (execution_status (any (demands r) templates)) p
unfolding build_action_plan
build_action_plan-third r now h = rw h (
  upgrade_execution_phase (has_blocking_phase1_action (critical_blocker_actions r)),
  refl,
  subst
      (λ b.
        AllHave (execution_status b)
          (upgrade_execution_phase (has_blocking_phase1_action (critical_blocker_actions r))))
      (has_blocking-critical r) (refl, (refl, (refl, (refl, tt)))),
)

-- The rules named as sources have findings.
abbrev pub HasFindings : Option Report → PlanAction → Type 0
HasFindings r a =
    (id : String)
    → has id a.source_rule_ids ≡ true
    → any (λ f. f.rule_id == id) (findings_of r) ≡ true

present-HasFindings :
    (r : Option Report) (ids : List String) (id : String)
    → has id (present_rule_ids r ids) ≡ true
    → any (λ f. f.rule_id == id) (findings_of r) ≡ true
present-HasFindings r ids id h =
    any_imp (λ f. has f.rule_id ids && f.rule_id == id) (λ f. f.rule_id == id) (findings_of r)
      (λ f k. ground (arith, k)) (sym (any-present (λ y. y == id) r ids) ∙ h)

with_sources-HasFindings :
    (r : Option Report) (t : ActionTemplate) (ids : List String) (rest : List PlanAction)
    → ((id : String) → has id ids ≡ true → any (λ f. f.rule_id == id) (findings_of r) ≡ true)
    → All (HasFindings r) rest
    → All (HasFindings r) (with_sources r t ids rest)
with_sources-HasFindings r t [] rest h k = k
with_sources-HasFindings r t (id ∷ ids) rest h k = (h, k)

template_actions-HasFindings :
    (r : Option Report) (ts : List ActionTemplate) → All (HasFindings r) (template_actions r ts)
unfolding template_actions
template_actions-HasFindings r [] = tt
template_actions-HasFindings r (t ∷ ts) =
    with_sources-HasFindings r t _ _ (present-HasFindings r t.source_rule_ids)
      (template_actions-HasFindings r ts)

no_sources :
    (r : Option Report) (id : String)
    → false ≡ true
    → any (λ f. f.rule_id == id) (findings_of r) ≡ true
no_sources r id h = cc

-- Every rule that an action of the checklist names as a source has a finding in the report.
pub build_action_plan-HasFindings :
    (r : Option Report) (now : ℕ)
    → All (λ p. All (HasFindings r) p.actions) (build_action_plan r now).phases
unfolding build_action_plan critical_blocker_actions
build_action_plan-HasFindings r now = elim (Bool-cases (is_downgrade r)) [
  | inl h ↦ rw h tt
  | inr h ↦ rw h (
    template_actions-HasFindings r templates,
    (
      (
        no_sources r,
        (
          no_sources r,
          (present-HasFindings r _, (present-HasFindings r _, (no_sources r, (no_sources r, tt)))),
        ),
      ),
      (
        (no_sources r, (no_sources r, (no_sources r, (no_sources r, tt)))),
        (
          (
            no_sources r,
            (no_sources r, (no_sources r, (no_sources r, (no_sources r, (no_sources r, tt))))),
          ),
          tt,
        ),
      ),
    ),
  )
]
