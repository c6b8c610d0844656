-- ===== src/Plan/Action.antt =====
-- internal/plan/action_plan.go: the checklist of four phases. A missing report is `none`.
pub mod Laws
pub mod Sources
use kubepreflight.Base.{
  ℕ, String, Bool, true, false, not, ◌&&◌, ◌||◌, ◌==◌, string_eq, if◌then◌else◌, Option, none, some,
  List, [], ◌∷◌, any, has, ◌⊎◌, inl, inr,
}
use kubepreflight.Base.Order.{string_lt}
use kubepreflight.Base.Sorting.{sort}
use kubepreflight.Findings.Context.{UpgradeGate, upgrade_gate_eq}
use kubepreflight.Findings.Finding.{Finding, effective_upgrade_gate}
use kubepreflight.Findings.Report.{Report, is_complete}
use kubepreflight.Versions.Order.{VersionError, VersionRelation, downgrade, compare_minor_versions}
use kubepreflight.Plan.Templates.{ActionTemplate, templates}

pub data ActionStatus : Type 0 where
  required recommended blocked ready manual : ActionStatus

abbrev pub action_status_text : ActionStatus → String
action_status_text ActionStatus.required = "required"
action_status_text ActionStatus.recommended = "recommended"
action_status_text ActionStatus.blocked = "blocked"
action_status_text ActionStatus.ready = "ready"
action_status_text ActionStatus.manual = "manual"

pub data ActionVerdict : Type 0 where
  downgrade_not_supported assessment_incomplete blocked ready : ActionVerdict

abbrev pub action_verdict_text : ActionVerdict → String
action_verdict_text ActionVerdict.downgrade_not_supported = "DOWNGRADE_NOT_SUPPORTED"
action_verdict_text ActionVerdict.assessment_incomplete = "ASSESSMENT_INCOMPLETE"
action_verdict_text ActionVerdict.blocked = "BLOCKED"
action_verdict_text ActionVerdict.ready = "READY"

pub record PlanAction : Type 0 where
  pub id : String
  pub title : String
  pub required : Bool
  pub status : ActionStatus
  pub reason : String
  pub source_rule_ids : List String
  pub success_criteria : List String
  pub commands : List String

pub record ActionPhase : Type 0 where
  pub id : String
  pub title : String
  pub description : String
  pub gate : String
  pub actions : List PlanAction

pub record UpgradeActionPlan : Type 0 where
  pub schema_version : String
  pub verdict : ActionVerdict
  pub generated_at : ℕ
  pub phases : List ActionPhase

abbrev pub findings_of : Option Report → List Finding
findings_of none = []
findings_of (some r) = r.findings

abbrev is_downgrade_relation : VersionError ⊎ VersionRelation → Bool
is_downgrade_relation (inr downgrade) = true
is_downgrade_relation _ = false

unfoldable pub is_downgrade : Option Report → Bool
is_downgrade none = false
is_downgrade (some r) =
    if r.current_version == ""
    then false
    else is_downgrade_relation (compare_minor_versions r.current_version r.target_version)

-- The set `seen` of the wanted rules that have a finding.
unfoldable pub seen_rule_ids : List String → List Finding → List String
seen_rule_ids wanted [] = []
seen_rule_ids wanted (f ∷ fs) =
    let seen = seen_rule_ids wanted fs in
    if has f.rule_id wanted && not (has f.rule_id seen) then f.rule_id ∷ seen else seen

unfoldable pub present_rule_ids : Option Report → List String → List String
present_rule_ids r rule_ids = sort string_lt (seen_rule_ids rule_ids (findings_of r))

unfoldable pub has_blocker_for_rules : Option Report → List String → Bool
has_blocker_for_rules r rule_ids =
    any (λ f. has f.rule_id rule_ids && effective_upgrade_gate f == UpgradeGate.block)
      (findings_of r)

abbrev pub is_recommended : Option Report → ActionTemplate → List String → Bool
is_recommended r t ids = t.optional_when_only_warnings && not (has_blocker_for_rules r ids)

abbrev pub template_action : Option Report → ActionTemplate → List String → PlanAction
template_action r t ids = record {
  id = t.id;
  title = t.title;
  required = not (is_recommended r t ids);
  status = if is_recommended r t ids then ActionStatus.recommended else ActionStatus.required;
  reason =
      if is_recommended r t ids
      then "Recommended because matching warning findings were detected in the current assessment."
      else "Required because matching findings were detected in the current assessment.";
  source_rule_ids = ids;
  success_criteria = t.success_criteria;
  commands = t.commands;
}

-- The loop over the templates skips one without a finding.
abbrev pub with_sources :
    Option Report → ActionTemplate → List String → List PlanAction → List PlanAction
with_sources r t [] rest = rest
with_sources r t (id ∷ ids) rest = template_action r t (id ∷ ids) ∷ rest

unfoldable pub template_actions : Option Report → List ActionTemplate → List PlanAction
template_actions r [] = []
template_actions r (t ∷ ts) =
    with_sources r t (present_rule_ids r t.source_rule_ids) (template_actions r ts)

unfoldable pub critical_blocker_actions : Option Report → List PlanAction
critical_blocker_actions r = template_actions r templates

abbrev pub is_required : PlanAction → Bool
is_required a = a.required && elim a.status [ ActionStatus.required ↦ true | _ ↦ false ]

unfoldable pub has_blocking_phase1_action : List PlanAction → Bool
has_blocking_phase1_action actions = any is_required actions

abbrev pub action_plan_verdict : Option Report → Bool → ActionVerdict
action_plan_verdict none is_blocked =
    if is_blocked then ActionVerdict.blocked else ActionVerdict.ready
action_plan_verdict (some r) is_blocked =
    if not (is_complete r)
    then ActionVerdict.assessment_incomplete
    else if is_blocked
    then ActionVerdict.blocked
    else ActionVerdict.ready
