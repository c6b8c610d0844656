-- ===== src/Findings/Finding.antt =====
-- internal/findings/finding.go: `Finding` and its validation; context.go: `EffectiveUpgradeGate`.
use kubepreflight.Base.{
  ℕ, suc, String, Bool, true, false, not, ◌==◌, ◌/=◌, string_eq, if◌then◌else◌, ◌||◌, ◌&&◌, Option,
  none, some, List, [], ◌∷◌,
}
use kubepreflight.Findings.Types.{Severity, severity_eq, ConfidenceTier, confidence_tier_eq}
use kubepreflight.Findings.Context.{
  ImpactScope, UpgradeGate, upgrade_gate_eq, ContextError, validate_impact_scope,
  validate_upgrade_gate,
}
use kubepreflight.Findings.Reference.{ResourceReference, ReferenceError, validate_reference}

pub record RemediationChange : Type 0 where
  pub field : String
  pub current : String
  pub required : String

pub record RemediationAction : Type 0 where
  pub label : String
  pub steps : List String
  pub command : String
  pub risky : Bool

pub record RemediationDetail : Type 0 where
  pub affected_file : String
  pub changes : List RemediationChange
  pub diff : String
  pub safe_fix : Option RemediationAction
  pub emergency : Option RemediationAction
  pub break_glass : Option RemediationAction
  pub verify_command : String
  pub expected_result : String

pub record Finding : Type 0 where
  pub rule_id : String
  pub severity : Severity
  pub confidence : ConfidenceTier
  pub message : String
  pub resources : List ResourceReference
  pub evidence : List String
  pub remediation : String
  pub remediation_detail : Option RemediationDetail
  pub impact_scopes : List ImpactScope
  pub upgrade_gate : UpgradeGate
  pub global_blocker : Bool
  pub critical_infra : Bool
  pub priority : String
  pub priority_reason : String
  pub affected_scope : String
  pub can_upgrade_continue : Bool
  pub fingerprint : String

-- The gate that counts: the one that a rule set, else `block` for a blocker.
unfoldable pub effective_upgrade_gate : Finding → UpgradeGate
effective_upgrade_gate f =
    if f.upgrade_gate /= UpgradeGate.unset
    then f.upgrade_gate
    else if f.global_blocker || f.severity == Severity.blocker
    then UpgradeGate.block
    else UpgradeGate.allow

-- `rule_id` of the texts is that of the finding, and is left out here.
pub data FindingError : Type 0 where
  no_rule_id no_resources no_fingerprint break_glass_not_risky : FindingError
  invalid_severity : Severity → FindingError
  invalid_confidence : ConfidenceTier → FindingError
  bad_resource : ℕ → ReferenceError → FindingError
  bad_context : ContextError → FindingError

-- The loop over `f.Resources`, from index `i`.
validate_resources : ℕ → List ResourceReference → Option FindingError
validate_resources i [] = none
validate_resources i (r ∷ rs) =
    let rest = validate_resources (suc i) rs in
    elim (validate_reference r) [ some e ↦ some (bad_resource i e) | none ↦ rest ]

-- The loop over `f.ImpactScopes`.
validate_scopes : List ImpactScope → Option FindingError
validate_scopes [] = none
validate_scopes (s ∷ ss) =
    let rest = validate_scopes ss in
    elim (validate_impact_scope s) [ some e ↦ some (bad_context e) | none ↦ rest ]

-- A break-glass action that is there and is not marked risky.
tame_action : Option RemediationAction → Bool
tame_action none = false
tame_action (some a) = not a.risky

tame_break_glass : Option RemediationDetail → Bool
unfolding tame_action
tame_break_glass none = false
tame_break_glass (some d) = tame_action d.break_glass

is_nil {ℓ} : {A : Type ℓ} → List A → Bool
is_nil [] = true
is_nil (x ∷ xs) = false

validate_gate : UpgradeGate → Option FindingError
validate_gate g = elim (validate_upgrade_gate g) [ some e ↦ some (bad_context e) | none ↦ none ]

-- An early return: the first error that there is.
infixr 28 ◌orelse◌
abbrev ◌orelse◌ : Option FindingError → Option FindingError → Option FindingError
some e orelse r = some e
none orelse r = r

abbrev fails_if : Bool → FindingError → Option FindingError
fails_if b e = if b then some e else none

unfoldable pub validate : Finding → Option FindingError
unfolding validate_resources validate_scopes tame_break_glass is_nil validate_gate
validate f =
    fails_if (f.rule_id == "") no_rule_id
    orelse fails_if
        (f.severity /= Severity.blocker
          && f.severity /= Severity.warning
          && f.severity /= Severity.info)
        (invalid_severity f.severity)
    orelse fails_if
        (f.confidence /= ConfidenceTier.static_certain
          && f.confidence /= ConfidenceTier.provider_reported
          && f.confidence /= ConfidenceTier.observed
          && f.confidence /= ConfidenceTier.inferred)
        (invalid_confidence f.confidence)
    orelse fails_if (is_nil f.resources) no_resources
    orelse validate_resources 0 f.resources
    orelse fails_if (f.fingerprint == "") no_fingerprint
    orelse fails_if (tame_break_glass f.remediation_detail) break_glass_not_risky
    orelse validate_scopes f.impact_scopes
    orelse validate_gate f.upgrade_gate
