-- ===== src/Comparison/Diff.antt =====
-- internal/comparison/compare.go: what changed between two findings of one fingerprint.
use Prim.Native.String.{◌++◌ as append}
use kubepreflight.Base.{
  String, Bool, true, false, ◌/=◌, string_eq, bool_eq, if◌then◌else◌, List, [], ◌∷◌, ◌++◌,
}
use kubepreflight.Findings.Types.{
  severity_eq, severity_text, confidence_tier_eq, confidence_tier_text, plane_text,
}
use kubepreflight.Findings.Context.{
  ImpactScope, impact_scope_text, upgrade_gate_eq, upgrade_gate_text,
}
use kubepreflight.Findings.Reference.{ResourceReference}
use kubepreflight.Findings.Finding.{Finding, effective_upgrade_gate}
use kubepreflight.Comparison.Model.{FieldChange}

resource_identity_from : String → List ResourceReference → String
resource_identity_from s [] = s
resource_identity_from s (r ∷ rs) =
    resource_identity_from
      (append s (
        append (plane_text r.plane) (
          append ":"
            (append r.kind (append ":" (append r.namespace (append "/" (append r.name ";"))))))))
      rs

pub resource_identity : List ResourceReference → String
unfolding resource_identity_from
resource_identity refs = resource_identity_from "" refs

impact_scope_identity_from : String → List ImpactScope → String
impact_scope_identity_from s [] = s
impact_scope_identity_from s (scope ∷ scopes) =
    impact_scope_identity_from (append s (append (impact_scope_text scope) ";")) scopes

pub impact_scope_identity : List ImpactScope → String
unfolding impact_scope_identity_from
impact_scope_identity scopes = impact_scope_identity_from "" scopes

-- `strconv.FormatBool`.
abbrev pub format_bool : Bool → String
format_bool true = "true"
format_bool false = "false"

-- One `if` of `diffFinding`: an entry of `changes`, where the field differs.
abbrev pub entry_if : Bool → String → String → String → List (String × FieldChange)
entry_if differs name before after =
    if differs then (name, record { before = before; after = after }) ∷ [] else []

unfoldable pub diff_finding : Finding → Finding → List (String × FieldChange)
diff_finding before after =
    entry_if (before.severity /= after.severity) "severity" (severity_text before.severity)
      (severity_text after.severity)
    ++ entry_if (before.priority /= after.priority) "priority" before.priority after.priority
    ++ entry_if (before.confidence /= after.confidence) "confidence"
        (confidence_tier_text before.confidence) (confidence_tier_text after.confidence)
    ++ entry_if (before.can_upgrade_continue /= after.can_upgrade_continue) "canUpgradeContinue"
        (format_bool before.can_upgrade_continue) (format_bool after.can_upgrade_continue)
    ++ entry_if (effective_upgrade_gate before /= effective_upgrade_gate after) "upgradeGate"
        (upgrade_gate_text (effective_upgrade_gate before))
        (upgrade_gate_text (effective_upgrade_gate after))
    ++ entry_if
        (impact_scope_identity before.impact_scopes /= impact_scope_identity after.impact_scopes)
        "impactScopes" (impact_scope_identity before.impact_scopes)
        (impact_scope_identity after.impact_scopes)
    ++ entry_if (before.affected_scope /= after.affected_scope) "affectedScope"
        before.affected_scope after.affected_scope
    ++ entry_if (before.rule_id /= after.rule_id) "ruleId" before.rule_id after.rule_id
    ++ entry_if (resource_identity before.resources /= resource_identity after.resources) "resource"
        (resource_identity before.resources) (resource_identity after.resources)
