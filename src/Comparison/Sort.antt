-- ===== src/Comparison/Sort.antt =====
-- internal/comparison/sort.go: the order of the buckets.
use kubepreflight.Base.{
  ℕ, String, Bool, ◌==◌, ◌/=◌, string_eq, nat_eq, bool_eq, if◌then◌else◌, Option, none, some, List,
  [], ◌∷◌, lookup, ltb,
}
use kubepreflight.Base.Order.{string_lt}
use kubepreflight.Findings.Types.{Severity}
use kubepreflight.Findings.Context.{UpgradeGate, upgrade_gate_eq}
use kubepreflight.Findings.Reference.{ResourceReference}
use kubepreflight.Findings.Finding.{Finding, effective_upgrade_gate}
use kubepreflight.Comparison.Model.{FieldChange, Changed}

-- A map lookup: a severity that is not in the table ranks 0.
severity_rank : Severity → ℕ
severity_rank Severity.blocker = 0
severity_rank Severity.warning = 1
severity_rank Severity.info = 2
severity_rank (Severity.other t) = 0

pub record EntrySortKey : Type 0 where
  pub priority : String
  pub severity_rnk : ℕ
  pub rule_id : String
  pub namespace : String
  pub name : String
  pub fingerprint : String

unfoldable pub less : EntrySortKey → EntrySortKey → Bool
less k other =
    if k.priority /= other.priority
    then string_lt k.priority other.priority
    else if k.severity_rnk /= other.severity_rnk
    then ltb k.severity_rnk other.severity_rnk
    else if k.rule_id /= other.rule_id
    then string_lt k.rule_id other.rule_id
    else if k.namespace /= other.namespace
    then string_lt k.namespace other.namespace
    else if k.name /= other.name
    then string_lt k.name other.name
    else string_lt k.fingerprint other.fingerprint

priority_for_sort : String → String
priority_for_sort p = if p == "" then "P9" else p

first_resource_identity : List ResourceReference → String × String
first_resource_identity [] = ("", "")
first_resource_identity (r ∷ rs) = (r.namespace, r.name)

unfoldable pub sort_key : Finding → EntrySortKey
unfolding severity_rank priority_for_sort first_resource_identity
sort_key f = record {
  priority = priority_for_sort f.priority;
  severity_rnk = severity_rank f.severity;
  rule_id = f.rule_id;
  namespace = (first_resource_identity f.resources).0;
  name = (first_resource_identity f.resources).1;
  fingerprint = f.fingerprint;
}

-- `After` of the change of the priority, if there is one.
priority_after : Option FieldChange → String
priority_after none = ""
priority_after (some fc) = fc.after

unfoldable pub changed_sort_key : Changed → EntrySortKey
unfolding priority_after priority_for_sort first_resource_identity
changed_sort_key c = record {
  priority = priority_for_sort (priority_after (lookup "priority" c.changes));
  severity_rnk = 0;
  rule_id = c.rule_id;
  namespace = (first_resource_identity c.resources).0;
  name = (first_resource_identity c.resources).1;
  fingerprint = c.fingerprint;
}

unfoldable pub less_entry : Finding → Finding → Bool
less_entry a b = less (sort_key a) (sort_key b)

unfoldable pub less_changed : Changed → Changed → Bool
less_changed a b = less (changed_sort_key a) (changed_sort_key b)

abbrev pub is_blocker : Finding → Bool
is_blocker f = effective_upgrade_gate f == UpgradeGate.block

unfoldable pub less_blocker_first : Finding → Finding → Bool
unfolding less_entry
less_blocker_first a b = if is_blocker a /= is_blocker b then is_blocker a else less_entry a b
