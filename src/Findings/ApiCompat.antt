-- ===== src/Findings/ApiCompat.antt =====
-- internal/findings/report.go: the API compatibility scorecard.
use Prim.Native.Char.{code}
use Prim.Native.String.{◌++◌ as append}
use kubepreflight.Base.{
  ℕ, ◌+◌, ◌*◌, ◌-◌, String, Bool, true, false, ◌==◌, ◌/=◌, string_eq, nat_eq, if◌then◌else◌, ◌||◌,
  ◌&&◌, Option, none, some, List, [], ◌∷◌, append_unique, length, map, any, ltb,
}
use kubepreflight.Base.Int.{ℤ, pos, negsuc, ◌-ℤ◌, ltb_ℤ}
use kubepreflight.Base.Order.{string_lt}
use kubepreflight.Base.Sorting.{sort}
use kubepreflight.Versions.Parse.{is_space}
use kubepreflight.Findings.Types.{Severity, severity_eq, ResourceScope, resource_scope_eq}
use kubepreflight.Findings.Reference.{ResourceReference}
use kubepreflight.Findings.Finding.{Finding}

pub record ApiCompatibilityItem : Type 0 where
  pub api_version : String
  pub kind : String
  pub count : ℕ
  pub resources : List String

pub data ApiStatus : Type 0 where
  passed warning failed : ApiStatus

pub record ApiCompatibilitySummary : Type 0 where
  pub status : ApiStatus
  pub upgrade_continue : Bool
  pub removed_objects : ℕ
  pub deprecated_objects : ℕ
  pub removed_families : List ApiCompatibilityItem
  pub deprecated_families : List ApiCompatibilityItem
  pub critical_impact : Bool
  pub score_impact : ℤ

-- `strings.TrimPrefix` with the test of `strings.HasPrefix`.
pub cut_prefix : String → String → Option String
cut_prefix String.[] s = some s
cut_prefix (String.◌∷◌ p ps) String.[] = none
cut_prefix (String.◌∷◌ p ps) (String.◌∷◌ c s) =
    let rest = cut_prefix ps s in if code p == code c then rest else none

-- `strings.TrimSpace`.
pub trim_left : String → String
trim_left String.[] = ""
trim_left (String.◌∷◌ c s) =
    let rest = trim_left s in if is_space (code c) then rest else String.◌∷◌ c s

pub trim_right : String → String
trim_right String.[] = ""
trim_right (String.◌∷◌ c s) =
    let rest = trim_right s in if rest == "" && is_space (code c) then "" else String.◌∷◌ c rest

unfoldable pub trim_space : String → String
unfolding trim_left trim_right
trim_space s = trim_right (trim_left s)

-- The first `apiVersion: ` line of the evidence.
family_version : List String → String
unfolding cut_prefix trim_space
family_version [] = ""
family_version (e ∷ es) =
    let rest = family_version es in
    elim (cut_prefix "apiVersion: " e) [ some v ↦ trim_space v | none ↦ rest ]

family_kind : List ResourceReference → String
family_kind [] = ""
family_kind (r ∷ rs) = r.kind

pub api_compatibility_family : Finding → String × String
unfolding family_version family_kind
api_compatibility_family f = (family_version f.evidence, family_kind f.resources)

resource_label : ResourceReference → String
resource_label ref =
    if ref.namespace /= ""
    then append ref.kind (append "/" (append ref.namespace (append "/" ref.name)))
    else append ref.kind (append "/" ref.name)

add_labels : List String → List ResourceReference → List String
unfolding resource_label
add_labels labels [] = labels
add_labels labels (r ∷ rs) = add_labels (append_unique labels (resource_label r)) rs

-- A `map[string]*APICompatibilityItem`, as the list of its entries. The key of an item joins its
-- two names by a byte that neither holds; here it is the pair.
add_api_compatibility_family :
    List ApiCompatibilityItem → String × String → Finding → List ApiCompatibilityItem
unfolding add_labels
add_api_compatibility_family [] (v, k) f =
    record { api_version = v; kind = k; count = 1; resources = add_labels [] f.resources } ∷ []
add_api_compatibility_family (item ∷ items) (v, k) f =
    let rest = add_api_compatibility_family items (v, k) f in
    if item.api_version == v && item.kind == k
    then record item { count = item.count + 1; resources = add_labels item.resources f.resources }
      ∷ items
    else item ∷ rest

item_less : ApiCompatibilityItem → ApiCompatibilityItem → Bool
item_less a b =
    if a.api_version /= b.api_version
    then string_lt a.api_version b.api_version
    else string_lt a.kind b.kind

sort_resources : ApiCompatibilityItem → ApiCompatibilityItem
unfolding sort
sort_resources item = record item { resources = sort string_lt item.resources }

sorted_api_compatibility_families : List ApiCompatibilityItem → List ApiCompatibilityItem
unfolding item_less sort sort_resources
sorted_api_compatibility_families items = sort item_less (map sort_resources items)

api_compatibility_critical_impact : Finding → Bool
api_compatibility_critical_impact f =
    f.global_blocker
    || f.critical_infra
    || any (λ ref. ref.scope == ResourceScope.cluster) f.resources

-- `impact` after the removed families, the critical impact and the deprecated families.
unfoldable pub api_compatibility_score_impact : ℕ → Bool → ℕ → ℤ
unfolding ◌-ℤ◌
api_compatibility_score_impact removed critical deprecated =
    let one = if ltb 0 removed then pos 0 -ℤ pos 25 else pos 0 in
    let more = if ltb 1 removed then one -ℤ pos ((removed - 1) * 10) else one in
    let crit = if critical then more -ℤ pos 15 else more in
    let impact = crit -ℤ pos (deprecated * 5) in
    if ltb_ℤ impact (negsuc 59) then negsuc 59 else impact

abbrev empty_summary : ApiCompatibilitySummary
empty_summary = record {
  status = passed;
  upgrade_continue = true;
  removed_objects = 0;
  deprecated_objects = 0;
  removed_families = [];
  deprecated_families = [];
  critical_impact = false;
  score_impact = pos 0;
}

abbrev warned : ApiStatus → ApiStatus
warned passed = warning
warned s = s

-- One round of the loop over the findings.
count_api_finding : ApiCompatibilitySummary → Finding → ApiCompatibilitySummary
unfolding api_compatibility_family add_api_compatibility_family api_compatibility_critical_impact
count_api_finding s f =
    let family = api_compatibility_family f in
    if f.rule_id /= "API-001" && f.rule_id /= "API-002"
    then s
    else if family.0 == "" && family.1 == ""
    then s
    else if f.rule_id == "API-001" && f.severity == Severity.blocker
    then record s {
      removed_objects = s.removed_objects + 1;
      removed_families = add_api_compatibility_family s.removed_families family f;
      upgrade_continue = false;
      status = failed;
      critical_impact = s.critical_impact || api_compatibility_critical_impact f;
    }
    else if f.rule_id == "API-002" || f.severity == Severity.warning
    then record s {
      deprecated_objects = s.deprecated_objects + 1;
      deprecated_families = add_api_compatibility_family s.deprecated_families family f;
      status = warned s.status;
    }
    else s

count_api_findings : ApiCompatibilitySummary → List Finding → ApiCompatibilitySummary
unfolding count_api_finding
count_api_findings s [] = s
count_api_findings s (f ∷ fs) = count_api_findings (count_api_finding s f) fs

unfoldable pub build_api_compatibility_summary : List Finding → ApiCompatibilitySummary
unfolding count_api_findings sorted_api_compatibility_families api_compatibility_score_impact
build_api_compatibility_summary fs =
    let s = count_api_findings empty_summary fs in
    let removed = sorted_api_compatibility_families s.removed_families in
    let deprecated = sorted_api_compatibility_families s.deprecated_families in
    record s {
      removed_families = removed;
      deprecated_families = deprecated;
      score_impact =
          api_compatibility_score_impact (length removed) s.critical_impact (length deprecated);
    }
