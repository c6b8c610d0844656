-- ===== src/Findings/Reference.antt =====
-- internal/findings/finding.go: `ResourceReference`, its validation and its correlation keys.
use kubepreflight.Base.{
  String, ◌==◌, ◌/=◌, string_eq, if◌then◌else◌, ◌||◌, ◌&&◌, Option, none, some, List, [], ◌∷◌,
}
use kubepreflight.Findings.Types.{Plane, ResourceScope, resource_scope_eq}

pub record ResourceReference : Type 0 where
  pub plane : Plane
  pub kind : String
  pub scope : ResourceScope
  pub namespace : String
  pub name : String
  pub uid : String
  pub source_path : String
  pub category : String
  pub kubernetes_version : String
  pub provider_id : String
  pub provider_name : String

pub data ReferenceError : Type 0 where
  invalid_live invalid_manifest invalid_aws invalid_aws_insight : ReferenceError
  unknown_plane : String → ReferenceError

-- The zero value with the plane set, which the constructors below fill in.
abbrev pub blank_reference : Plane → ResourceReference
blank_reference p = record {
  plane = p;
  kind = "";
  scope = ResourceScope.other "";
  namespace = "";
  name = "";
  uid = "";
  source_path = "";
  category = "";
  kubernetes_version = "";
  provider_id = "";
  provider_name = "";
}

abbrev pub live_resource : String → ResourceScope → String → String → String → ResourceReference
live_resource kind scope namespace name uid =
    let r = blank_reference Plane.live in
    record r { kind = kind; scope = scope; namespace = namespace; name = name; uid = uid }

abbrev pub manifest_resource : String → ResourceScope → String → String → String → ResourceReference
manifest_resource kind scope namespace name source_path =
    let r = blank_reference Plane.manifest in
    record r {
      kind = kind;
      scope = scope;
      namespace = namespace;
      name = name;
      source_path = source_path;
    }

abbrev pub aws_resource : String → String → String → ResourceReference
aws_resource kind name provider_id =
    let r = blank_reference Plane.aws in
    record r { kind = kind; name = name; provider_id = provider_id }

abbrev pub aws_insight_resource : String → String → String → String → ResourceReference
aws_insight_resource category kubernetes_version provider_id provider_name =
    let r = blank_reference Plane.aws in
    record r {
      kind = "EKSUpgradeInsight";
      name = provider_name;
      category = category;
      kubernetes_version = kubernetes_version;
      provider_id = provider_id;
      provider_name = provider_name;
    }

validate_on : Plane → ResourceReference → Option ReferenceError
validate_on Plane.live r =
    if r.kind == "" || r.name == "" || r.uid == "" || r.source_path /= "" || r.provider_id /= ""
    then some invalid_live
    else none
validate_on Plane.manifest r =
    if r.kind == "" || r.name == "" || r.source_path == "" || r.uid /= "" || r.provider_id /= ""
    then some invalid_manifest
    else none
validate_on Plane.aws r =
    if r.provider_id == "" || r.uid /= "" || r.source_path /= ""
    then some invalid_aws
    else if r.kind == "EKSUpgradeInsight" && (r.category == "" || r.kubernetes_version == "")
    then some invalid_aws_insight
    else none
validate_on (Plane.other p) r = some (unknown_plane p)

unfoldable pub validate_reference : ResourceReference → Option ReferenceError
unfolding validate_on
validate_reference r = validate_on r.plane r

-- `canonicalKey` is the hex SHA-256 of the JSON of its parts; the keys take it as an argument.
module _ (canonical_key : List String → String) where
  occurrence_on : Plane → ResourceReference → String
  occurrence_on Plane.live r = canonical_key ("occurrence" ∷ "live" ∷ r.uid ∷ [])
  occurrence_on Plane.manifest r =
      canonical_key ("occurrence" ∷ "manifest" ∷ r.source_path ∷ r.kind ∷ r.namespace ∷ r.name ∷ [])
  occurrence_on Plane.aws r = canonical_key ("occurrence" ∷ "aws" ∷ r.provider_id ∷ [])
  occurrence_on (Plane.other p) r =
      canonical_key ("occurrence" ∷ p ∷ r.kind ∷ r.namespace ∷ r.name ∷ [])

  unfoldable pub occurrence_key : ResourceReference → String
  unfolding occurrence_on
  occurrence_key r = occurrence_on r.plane r

  -- The half that the live and the manifest plane share.
  object_key : ResourceReference → Option String
  object_key r =
      if r.kind == "" || r.name == ""
      then none
      else if r.scope == ResourceScope.namespaced && r.namespace == ""
      then none
      else if r.scope /= ResourceScope.cluster && r.scope /= ResourceScope.namespaced
      then none
      else some (canonical_key ("k8s-object" ∷ r.kind ∷ r.namespace ∷ r.name ∷ []))

  provider_key : ResourceReference → Option String
  provider_key r =
      if r.provider_id == ""
      then none
      else if r.kind == "EKSUpgradeInsight"
      then (if r.category == "" || r.kubernetes_version == ""
          then none
          else some (
              canonical_key
                ("aws-insight" ∷ r.category ∷ r.kubernetes_version ∷ r.provider_id ∷ [])))
      else some (canonical_key ("aws-resource" ∷ r.kind ∷ r.provider_id ∷ []))

  concept_on : Plane → ResourceReference → Option String
  unfolding object_key provider_key
  concept_on Plane.live r = object_key r
  concept_on Plane.manifest r = object_key r
  concept_on Plane.aws r = provider_key r
  concept_on (Plane.other p) r = none

  unfoldable pub concept_key : ResourceReference → Option String
  unfolding concept_on
  concept_key r = concept_on r.plane r
