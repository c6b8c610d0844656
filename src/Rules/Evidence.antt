-- ===== src/Rules/Evidence.antt =====
-- internal/rules/execution.go: the evidence that a rule depends on, and its state in a scan. What
-- the collectors gather in a snapshot besides its errors is `K`, `A` and `M`: only the rules read
-- it.
use Prim.Native.String.{◌++◌ as append}
use text.Mathlib.Text.{starts_with}
use kubepreflight.Base.{
  String, Bool, true, false, ◌==◌, string_eq, if◌then◌else◌, Option, none, some, List, [], ◌∷◌, any,
  has,
}
use kubepreflight.Findings.Context.{UpgradeContext}

-- A Go string type: any other text is a value too.
pub data EvidencePlane : Type 0 where
  kubernetes aws manifests : EvidencePlane
  other : String → EvidencePlane

abbrev pub evidence_plane_text : EvidencePlane → String
evidence_plane_text kubernetes = "kubernetes"
evidence_plane_text aws = "aws"
evidence_plane_text manifests = "manifests"
evidence_plane_text (other s) = s

pub record EvidenceDependency : Type 0 where
  pub plane : EvidencePlane
  pub key : String
  pub prefix : Bool

unfoldable pub label : EvidenceDependency → String
label d =
    if d.key == ""
    then evidence_plane_text d.plane
    else if d.prefix
    then append (evidence_plane_text d.plane) (append ":" (append d.key "*"))
    else append (evidence_plane_text d.plane) (append ":" d.key)

-- A snapshot of a plane: the keys of its map `Errors`, and what was collected.
pub record Snapshot (E : Type 0) : Type 0 where
  pub errors : List String
  pub evidence : E

-- A plane that was not attempted has no snapshot.
pub record ScanContext (K A M : Type 0) : Type 0 where
  pub k8s : Option (Snapshot K)
  pub aws : Option (Snapshot A)
  pub manifests : Option (Snapshot M)
  pub upgrade_context : UpgradeContext
  pub kubernetes_requested : Bool
  pub aws_requested : Bool
  pub manifests_requested : Bool

pub data DependencyState : Type 0 where
  not_applicable available partial missing : DependencyState

unfoldable pub dependency_errored : EvidenceDependency → List String → Bool
dependency_errored dep [] = false
dependency_errored dep (e ∷ es) =
    if dep.key == ""
    then true
    else if dep.prefix
    then any (λ key. starts_with key dep.key) (e ∷ es)
    else has dep.key (e ∷ es)

-- One case of the `switch`: whether the plane was requested, its snapshot, and the test of its
-- errors.
abbrev plane_state :
    {E : Type 0} → Bool → Option (Snapshot E) → (List String → Bool) → DependencyState
plane_state requested none errored = if requested then missing else not_applicable
plane_state requested (some s) errored = if errored s.errors then partial else available

abbrev any_error : List String → Bool
any_error [] = false
any_error (e ∷ es) = true

module _ {K A M : Type 0} where
  state_in : EvidencePlane → EvidenceDependency → ScanContext K A M → DependencyState
  unfolding dependency_errored
  state_in kubernetes dep sc = plane_state sc.kubernetes_requested sc.k8s (dependency_errored dep)
  state_in aws dep sc = plane_state sc.aws_requested sc.aws (dependency_errored dep)
  state_in manifests dep sc = plane_state sc.manifests_requested sc.manifests any_error
  state_in (other s) dep sc = missing

  -- A nil context is `none`.
  unfoldable pub dependency_state :
      EvidenceDependency → Option (ScanContext K A M) → DependencyState
  unfolding state_in
  dependency_state dep none = missing
  dependency_state dep (some sc) = state_in dep.plane dep sc
