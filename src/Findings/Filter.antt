-- ===== src/Findings/Filter.antt =====
-- internal/findings/filter.go: the namespace allowlist.
use kubepreflight.Base.{
  String, Bool, true, false, not, ◌==◌, ◌/=◌, string_eq, if◌then◌else◌, ◌||◌, List, [], ◌∷◌, has,
  filter, All, All-filter, ◌≡◌, ◌≢◌, arith, All-imp, eq_iff,
}
use kubepreflight.Findings.Types.{ResourceScope, resource_scope_eq}
use kubepreflight.Findings.Reference.{ResourceReference}
use kubepreflight.Findings.Finding.{Finding}

-- The inner loop: `include` after the references, with `break` at the first that is not allowed.
references_allowed : List String → List ResourceReference → Bool
references_allowed namespaces [] = true
references_allowed namespaces (ref ∷ refs) =
    let rest = references_allowed namespaces refs in
    if ref.scope /= ResourceScope.namespaced
    then rest
    else if ref.namespace == "" || not (has ref.namespace namespaces)
    then false
    else rest

pub filter_by_namespace_allowlist : List Finding → List String → List Finding
unfolding references_allowed
filter_by_namespace_allowlist fs [] = fs
filter_by_namespace_allowlist fs (n ∷ ns) = filter (λ f. references_allowed (n ∷ ns) f.resources) fs

-- A reference that the allowlist lets through.
abbrev pub IsAllowed : List String → ResourceReference → Type 0
IsAllowed namespaces ref =
    ref.scope ≡ ResourceScope.namespaced
    → (ref.namespace ≢ "") × (has ref.namespace namespaces ≡ true)

references_allowed_sound :
    (ns : List String) (refs : List ResourceReference)
    → references_allowed ns refs ≡ true
    → All (IsAllowed ns) refs
unfolding references_allowed
references_allowed_sound ns [] h = tt
references_allowed_sound ns (ref ∷ refs) h =
    (λ e. ground (arith, eq_iff ref.namespace ""), references_allowed_sound ns refs (ground arith))

-- With an allowlist, every namespaced reference of every finding that is kept names an allowed
-- namespace, and is not without one.
pub filter_by_namespace_allowlist-All :
    (fs : List Finding) (n : String) (ns : List String)
    → All (λ f. All (IsAllowed (n ∷ ns)) f.resources) (filter_by_namespace_allowlist fs (n ∷ ns))
unfolding filter_by_namespace_allowlist
filter_by_namespace_allowlist-All fs n ns =
    All-imp (λ f h. references_allowed_sound (n ∷ ns) f.resources h) _
      (All-filter (λ f. references_allowed (n ∷ ns) f.resources) fs)
