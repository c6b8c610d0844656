-- ===== src/Rollback/Eks/Target.antt =====
-- internal/rollback/eks/eligibility.go: which record `targetVersionRecord` finds, which
-- statuses are supported, and which errors of the collection count.
use kubepreflight.Base.{
  String, ◌≡◌, Bool, refl, sym, ◌∙◌, ap, Bool, true, false, ◌==◌, string_eq, eq_iff, some, List, [],
  ◌∷◌, ◌++◌, arith, All, Bool-cases, ◌↔◌, ◌⊎◌, ◌||◌, any, inl, inr,
}
use mathlib.Core.Option.{some-injective}
use kubepreflight.Rollback.Eks.Snapshot.{Snapshot, ClusterVersionRecord}
use kubepreflight.Rollback.Eks.History.{
  SdkNames, target_version_record, is_supported_target_status, has_errors, has_error_prefix,
}
use kubepreflight.Rollback.Texts.{has_prefix}

-- The first record of a version: no record before it is of that version.
pub record IsFirst (versions : List ClusterVersionRecord) (target : String)
    (v : ClusterVersionRecord) : Type 0 where
  pub before : List ClusterVersionRecord
  pub after : List ClusterVersionRecord
  pub split : versions ≡ before ++ (v ∷ after)
  pub version : v.version ≡ target
  pub others : All (λ w. w.version == target ≡ false) before

pub target_version_record-IsFirst :
    (versions : List ClusterVersionRecord) (target : String) (v : ClusterVersionRecord)
    → target_version_record versions target ≡ some v
    → IsFirst versions target v
unfolding target_version_record
target_version_record-IsFirst [] target v h = cc
target_version_record-IsFirst (w ∷ ws) target v h = elim (Bool-cases (w.version == target)) [
  | inl e ↦
      let same : w ≡ v = some-injective w v (rw e at h) in
      record {
        before = [];
        after = ws;
        split = ap (λ x. x ∷ ws) same;
        version = sym (ap (λ x. x.version) same) ∙ (eq_iff w.version target).0 e;
        others = tt;
      }
  | inr e ↦
      let rest = target_version_record-IsFirst ws target v (rw e at h) in
      record {
        before = w ∷ rest.before;
        after = rest.after;
        split = ap (λ l. w ∷ l) rest.split;
        version = rest.version;
        others = (e, rest.others);
      }
]

past_others :
    (before after : List ClusterVersionRecord) (target : String) (v : ClusterVersionRecord)
    → v.version ≡ target
    → All (λ w. w.version == target ≡ false) before
    → target_version_record (before ++ (v ∷ after)) target ≡ some v
unfolding target_version_record
past_others [] after target v e h = rw ((eq_iff v.version target).1 e) refl
past_others (w ∷ before) after target v e (k, h) = rw k (past_others before after target v e h)

pub first_found :
    (versions : List ClusterVersionRecord) (target : String) (v : ClusterVersionRecord)
    → IsFirst versions target v
    → target_version_record versions target ≡ some v
first_found versions target v f =
    ap (λ l. target_version_record l target) f.split
    ∙ past_others f.before f.after target v f.version f.others

pub is_supported_target_status_iff :
    (sdk : SdkNames) (status : String)
    → (is_supported_target_status sdk status ≡ true)
      ↔ ((status ≡ sdk.standard_support) ⊎ (status ≡ sdk.extended_support))
unfolding is_supported_target_status
is_supported_target_status_iff sdk status =
    let standard = eq_iff status sdk.standard_support in
    let extended = eq_iff status sdk.extended_support in ground (arith, standard, extended)

-- The collection of the cluster, of its updates or of the versions failed.
abbrev pub is_needed_error : String × String → Bool
is_needed_error e =
    e.0 == "describe-cluster"
    || (e.0 == "list-updates"
        || (e.0 == "describe-cluster-versions" || has_prefix e.0 "describe-update:"))

any-or :
    (p q : String × String → Bool) (es : List (String × String))
    → any (λ e. p e || q e) es ≡ any p es || any q es
any-or p q [] = refl
any-or p q (e ∷ es) = or_middle (p e) (q e) (any p es) (any q es) _ (any-or p q es)
  where
    or_middle : (x y u v w : Bool) → w ≡ u || v → (x || y) || w ≡ (x || u) || (y || v)
    or_middle x y u v w h = ground arith

or_assoc : (x y u v : Bool) → (x || (y || (u || false))) || v ≡ x || (y || (u || v))
or_assoc x y u v = ground arith

any_needed :
    (c l v d : String × String → Bool) (es : List (String × String))
    → (any c es || (any l es || (any v es || false))) || any d es
      ≡ any (λ e. c e || (l e || (v e || d e))) es
any_needed c l v d es =
    or_assoc (any c es) (any l es) (any v es) (any d es)
    ∙ sym (
        any-or c (λ e. l e || (v e || d e)) es
        ∙ ap (λ b. any c es || b)
            (any-or l (λ e. v e || d e) es ∙ ap (λ b. any l es || b) (any-or v d es)))

pub any-is_needed_error :
    (snap : Snapshot)
    → has_errors snap ("describe-cluster" ∷ "list-updates" ∷ "describe-cluster-versions" ∷ [])
        || has_error_prefix snap "describe-update:"
      ≡ any is_needed_error snap.errors
unfolding has_errors has_error_prefix
any-is_needed_error snap =
    any_needed (λ e. e.0 == "describe-cluster") (λ e. e.0 == "list-updates")
      (λ e. e.0 == "describe-cluster-versions") (λ e. has_prefix e.0 "describe-update:") snap.errors
