-- ===== src/Rollback/Families/Compatibility/Target.antt =====
-- When the findings' target counts as the rollback target.
use kubepreflight.Base.{
  String, ◌≡◌, ◌≢◌, ◌↔◌, refl, ap, sym, ◌∙◌, true, ◌||◌, ◌==◌, string_eq, Option, none, some, arith,
  Bool-cases, inl, inr, eq_iff, beq_refl,
}
use kubepreflight.Versions.Parse.{normalize_kubernetes_version}
use kubepreflight.Versions.Parse.RoundTrip.{normalize_empty}
use kubepreflight.Versions.Order.{same, compare_minor_versions}
use kubepreflight.Versions.Order.Laws.{compare_minor_versions-same_iff}
use kubepreflight.Rollback.Reasons.{valid_reason_code, valid_reason_codes}
use kubepreflight.Rollback.Texts.{trim_text}
use kubepreflight.Rollback.Provenance.{
  validate_rollback_evidence_target, ApiEvidenceTargetStatus, EvidenceTarget, compare_targets,
}

abbrev IsSameMinor : Option String → Option String → Type 0
IsSameMinor o p = (w : String) × (o ≡ some w) × (p ≡ some w)

compare_targets-validated :
    (label f t : String) (o p : Option String)
    → (compare_targets label f t o p).status ≡ ApiEvidenceTargetStatus.validated
    → IsSameMinor o p
compare_targets-validated label f t none p h = cc
compare_targets-validated label f t (some a) none h = cc
compare_targets-validated label f t (some a) (some b) h = elim (Bool-cases (a == b)) [
  | inl e ↦ (a, refl, ap some (sym ((eq_iff a b).0 e)))
  | inr e ↦
      let k : ApiEvidenceTargetStatus.mismatch ≡ ApiEvidenceTargetStatus.validated = rw e at h in cc
]

compare_targets_self :
    (label f t w : String)
    → (compare_targets label f t (some w) (some w)).status ≡ ApiEvidenceTargetStatus.validated
compare_targets_self label f t w = rw (beq_refl w) refl

empty-other :
    (f t : String)
    → f == "" || t == "" ≡ true
    → IsSameMinor (normalize_kubernetes_version f) (normalize_kubernetes_version t)
    → ⊥
empty-other f t h (w, p, q) = elim (Bool-cases (f == "")) [
  | inl e ↦
      let k : none ≡ some w =
        sym normalize_empty ∙ ap normalize_kubernetes_version (sym ((eq_iff f "").0 e)) ∙ p in
      cc
  | inr e ↦
      let k : none ≡ some w =
        sym normalize_empty
        ∙ ap normalize_kubernetes_version (sym ((eq_iff t "").0 (ground (arith, h, e))))
        ∙ q in
      cc
]

-- Findings are evidence for the rollback target if and only if the version that they were made for
-- and the target, both trimmed, are the same version at the granularity of minor versions.
pub evidence_target-validated_iff :
    (label f t : String)
    → ((validate_rollback_evidence_target label f t).status ≡ ApiEvidenceTargetStatus.validated)
      ↔ (compare_minor_versions (trim_text f) (trim_text t) ≡ inr same)
unfolding validate_rollback_evidence_target
evidence_target-validated_iff label f t =
    let found = trim_text f in
    let target = trim_text t in
    let normal = compare_minor_versions-same_iff found target in
    elim (Bool-cases (found == "" || target == "")) [
      | inl e ↦ rw e (λ h. cc, λ h. absurd (empty-other found target e (normal.0 h)))
      | inr e ↦ rw e (
        λ h. normal.1 (compare_targets-validated label found target _ _ h),
        λ h. let (w, p, q) = normal.0 h in rw (p, q) (compare_targets_self label found target w),
      )
    ]

-- A target that is not validated has a known reason.
pub record HasKnownReason (e : EvidenceTarget) : Type 0 where
  pub known : e.status ≢ ApiEvidenceTargetStatus.validated → valid_reason_code e.reason ≡ true

compare_targets-HasKnownReason :
    (label f t : String) (o p : Option String) → HasKnownReason (compare_targets label f t o p)
unfolding valid_reason_code valid_reason_codes
compare_targets-HasKnownReason label f t none p = record { known = λ _. refl }
compare_targets-HasKnownReason label f t (some a) none = record { known = λ _. refl }
compare_targets-HasKnownReason label f t (some a) (some b) = elim (Bool-cases (a == b)) [
  | inl e ↦ record { known = rw e (λ h. absurd (h refl)) }
  | inr e ↦ record { known = rw e (λ _. refl) }
]

pub evidence_target-HasKnownReason :
    (label f t : String) → HasKnownReason (validate_rollback_evidence_target label f t)
unfolding validate_rollback_evidence_target valid_reason_code valid_reason_codes
evidence_target-HasKnownReason label f t =
    elim (Bool-cases (trim_text f == "" || trim_text t == "")) [
      | inl e ↦ record { known = rw e (λ _. refl) }
      | inr e ↦ record {
        known =
            rw e
              (compare_targets-HasKnownReason label (trim_text f) (trim_text t)
                (normalize_kubernetes_version (trim_text f))
                (normalize_kubernetes_version (trim_text t))).known;
      }
    ]
