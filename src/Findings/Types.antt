-- ===== src/Findings/Types.antt =====
-- internal/findings/finding.go: the string-typed enumerations of a finding.
-- `other t` is a value `t` that is none of the constants, as a document read from JSON may
-- hold; `…_text` gives the string that a value is.
use kubepreflight.Base.{String, ◌≡◌, ◌↔◌, Bool, true, false, ◌==◌, Eq, eq_iff, arith, string_eq}

pub data Severity : Type 0 where
  blocker warning info : Severity
  other : String → Severity

abbrev pub severity_text : Severity → String
severity_text Severity.blocker = "Blocker"
severity_text Severity.warning = "Warning"
severity_text Severity.info = "Info"
severity_text (Severity.other t) = t

abbrev pub severity_beq : Severity → Severity → Bool
severity_beq Severity.blocker Severity.blocker = true
severity_beq Severity.warning Severity.warning = true
severity_beq Severity.info Severity.info = true
severity_beq (Severity.other s) (Severity.other t) = s == t
severity_beq _ _ = false

pub severity_beq_iff : (a b : Severity) → (severity_beq a b ≡ true) ↔ (a ≡ b)
severity_beq_iff (Severity.other s) (Severity.other t) = ground (arith, eq_iff s t)
severity_beq_iff _ _ = ground arith

instance abbrev pub severity_eq : Eq Severity
severity_eq = record { beq = severity_beq; beq_iff = severity_beq_iff }

pub data ConfidenceTier : Type 0 where
  static_certain provider_reported observed inferred : ConfidenceTier
  other : String → ConfidenceTier

abbrev pub confidence_tier_text : ConfidenceTier → String
confidence_tier_text ConfidenceTier.static_certain = "STATIC_CERTAIN"
confidence_tier_text ConfidenceTier.provider_reported = "PROVIDER_REPORTED"
confidence_tier_text ConfidenceTier.observed = "OBSERVED"
confidence_tier_text ConfidenceTier.inferred = "INFERRED"
confidence_tier_text (ConfidenceTier.other t) = t

abbrev pub confidence_tier_beq : ConfidenceTier → ConfidenceTier → Bool
confidence_tier_beq ConfidenceTier.static_certain ConfidenceTier.static_certain = true
confidence_tier_beq ConfidenceTier.provider_reported ConfidenceTier.provider_reported = true
confidence_tier_beq ConfidenceTier.observed ConfidenceTier.observed = true
confidence_tier_beq ConfidenceTier.inferred ConfidenceTier.inferred = true
confidence_tier_beq (ConfidenceTier.other s) (ConfidenceTier.other t) = s == t
confidence_tier_beq _ _ = false

pub confidence_tier_beq_iff : (a b : ConfidenceTier) → (confidence_tier_beq a b ≡ true) ↔ (a ≡ b)
confidence_tier_beq_iff (ConfidenceTier.other s) (ConfidenceTier.other t) =
    ground (arith, eq_iff s t)
confidence_tier_beq_iff _ _ = ground arith

instance abbrev pub confidence_tier_eq : Eq ConfidenceTier
confidence_tier_eq = record { beq = confidence_tier_beq; beq_iff = confidence_tier_beq_iff }

pub data Plane : Type 0 where
  live manifest aws : Plane
  other : String → Plane

abbrev pub plane_text : Plane → String
plane_text Plane.live = "live"
plane_text Plane.manifest = "manifest"
plane_text Plane.aws = "aws"
plane_text (Plane.other t) = t

abbrev pub plane_beq : Plane → Plane → Bool
plane_beq Plane.live Plane.live = true
plane_beq Plane.manifest Plane.manifest = true
plane_beq Plane.aws Plane.aws = true
plane_beq (Plane.other s) (Plane.other t) = s == t
plane_beq _ _ = false

pub plane_beq_iff : (a b : Plane) → (plane_beq a b ≡ true) ↔ (a ≡ b)
plane_beq_iff (Plane.other s) (Plane.other t) = ground (arith, eq_iff s t)
plane_beq_iff _ _ = ground arith

instance abbrev pub plane_eq : Eq Plane
plane_eq = record { beq = plane_beq; beq_iff = plane_beq_iff }

pub data ResourceScope : Type 0 where
  cluster namespaced : ResourceScope
  other : String → ResourceScope

abbrev pub resource_scope_text : ResourceScope → String
resource_scope_text ResourceScope.cluster = "cluster"
resource_scope_text ResourceScope.namespaced = "namespaced"
resource_scope_text (ResourceScope.other t) = t

abbrev pub resource_scope_beq : ResourceScope → ResourceScope → Bool
resource_scope_beq ResourceScope.cluster ResourceScope.cluster = true
resource_scope_beq ResourceScope.namespaced ResourceScope.namespaced = true
resource_scope_beq (ResourceScope.other s) (ResourceScope.other t) = s == t
resource_scope_beq _ _ = false

pub resource_scope_beq_iff : (a b : ResourceScope) → (resource_scope_beq a b ≡ true) ↔ (a ≡ b)
resource_scope_beq_iff (ResourceScope.other s) (ResourceScope.other t) = ground (arith, eq_iff s t)
resource_scope_beq_iff _ _ = ground arith

instance abbrev pub resource_scope_eq : Eq ResourceScope
resource_scope_eq = record { beq = resource_scope_beq; beq_iff = resource_scope_beq_iff }
