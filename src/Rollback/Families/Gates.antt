-- ===== src/Rollback/Families/Gates.antt =====
-- What the gates let through: evidence of another cluster or of another day never counts.
use kubepreflight.Base.{
  ℕ, ◌+◌, ◌≤◌, ◌<◌, String, ◌≡◌, ◌≢◌, ◌↔◌, refl, sym, ◌∙◌, Bool, true, false, ◌&&◌, ◌||◌, ◌==◌,
  nat_eq, if◌then◌else◌, if_intro, string_eq, List, [], ◌∷◌, arith, Bool-cases, inl, inr, ◌⊎◌,
}
use kubepreflight.Findings.Types.{Severity, severity_eq}
use kubepreflight.Findings.Finding.{Finding}
use kubepreflight.Findings.Report.{Report}
use kubepreflight.Rollback.Types.{CheckStatus, check_status_eq}
use kubepreflight.Rollback.Reasons.{ReasonCode}
use kubepreflight.Rollback.Model.{Check, Cluster}
use kubepreflight.Rollback.Texts.{trim_text}
use kubepreflight.Rollback.Checks.{raise, max_check_status}
use kubepreflight.Rollback.Freshness.{
  FindingsFreshness, FindingsFreshnessStatus, freshness_blocks, apply_provenance_gates,
  findings_max_age, findings_future_skew_tolerance, freshness_between, validate_findings_freshness,
}
use kubepreflight.Rollback.Provenance.{
  ClusterEvidenceIdentity, identity_blocks, is_manifest_only_report, name_of, region_of,
}
use kubepreflight.Rollback.Families.Disruption.{
  disruptions, gated, disruption_check, route_disruption_finding, route_disruption_findings,
  rollback_operation_evidence, disruption_status, disruption_activation_confirmed,
  is_disruption_finding,
}

unknown_max :
    (s : CheckStatus)
    → (s ≡ CheckStatus.pass) ⊎ (s ≡ CheckStatus.unknown)
    → max_check_status s CheckStatus.unknown ≡ CheckStatus.unknown
unknown_max s h = ground (arith, h)

-- A passing check that some gate blocks becomes unknown.
gates-unknown :
    (c : Check) (id : ClusterEvidenceIdentity) (f : FindingsFreshness)
    → c.status ≡ CheckStatus.pass
    → identity_blocks id || freshness_blocks f ≡ true
    → (apply_provenance_gates c id f).status ≡ CheckStatus.unknown
unfolding apply_provenance_gates
gates-unknown c id f h k = elim (Bool-cases (identity_blocks id)) [
  | inl e ↦ elim (Bool-cases (freshness_blocks f)) [
    | inl g ↦ rw (e, g, h) refl
    | inr g ↦ rw (e, g, h) refl
  ]
  | inr e ↦ rw (e, or_right (identity_blocks id) (freshness_blocks f) e k, h) refl
]
  where
    or_right : (a b : Bool) → a ≡ false → a || b ≡ true → b ≡ true
    or_right a b h k = ground (arith, h, k)

gated-unknown :
    (c : Check) (id : ClusterEvidenceIdentity) (f : FindingsFreshness) (d : Check)
    → c.status ≡ CheckStatus.pass
    → identity_blocks id || freshness_blocks f ≡ true
    → (gated c id f d).status ≡ CheckStatus.unknown
gated-unknown c id f d h k = rw k (gates-unknown c id f h k)

-- The report names the cluster and its region, none of the four names being empty.
pub record DescribesCluster (r : Report) (cluster : Cluster) : Type 0 where
  pub name : name_of r.eks_cluster ≡ trim_text cluster.name
  pub region : region_of r.eks_cluster ≡ trim_text cluster.region
  pub named : name_of r.eks_cluster ≢ ""
  pub located : region_of r.eks_cluster ≢ ""

abbrev pub IsRecent : ℕ → ℕ → Type 0
IsRecent s e =
    (0 < s) × (0 < e) × (s ≤ e + findings_future_skew_tolerance) × (e ≤ s + findings_max_age)

module _ (print_time : ℕ → String) (print_age : ℕ → String) where
  between-fresh_iff :
      (s e : ℕ)
      → ((freshness_between print_time print_age s e).status ≡ FindingsFreshnessStatus.fresh) ↔ (
          (0 < s) × (0 < e) × (s ≤ e + findings_future_skew_tolerance) × (e ≤ s + findings_max_age))
  unfolding freshness_between
  between-fresh_iff s e = ground arith

  -- A report with evidence of a live cluster is fresh if and only if both times are known, the scan
  -- is at most 5 minutes ahead of the assessment, and at most 24 hours behind it.
  pub validate_findings_freshness-fresh_iff :
      (r : Report) (e : ℕ)
      → is_manifest_only_report r ≡ false
      → ((validate_findings_freshness print_time print_age r e).status
          ≡ FindingsFreshnessStatus.fresh)
        ↔ ((0 < r.scanned_at)
            × (0 < e)
            × (r.scanned_at ≤ e + findings_future_skew_tolerance)
            × (e ≤ r.scanned_at + findings_max_age))
  unfolding validate_findings_freshness
  validate_findings_freshness-fresh_iff r e h = rw h (between-fresh_iff r.scanned_at e)

-- A check that has not failed.
pub record NotFailed (c : Check) : Type 0 where
  pub not_failed : c.status ≢ CheckStatus.fail

not_activated :
    (f : Finding) → disruption_status f rollback_operation_evidence ≡ CheckStatus.warning
unfolding disruption_activation_confirmed
not_activated f =
    elim f.severity
      as (λ s.
        (if s == Severity.blocker && false then CheckStatus.fail else CheckStatus.warning)
        ≡ CheckStatus.warning) [
          | Severity.blocker ↦ refl
          | Severity.warning ↦ refl
          | Severity.info ↦ refl
          | Severity.other t ↦ refl
        ]

warning-NotFailed :
    (c : Check) (reason : ReasonCode) (lines : List String)
    → NotFailed c
    → NotFailed (raise c CheckStatus.warning reason lines)
warning-NotFailed c reason lines h = record { not_failed = no_fail c.status h.not_failed }
  where
    no_fail :
        (s : CheckStatus)
        → s ≢ CheckStatus.fail
        → max_check_status s CheckStatus.warning ≢ CheckStatus.fail
    no_fail s h e = ground (arith, h, e)

route-NotFailed :
    (c : Check) (g : Finding)
    → NotFailed c
    → NotFailed (route_disruption_finding c g rollback_operation_evidence)
unfolding route_disruption_finding
route-NotFailed c g h =
    if_intro NotFailed (g.rule_id == "DRAIN-005") c _ (λ _. h)
      (λ _. rw (not_activated g) (warning-NotFailed c _ _ h))

routes-NotFailed :
    (gs : List Finding) (c : Check)
    → NotFailed c
    → NotFailed (route_disruption_findings c gs rollback_operation_evidence)
unfolding route_disruption_findings
routes-NotFailed [] c h = h
routes-NotFailed (g ∷ gs) c h =
    routes-NotFailed gs _ (
      if_intro NotFailed (is_disruption_finding g.rule_id) _ c (λ _. route-NotFailed c g h)
        (λ _. h))

-- No disruption budget and no drain finding, a blocker included, ever fails the disruption check.
pub disruption_check-ne-fail :
    (r : Report) (id : ClusterEvidenceIdentity) (f : FindingsFreshness)
    → (disruption_check r id f).status ≢ CheckStatus.fail
unfolding disruption_check
disruption_check-ne-fail r id f = elim (Bool-cases (identity_blocks id || freshness_blocks f)) [
  | inl k ↦ λ e. let u = sym (gated-unknown disruptions id f _ refl k) ∙ e in cc
  | inr k ↦
      rw k
        (if_intro NotFailed (_ == CheckStatus.pass) _ _
          (λ e. record { not_failed = routed.not_failed }) (λ _. routed)).not_failed
]
  where
    routed :
        NotFailed (route_disruption_findings disruptions r.findings rollback_operation_evidence)
    routed = routes-NotFailed r.findings disruptions (record { not_failed = λ e. cc })
