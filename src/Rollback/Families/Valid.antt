-- ===== src/Rollback/Families/Valid.antt =====
-- Every check that is made of a findings report has a status and reason codes that `Validate` knows.
use kubepreflight.Base.{
  ℕ, String, ◌≡◌, refl, true, ◌||◌, ◌==◌, ◌/=◌, if_intro, nat_eq, ltb, ◌+◌, ◌-◌, string_eq, List,
  [], ◌∷◌, Bool-cases, inl, inr,
}
use kubepreflight.Findings.Finding.{Finding}
use kubepreflight.Findings.Execution.{coverage_status_eq}
use kubepreflight.Findings.Report.{Report}
use kubepreflight.Rollback.Types.{CheckStatus, check_status_eq, valid_check_status}
use kubepreflight.Rollback.Reasons.{ReasonCode, valid_reason_code, valid_reason_codes}
use kubepreflight.Rollback.Model.{Check, Cluster}
use kubepreflight.Rollback.Recommendation.Laws.{valid_check}
use kubepreflight.Rollback.Checks.{raise, apply_finding_signals}
use kubepreflight.Rollback.Checks.Laws.{raise-valid, apply_finding_signals-valid}
use kubepreflight.Rollback.Freshness.{
  FindingsFreshness, findings_max_age, findings_future_skew_tolerance, freshness_blocks,
  apply_provenance_gates, apply_identity_gate, validate_findings_freshness, freshness_between,
}
use kubepreflight.Rollback.Provenance.{
  ClusterEvidenceIdentity, identity_blocks, validate_cluster_evidence_identity,
  is_manifest_only_report, identity_between,
}
use kubepreflight.Rollback.Families.Disruption.{
  gated, evidence_of_pass, self_managed_addon_check, workload_health_check,
  RollbackOperationEvidence, route_disruption_finding, route_disruption_findings, disruption_status,
  disruption_check, is_disruption_finding,
}

-- A gate that blocks has a reason that is known.
pub record IdentityValid (id : ClusterEvidenceIdentity) : Type 0 where
  pub known : identity_blocks id ≡ true → valid_reason_code id.reason ≡ true

pub record FreshnessValid (f : FindingsFreshness) : Type 0 where
  pub known : freshness_blocks f ≡ true → valid_reason_code f.reason ≡ true

pub record Valid (c : Check) : Type 0 where
  pub holds : valid_check c ≡ true

identity_between-IdentityValid : (a b c d : String) → IdentityValid (identity_between a b c d)
unfolding identity_between valid_reason_code valid_reason_codes
identity_between-IdentityValid a b c d =
    elim (Bool-cases (a == "" || (b == "" || (c == "" || d == "")))) [
      | inl h ↦ record { known = rw h (λ _. refl) }
      | inr h ↦ elim (Bool-cases (a /= c || b /= d)) [
        | inl k ↦ record { known = rw (h, k) (λ _. refl) }
        | inr k ↦ record { known = rw (h, k) (λ e. cc) }
      ]
    ]

pub validate_identity-IdentityValid :
    (r : Report) (c : Cluster) → IdentityValid (validate_cluster_evidence_identity r c)
unfolding validate_cluster_evidence_identity
validate_identity-IdentityValid r c = elim (Bool-cases (is_manifest_only_report r)) [
  | inl h ↦ record { known = rw h (λ e. cc) }
  | inr h ↦ record { known = rw h (identity_between-IdentityValid _ _ _ _).known }
]

module _ (print_time : ℕ → String) (print_age : ℕ → String) where
  freshness_between-FreshnessValid :
      (s e : ℕ) → FreshnessValid (freshness_between print_time print_age s e)
  unfolding freshness_between valid_reason_code valid_reason_codes
  freshness_between-FreshnessValid s e = elim (Bool-cases (s == 0)) [
    | inl h ↦ record { known = rw h (λ _. refl) }
    | inr h ↦ elim (Bool-cases (e == 0)) [
      | inl k ↦ record { known = rw (h, k) (λ _. refl) }
      | inr k ↦ elim (Bool-cases (ltb (e + findings_future_skew_tolerance) s)) [
        | inl l ↦ record { known = rw (h, k, l) (λ _. refl) }
        | inr l ↦ elim (Bool-cases (ltb findings_max_age (e - s))) [
          | inl m ↦ record { known = rw (h, k, l, m) (λ _. refl) }
          | inr m ↦ record { known = rw (h, k, l, m) (λ p. cc) }
        ]
      ]
    ]
  ]

  pub validate_freshness-FreshnessValid :
      (r : Report) (at : ℕ) → FreshnessValid (validate_findings_freshness print_time print_age r at)
  unfolding validate_findings_freshness
  validate_freshness-FreshnessValid r at = elim (Bool-cases (is_manifest_only_report r)) [
    | inl h ↦ record { known = rw h (λ e. cc) }
    | inr h ↦ record { known = rw h (freshness_between-FreshnessValid _ _).known }
  ]

pub raise-Valid :
    (c : Check) (s : CheckStatus) (reason : ReasonCode) (lines : List String)
    → Valid c
    → valid_check_status s ≡ true
    → valid_reason_code reason ≡ true
    → Valid (raise c s reason lines)
raise-Valid c s reason lines h hs hr = record { holds = raise-valid c s reason lines h.holds hs hr }

pub signals-Valid :
    (c : Check) (fs : List Finding) (prefixes : List String) (reason : ReasonCode)
    → Valid c
    → valid_reason_code reason ≡ true
    → Valid (apply_finding_signals c fs prefixes reason)
signals-Valid c fs prefixes reason h hr = record {
  holds = apply_finding_signals-valid c fs prefixes reason h.holds hr;
}

pub apply_gates-Valid :
    (c : Check) (id : ClusterEvidenceIdentity) (f : FindingsFreshness)
    → Valid c
    → IdentityValid id
    → FreshnessValid f
    → Valid (apply_provenance_gates c id f)
unfolding apply_provenance_gates
apply_gates-Valid c id f h hi hf =
    let gated_once =
      if_intro Valid (identity_blocks id) (apply_identity_gate c id) c
        (λ e. raise-Valid c CheckStatus.unknown id.reason id.evidence h refl (hi.known e))
        (λ _. h) in
    if_intro Valid (freshness_blocks f) _ _
      (λ e. raise-Valid _ CheckStatus.unknown f.reason f.evidence gated_once refl (hf.known e))
      (λ _. gated_once)

pub gated-Valid :
    (c : Check) (id : ClusterEvidenceIdentity) (f : FindingsFreshness) (d : Check)
    → Valid c
    → IdentityValid id
    → FreshnessValid f
    → Valid d
    → Valid (gated c id f d)
gated-Valid c id f d h hi hf k =
    if_intro Valid (identity_blocks id || freshness_blocks f) _ _
      (λ _. apply_gates-Valid c id f h hi hf) (λ _. k)

pub evidence_of_pass-Valid : (line : String) (c : Check) → Valid c → Valid (evidence_of_pass line c)
evidence_of_pass-Valid line c h =
    if_intro Valid (c.status == CheckStatus.pass) _ c (λ _. record { holds = h.holds }) (λ _. h)

module _ (id : ClusterEvidenceIdentity) (f : FindingsFreshness) (hi : IdentityValid id)
    (hf : FreshnessValid f) where
  pub self_managed_addon-Valid : (r : Report) → Valid (self_managed_addon_check r id f)
  unfolding self_managed_addon_check valid_reason_code valid_reason_codes
  self_managed_addon-Valid r =
      gated-Valid _ id f _ (record { holds = refl }) hi hf
        (evidence_of_pass-Valid _ _ (signals-Valid _ r.findings _ _ (record { holds = refl }) refl))

  pub workload_health-Valid : (r : Report) → Valid (workload_health_check r id f)
  unfolding workload_health_check valid_reason_code valid_reason_codes
  workload_health-Valid r =
      gated-Valid _ id f _ (record { holds = refl }) hi hf
        (evidence_of_pass-Valid _ _ (signals-Valid _ r.findings _ _ (record { holds = refl }) refl))

  route_disruption-Valid :
      (c : Check) (g : Finding) (e : RollbackOperationEvidence)
      → Valid c
      → Valid (route_disruption_finding c g e)
  unfolding route_disruption_finding valid_reason_code valid_reason_codes
  route_disruption-Valid c g e h =
      if_intro Valid (g.rule_id == "DRAIN-005") c _ (λ _. h)
        (λ _.
          raise-Valid c (disruption_status g e) _ _ h
            (if_intro (λ s. valid_check_status s ≡ true) _ CheckStatus.fail CheckStatus.warning
              (λ _. refl) (λ _. refl))
            refl)

  routes-Valid :
      (gs : List Finding) (c : Check) (e : RollbackOperationEvidence)
      → Valid c
      → Valid (route_disruption_findings c gs e)
  unfolding route_disruption_findings
  routes-Valid [] c e h = h
  routes-Valid (g ∷ gs) c e h = routes-Valid gs _ e (
      if_intro Valid (is_disruption_finding g.rule_id) _ c (λ _. route_disruption-Valid c g e h)
        (λ _. h))

  pub disruption-Valid : (r : Report) → Valid (disruption_check r id f)
  unfolding disruption_check
  disruption-Valid r =
      gated-Valid _ id f _ (record { holds = refl }) hi hf
        (evidence_of_pass-Valid _ _ (routes-Valid r.findings _ _ (record { holds = refl })))
