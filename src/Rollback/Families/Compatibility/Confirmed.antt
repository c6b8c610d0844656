-- ===== src/Rollback/Families/Compatibility/Confirmed.antt =====
-- Confirmed API blockers fail the check of compatibility.
use kubepreflight.Base.{
  String, ◌≡◌, refl, ap, ◌∙◌, Bool, true, not, ◌&&◌, ◌||◌, ◌==◌, if_intro, string_eq, List, [], ◌∷◌,
  any, arith, Bool-cases, inl, inr, filter,
}
use kubepreflight.Findings.Types.{Severity, severity_eq}
use kubepreflight.Findings.Finding.{Finding}
use kubepreflight.Findings.Report.{Report}
use kubepreflight.Rollback.Types.{CheckStatus, check_status_eq}
use kubepreflight.Rollback.Reasons.{
  ReasonCode, reason_new_version_api_adoption_risk, reason_crd_webhook_controller_risk,
}
use kubepreflight.Rollback.Model.{Check, Assessment}
use kubepreflight.Rollback.Checks.{
  raise, rule_matches, apply_finding_signals, findings_with_prefixes, signal_status,
  max_check_status,
}
use kubepreflight.Rollback.Checks.Laws.{apply_finding_signals-keeps}
use kubepreflight.Rollback.Freshness.{FindingsFreshness, freshness_blocks, apply_provenance_gates}
use kubepreflight.Rollback.Provenance.{
  ClusterEvidenceIdentity, identity_blocks, ApiEvidenceTargetStatus,
}
use kubepreflight.Rollback.Families.Compatibility.{
  evidence_target, api_rules, route_api, apply_api_evidence_findings,
  apply_crd_webhook_evidence_findings, target_gated_crd_webhook_findings, no_findings,
  reverse_compatibility, api_part, crd_webhook_part, reverse_compatibility_check,
}

-- A check that has failed.
pub record Failed (c : Check) : Type 0 where
  pub failed : c.status ≡ CheckStatus.fail

raise-Failed :
    (c : Check) (s : CheckStatus) (reason : ReasonCode) (lines : List String)
    → Failed c
    → Failed (raise c s reason lines)
raise-Failed c s reason lines h = record {
  failed = ap (λ t. max_check_status t s) h.failed ∙ fail_max s;
}
  where
    fail_max : (s : CheckStatus) → max_check_status CheckStatus.fail s ≡ CheckStatus.fail
    fail_max s = ground arith

fail_raises :
    (c : Check) (reason : ReasonCode) (lines : List String)
    → Failed (raise c CheckStatus.fail reason lines)
fail_raises c reason lines = record { failed = max_fail c.status }
  where
    max_fail : (s : CheckStatus) → max_check_status s CheckStatus.fail ≡ CheckStatus.fail
    max_fail s = ground arith

signals_keep :
    (fs : List Finding) (prefixes : List String) (reason : ReasonCode) (c : Check)
    → Failed c
    → Failed (apply_finding_signals c fs prefixes reason)
signals_keep fs prefixes reason =
    apply_finding_signals-keeps Failed fs prefixes reason
      (λ c s lines k. raise-Failed c (signal_status s) reason lines k)

-- A finding that counts and is a blocker.
abbrev pub confirms : List String → Finding → Bool
confirms prefixes f = rule_matches f.rule_id prefixes && f.severity == Severity.blocker

signals-Failed :
    (fs : List Finding) (prefixes : List String) (reason : ReasonCode) (c : Check)
    → any (confirms prefixes) fs ≡ true
    → Failed (apply_finding_signals c fs prefixes reason)
unfolding apply_finding_signals
signals-Failed [] prefixes reason c h = cc
signals-Failed (f ∷ fs) prefixes reason c h = elim (Bool-cases (confirms prefixes f)) [
  | inr e ↦ signals-Failed fs prefixes reason _ (rw e at h)
  | inl e ↦
      let m : rule_matches f.rule_id prefixes ≡ true = ground (arith, e) in
      let b : f.severity ≡ Severity.blocker =
        (severity_eq.beq_iff f.severity Severity.blocker).0 (ground (arith, e)) in
      signals_keep fs prefixes reason _ (rw (m, b) (fail_raises c reason _))
]

any-filter :
    (p q : Finding → Bool) (fs : List Finding)
    → any (λ f. p f && q f) (filter p fs) ≡ any (λ f. p f && q f) fs
any-filter p q [] = refl
any-filter p q (f ∷ fs) = ground (arith, any-filter p q fs)

route_api-Failed :
    (a : Assessment) (r : Report) (fs : List Finding)
    → (evidence_target "API compatibility" a r).status ≡ ApiEvidenceTargetStatus.validated
    → any (confirms api_rules) fs ≡ true
    → Failed (route_api reverse_compatibility a r fs)
route_api-Failed a r [] h k = cc
route_api-Failed a r (f ∷ fs) h k =
    rw h (
      signals-Failed (f ∷ fs) api_rules reason_new_version_api_adoption_risk reverse_compatibility
        k)

unless_validated-Failed :
    (c : Check) (s : ApiEvidenceTargetStatus) (x : ReasonCode) (l : List String) (d : Check)
    → Failed c
    → Failed d
    → Failed
        (elim s [ ApiEvidenceTargetStatus.validated ↦ d | _ ↦ raise c CheckStatus.unknown x l ])
unless_validated-Failed c ApiEvidenceTargetStatus.validated x l d h i = i
unless_validated-Failed c ApiEvidenceTargetStatus.mismatch x l d h i =
    raise-Failed c CheckStatus.unknown x l h
unless_validated-Failed c ApiEvidenceTargetStatus.unknown x l d h i =
    raise-Failed c CheckStatus.unknown x l h

crd_webhook-Failed :
    (c : Check) (a : Assessment) (r : Report) (fs : List Finding)
    → Failed c
    → Failed (apply_crd_webhook_evidence_findings c a r fs)
unfolding apply_crd_webhook_evidence_findings
crd_webhook-Failed c a r [] h = h
crd_webhook-Failed c a r (f ∷ fs) h =
    let e = evidence_target "CRD/webhook compatibility" a r in
    unless_validated-Failed c e.status e.reason e.evidence _ h
      (signals_keep (f ∷ fs) ("CRD-" ∷ "WH-" ∷ []) reason_crd_webhook_controller_risk c h)

module _ (id : ClusterEvidenceIdentity) (f : FindingsFreshness) where
  gates-Failed : (c : Check) → Failed c → Failed (apply_provenance_gates c id f)
  unfolding apply_provenance_gates
  gates-Failed c h =
      let once =
        if_intro Failed (identity_blocks id) (raise c CheckStatus.unknown id.reason id.evidence) c
          (λ _. raise-Failed c CheckStatus.unknown id.reason id.evidence h) (λ _. h) in
      if_intro Failed (freshness_blocks f) _ _
        (λ _. raise-Failed _ CheckStatus.unknown f.reason f.evidence once) (λ _. once)

  crd_webhook_part-Failed :
      (c : Check) (a : Assessment) (r : Report) → Failed c → Failed (crd_webhook_part c a r id f)
  unfolding crd_webhook_part
  crd_webhook_part-Failed c a r h =
      let webhooks = findings_with_prefixes r.findings ("WH-002" ∷ []) in
      let targeted = target_gated_crd_webhook_findings r.findings in
      if_intro Failed (no_findings webhooks && no_findings targeted) c _ (λ _. h)
        λ _.
          if_intro Failed (identity_blocks id || freshness_blocks f) _ _ (λ _. gates-Failed c h)
            λ _.
              crd_webhook-Failed _ a r targeted
                (signals_keep webhooks ("WH-002" ∷ []) reason_crd_webhook_controller_risk c h)

  api_part-Failed :
      (a : Assessment) (r : Report)
      → (evidence_target "API compatibility" a r).status ≡ ApiEvidenceTargetStatus.validated
      → any (confirms api_rules) r.findings ≡ true
      → Failed (api_part a r f)
  unfolding api_part apply_api_evidence_findings findings_with_prefixes
  api_part-Failed a r h k =
      let fs = findings_with_prefixes r.findings api_rules in
      let found =
        any-filter (λ g. rule_matches g.rule_id api_rules) (λ g. g.severity == Severity.blocker)
          r.findings
        ∙ k in
      let routed = route_api-Failed a r fs h found in
      if_intro Failed (not (no_findings fs) && freshness_blocks f) _ _
        (λ _. raise-Failed _ CheckStatus.unknown f.reason f.evidence routed) (λ _. routed)

  -- Where the findings were made for the rollback target, a blocker of API-001 or API-002 fails the
  -- check of compatibility, whichever cluster the findings describe and however old they are.
  pub reverse_compatibility_check-fail :
      (a : Assessment) (r : Report)
      → (evidence_target "API compatibility" a r).status ≡ ApiEvidenceTargetStatus.validated
      → any (confirms api_rules) r.findings ≡ true
      → (reverse_compatibility_check a r id f).status ≡ CheckStatus.fail
  unfolding reverse_compatibility_check
  reverse_compatibility_check-fail a r h k =
      let whole = crd_webhook_part-Failed _ a r (api_part-Failed a r h k) in
      (if_intro Failed (_ == CheckStatus.pass) _ _ (λ _. record { failed = whole.failed })
        (λ _. whole)).failed
