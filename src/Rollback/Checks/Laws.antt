-- ===== src/Rollback/Checks/Laws.antt =====
-- The readiness of a set of checks is that of its worst check, and readiness never gets better when
-- checks are added.
use kubepreflight.Base.{
  ℕ, String, ◌≡◌, ap, ◌∙◌, Bool, true, false, ◌||◌, ◌==◌, if◌then◌else◌, ltb, List, [], ◌∷◌, arith,
  string_eq,
}
use kubepreflight.Findings.Types.{Severity}
use kubepreflight.Findings.Finding.{Finding}
use kubepreflight.Rollback.Types.{
  ReadinessStatus, readiness_status_eq, valid_readiness_status, CheckStatus, check_status_eq,
  valid_check_status,
}
use kubepreflight.Rollback.Reasons.{ReasonCode, valid_reason_code}
use kubepreflight.Rollback.Model.{Check, Readiness}
use kubepreflight.Rollback.Recommendation.Laws.{valid_check, all-append_unique}
use kubepreflight.Rollback.Checks.{
  check_rank, raise, rule_matches, finding_line, apply_finding_signals, signal_status, count_check,
  count_checks, readiness_of_counts, no_readiness, readiness_from_checks, combine_readiness,
}

abbrev pub max : ℕ → ℕ → ℕ
max a b = if ltb a b then b else a

abbrev pub readiness_rank : ReadinessStatus → ℕ
readiness_rank ReadinessStatus.blocked = 3
readiness_rank ReadinessStatus.insufficient_evidence = 2
readiness_rank ReadinessStatus.high_risk = 1
readiness_rank _ = 0

abbrev pub worst_rank : List Check → ℕ
worst_rank [] = 0
worst_rank (c ∷ cs) = max (check_rank c.status) (worst_rank cs)

-- The rank that three counters amount to.
abbrev counts_rank : ℕ → ℕ → ℕ → ℕ
counts_rank blockers unknowns warnings =
    if ltb 0 blockers then 3 else if ltb 0 unknowns then 2 else if ltb 0 warnings then 1 else 0

abbrev rank_of : Readiness → ℕ
rank_of r = counts_rank r.blockers r.unknowns r.warnings

count_check_rank :
    (s : CheckStatus) (r : Readiness) → rank_of (count_check s r) ≡ max (rank_of r) (check_rank s)
count_check_rank s r = ground arith

count_checks_rank :
    (r : Readiness) (cs : List Check)
    → rank_of (count_checks r cs) ≡ max (rank_of r) (worst_rank cs)
unfolding count_checks
count_checks_rank r [] = ground arith
count_checks_rank r (c ∷ cs) =
    count_checks_rank (count_check c.status r) cs
    ∙ ap (λ n. max n (worst_rank cs)) (count_check_rank c.status r)
    ∙ max_assoc (rank_of r) (check_rank c.status) (worst_rank cs)
  where
    max_assoc : (a b c : ℕ) → max (max a b) c ≡ max a (max b c)
    max_assoc a b c = ground arith

readiness_of_counts_rank :
    (r : Readiness) → readiness_rank (readiness_of_counts r).status ≡ rank_of r
readiness_of_counts_rank r = ground arith

-- The readiness of checks has the rank of the worst check: blocked for a failure, else insufficient
-- evidence for an unknown check, else high risk for a warning, else ready.
pub readiness_from_checks_rank :
    (cs : List Check) → readiness_rank (readiness_from_checks cs).status ≡ worst_rank cs
unfolding readiness_from_checks
readiness_from_checks_rank cs =
    readiness_of_counts_rank (count_checks no_readiness cs)
    ∙ count_checks_rank no_readiness cs
    ∙ zero_max (worst_rank cs)
  where
    zero_max : (n : ℕ) → max 0 n ≡ n
    zero_max n = ground arith

pub readiness_from_checks-valid :
    (cs : List Check) → valid_readiness_status (readiness_from_checks cs).status ≡ true
unfolding readiness_from_checks
readiness_from_checks-valid cs = valid (count_checks no_readiness cs)
  where
    valid : (r : Readiness) → valid_readiness_status (readiness_of_counts r).status ≡ true
    valid r = ground arith

-- A status of the four, or the empty one of a new assessment.
abbrev pub is_known : ReadinessStatus → Bool
is_known s = s == ReadinessStatus.other "" || valid_readiness_status s

-- Combined readiness has the worse rank of the two, whatever their order.
pub combine_readiness_rank :
    (existing operational : Readiness)
    → is_known existing.status ≡ true
    → valid_readiness_status operational.status ≡ true
    → readiness_rank (combine_readiness existing operational).status
      ≡ max (readiness_rank existing.status) (readiness_rank operational.status)
unfolding combine_readiness
combine_readiness_rank e o h k = ground (arith, h, k)

pub combine_readiness-valid :
    (existing operational : Readiness)
    → is_known existing.status ≡ true
    → valid_readiness_status operational.status ≡ true
    → valid_readiness_status (combine_readiness existing operational).status ≡ true
unfolding combine_readiness
combine_readiness-valid e o h k = ground (arith, h, k)

-- Raising a check keeps it valid.
pub raise-valid :
    (c : Check) (s : CheckStatus) (reason : ReasonCode) (lines : List String)
    → valid_check c ≡ true
    → valid_check_status s ≡ true
    → valid_reason_code reason ≡ true
    → valid_check (raise c s reason lines) ≡ true
raise-valid c s reason lines h hs hr =
    let kept = all-append_unique valid_reason_code c.reason_codes reason (ground (arith, h)) hr in
    rw kept (ground (arith, h, hs))

-- What a raised check keeps, the signals of findings keep.
pub apply_finding_signals-keeps :
    (P : Check → Type 0) (fs : List Finding) (prefixes : List String) (reason : ReasonCode)
    → ((c : Check) (s : Severity) (lines : List String)
        → P c
        → P (raise c (signal_status s) reason lines))
    → (c : Check) → P c
    → P (apply_finding_signals c fs prefixes reason)
unfolding apply_finding_signals
apply_finding_signals-keeps P [] prefixes reason keeps c h = h
apply_finding_signals-keeps P (f ∷ fs) prefixes reason keeps c h =
    apply_finding_signals-keeps P fs prefixes reason keeps _
      (step (rule_matches f.rule_id prefixes))
  where
    step :
        (b : Bool)
        → P (if b then raise c (signal_status f.severity) reason (finding_line f ∷ []) else c)
    step true = keeps c f.severity _ h
    step false = h

signal_valid : (s : Severity) → valid_check_status (signal_status s) ≡ true
signal_valid s = ground arith

pub apply_finding_signals-valid :
    (c : Check) (fs : List Finding) (prefixes : List String) (reason : ReasonCode)
    → valid_check c ≡ true
    → valid_reason_code reason ≡ true
    → valid_check (apply_finding_signals c fs prefixes reason) ≡ true
apply_finding_signals-valid c fs prefixes reason h hr =
    apply_finding_signals-keeps (λ c. valid_check c ≡ true) fs prefixes reason
      (λ c s lines k. raise-valid c (signal_status s) reason lines k (signal_valid s) hr) c h
