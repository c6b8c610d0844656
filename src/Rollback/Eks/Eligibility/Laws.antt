-- ===== src/Rollback/Eks/Eligibility/Laws.antt =====
-- When a rollback is eligible.
use kubepreflight.Base.{
  ℕ, ◌+◌, ◌≤◌, ◌<◌, String, ◌≡◌, ◌≢◌, ◌↔◌, refl, sym, ◌∙◌, Bool, true, false, ◌&&◌, ◌==◌, ◌/=◌,
  string_eq, Option, none, some, List, [], ◌∷◌, ◌++◌, arith, Bool-cases, inl, inr, ◌⊎◌, any, leb,
  eq_iff, beq_refl,
}
use kubepreflight.Rollback.Types.{EligibilityStatus}
use kubepreflight.Rollback.Reasons.{
  ReasonCode, reason_rollback_target_unsupported, reason_rollback_target_requires_extended_support,
  reason_previous_version_not_n_minus_one, reason_rollback_window_expired,
  reason_cluster_not_active,
}
use kubepreflight.Rollback.Eks.Snapshot.{
  Snapshot, UpdateRecord, ClusterVersionRecord, previous_minor,
}
use kubepreflight.Rollback.Eks.History.{
  SdkNames, rollback_window, target_version_record, previous_version_is_n_minus_one,
  is_supported_target_status, latest_successful_version_update,
}
use kubepreflight.Rollback.Eks.Latest.{
  IsLatest, latest_successful_version_update-IsLatest, upgrade_found,
}
use kubepreflight.Rollback.Eks.Target.{
  is_supported_target_status_iff, is_needed_error, any-is_needed_error, IsFirst,
  target_version_record-IsFirst, first_found,
}
use kubepreflight.Rollback.Eks.Checklist.{reason_if}
use kubepreflight.Rollback.Eks.Eligibility.{
  record_reasons, target_reasons, update_reasons, eligibility_reasons, collection_failed,
  evaluate_eligibility,
}

module _ (sdk : SdkNames) (print_time : ℕ → String) where
  -- The target is known to AWS, in a support that the cluster's policy allows.
  pub record TargetAllowed (snap : Snapshot) (target : String) (v : ClusterVersionRecord)
      : Type 0 where
    pub known : IsFirst snap.cluster_versions target v
    pub supported : (v.status ≡ sdk.standard_support) ⊎ (v.status ≡ sdk.extended_support)
    pub policy : v.status == sdk.extended_support && snap.support_type /= sdk.extended ≡ false

  -- The newest upgrade is recent.
  pub record WindowOpen (snap : Snapshot) (now : ℕ) (u : UpdateRecord) : Type 0 where
    pub latest : IsLatest sdk snap.updates snap.current_version u
    pub in_time : now < u.created_at + rollback_window

  -- What makes a rollback eligible.
  pub record CanRollBack (snap : Snapshot) (now : ℕ) : Type 0 where
    pub collected : any is_needed_error snap.errors ≡ false
    pub active : snap.cluster_status /= "" && snap.cluster_status /= "ACTIVE" ≡ false
    pub has_target : previous_minor snap.current_version ≢ ""
    pub record_of_target : ClusterVersionRecord
    pub allowed : TargetAllowed snap (previous_minor snap.current_version) record_of_target
    pub update : UpdateRecord
    pub window : WindowOpen snap now update

  reason_if-nil : (b : Bool) (r : ReasonCode) → reason_if b r ≡ [] → b ≡ false
  reason_if-nil true r h = cc
  reason_if-nil false r h = refl

  append-nil_both : (xs ys : List ReasonCode) → xs ++ ys ≡ [] → (xs ≡ []) × (ys ≡ [])
  append-nil_both [] ys h = (refl, h)
  append-nil_both (x ∷ xs) ys h = cc

  allowed_of_nil :
      (snap : Snapshot) (target : String) (o : Option ClusterVersionRecord)
      → target_version_record snap.cluster_versions target ≡ o
      → record_reasons sdk print_time snap o ≡ []
      → (v : ClusterVersionRecord) × TargetAllowed snap target v
  allowed_of_nil snap target none e h = cc
  allowed_of_nil snap target (some v) e h =
      elim (Bool-cases (is_supported_target_status sdk v.status)) [
        | inr s ↦ let k : reason_rollback_target_unsupported ∷ [] ≡ [] = rw s at h in cc
        | inl s ↦ (
          v,
          record {
            known = target_version_record-IsFirst snap.cluster_versions target v e;
            supported = (is_supported_target_status_iff sdk v.status).0 s;
            policy = reason_if-nil _ reason_rollback_target_requires_extended_support (rw s at h);
          },
        )
      ]

  target-allowed :
      (snap : Snapshot) (target : String)
      → target_reasons sdk print_time snap target
          (target_version_record snap.cluster_versions target)
        ≡ []
      → (target ≢ "") × ((v : ClusterVersionRecord) × TargetAllowed snap target v)
  target-allowed snap target h = elim (Bool-cases (target == "")) [
    | inl t ↦ let k : reason_previous_version_not_n_minus_one ∷ [] ≡ [] = rw t at h in cc
    | inr t ↦ (
      λ s. let k : false ≡ true = sym t ∙ (eq_iff target "").1 s in cc,
      allowed_of_nil snap target (target_version_record snap.cluster_versions target) refl
          (rw t at h),
    )
  ]

  window_of_nil :
      (snap : Snapshot) (target : String) (now : ℕ) (o : Option UpdateRecord)
      → latest_successful_version_update sdk snap.updates snap.current_version ≡ o
      → update_reasons sdk print_time snap target now o ≡ []
      → (u : UpdateRecord) × WindowOpen snap now u
  window_of_nil snap target now none e h = cc
  window_of_nil snap target now (some u) e h =
      let expired : leb (u.created_at + rollback_window) now ≡ false =
        reason_if-nil (leb (u.created_at + rollback_window) now) reason_rollback_window_expired
          (append-nil_both _ _ h).1 in
      (
        u,
        record {
          latest =
              latest_successful_version_update-IsLatest sdk snap.current_version snap.updates u e;
          in_time = ground (arith, expired);
        },
      )

  -- Without a reason against it, a rollback is possible.
  reasons-nil :
      (snap : Snapshot) (now : ℕ)
      → collection_failed sdk print_time snap ≡ false
      → eligibility_reasons sdk print_time snap now ≡ []
      → CanRollBack snap now
  unfolding eligibility_reasons
  reasons-nil snap now c h =
      let target = previous_minor snap.current_version in
      let (status, rest) = append-nil_both _ _ h in
      let (targets, updates) = append-nil_both _ _ rest in
      let (named, (v, allowed)) = target-allowed snap target targets in
      let (u, window) = window_of_nil snap target now _ refl updates in
      record {
        collected = sym (any-is_needed_error snap) ∙ c;
        active = reason_if-nil _ reason_cluster_not_active status;
        has_target = named;
        record_of_target = v;
        allowed = allowed;
        update = u;
        window = window;
      }

  target_named : (s : String) → s ≢ "" → s == "" ≡ false
  target_named s h = elim (Bool-cases (s == "")) [
    | inl e ↦ absurd (h ((eq_iff s "").0 e))
    | inr e ↦ e
  ]

  n_minus_one :
      (current : String)
      → previous_minor current ≢ ""
      → previous_version_is_n_minus_one current (previous_minor current) ≡ true
  unfolding previous_version_is_n_minus_one
  n_minus_one current h =
      rw (target_named (previous_minor current) h, beq_refl (previous_minor current)) refl

  -- A rollback that is possible has no reason against it.
  nil-reasons :
      (snap : Snapshot) (now : ℕ)
      → CanRollBack snap now
      → eligibility_reasons sdk print_time snap now ≡ []
  unfolding eligibility_reasons
  nil-reasons snap now c =
      let latest = c.window.latest in
      let (v, found) =
        upgrade_found sdk snap.current_version snap.updates c.update latest.present
          latest.upgrade in
      let other =
        latest_successful_version_update-IsLatest sdk snap.current_version snap.updates v found in
      let no_older : c.update.created_at ≤ v.created_at =
        other.newest c.update latest.present latest.upgrade in
      let in_time : leb (v.created_at + rollback_window) now ≡ false =
        ground (arith, c.window.in_time, no_older) in
      rw
        (
          c.active,
          target_named _ c.has_target,
          first_found snap.cluster_versions _ _ c.allowed.known,
          (is_supported_target_status_iff sdk _).1 c.allowed.supported,
          c.allowed.policy,
          found,
          n_minus_one snap.current_version c.has_target,
          in_time,
        )
        refl

  eligible_of_reasons :
      (reasons : List ReasonCode)
      → ((elim reasons [ [] ↦ EligibilityStatus.eligible | _ ∷ _ ↦ EligibilityStatus.unavailable ])
          ≡ EligibilityStatus.eligible)
        ↔ (reasons ≡ [])
  eligible_of_reasons [] = (λ _. refl, λ _. refl)
  eligible_of_reasons (r ∷ rs) = (λ h. cc, λ h. cc)

  -- A rollback is eligible if and only if the collection of the cluster, its updates and the
  -- versions had no error, the cluster is active or its status unknown, there is a previous minor
  -- version whose first record has a support that the policy allows, and some upgrade to the current
  -- version, than which no other one is newer, was made less than seven days ago. An upgrade is a
  -- successful update of the version whose version is the current one or is not recorded; if the
  -- current version is unknown, its version may be any.
  pub evaluate_eligibility-eligible_iff :
      (snap : Snapshot) (now : ℕ)
      → ((evaluate_eligibility sdk print_time (some snap) now).eligibility.status
          ≡ EligibilityStatus.eligible)
        ↔ CanRollBack snap now
  unfolding evaluate_eligibility
  evaluate_eligibility-eligible_iff snap now =
      elim (Bool-cases (collection_failed sdk print_time snap)) [
        | inl h ↦ rw h (
          λ k. cc,
          λ c. let k : true ≡ false = sym h ∙ any-is_needed_error snap ∙ c.collected in cc,
        )
        | inr h ↦
            let decision = eligible_of_reasons (eligibility_reasons sdk print_time snap now) in
            rw h
              (λ k. reasons-nil snap now h (decision.0 k), λ c. decision.1 (nil-reasons snap now c))
      ]
