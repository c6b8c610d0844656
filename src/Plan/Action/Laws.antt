-- ===== src/Plan/Action/Laws.antt =====
-- When an action of the first phase is required.
use kubepreflight.Base.{
  String, ◌≡◌, ◌≢◌, refl, ap, sym, ◌∙◌, Bool, true, false, not, ◌&&◌, ◌||◌, ◌==◌, string_eq, Option,
  List, [], ◌∷◌, any, has, arith, All, All-imp, Bool-cases, inl, inr, ◌⊎◌,
}
use kubepreflight.Findings.Context.{UpgradeGate, upgrade_gate_eq}
use kubepreflight.Findings.Finding.{Finding, effective_upgrade_gate}
use kubepreflight.Findings.Report.{Report}
use kubepreflight.Plan.Templates.{ActionTemplate, templates}
use kubepreflight.Plan.Action.{
  findings_of, present_rule_ids, has_blocker_for_rules, is_recommended, template_action,
  with_sources, template_actions, critical_blocker_actions, is_required, has_blocking_phase1_action,
  PlanAction,
}
use kubepreflight.Plan.Action.Sources.{any-present, has-present}

abbrev pub is_block : Finding → Bool
is_block f = effective_upgrade_gate f == UpgradeGate.block

-- A template demands an action: a finding of one of its rules is there, which blocks if the
-- template makes warnings optional.
abbrev pub demands : Option Report → ActionTemplate → Bool
demands r t =
    any (λ f. has f.rule_id t.source_rule_ids && (not t.optional_when_only_warnings || is_block f))
      (findings_of r)

module _ {A : Type 0} where
  any-congr : (p q : A → Bool) (xs : List A) → All (λ x. p x ≡ q x) xs → any p xs ≡ any q xs
  any-congr p q [] h = refl
  any-congr p q (x ∷ xs) (e, h) = ground (arith, e, any-congr p q xs h)

  pub any_imp :
      (p q : A → Bool) (xs : List A)
      → ((x : A) → p x ≡ true → q x ≡ true)
      → any p xs ≡ true
      → any q xs ≡ true
  any_imp p q [] f h = cc
  any_imp p q (x ∷ xs) f h = ground (arith, f x, any_imp p q xs f)

  any-false : (xs : List A) → any (λ x. false) xs ≡ false
  any-false [] = refl
  any-false (x ∷ xs) = any-false xs

  any_all : (xs : List A) → xs ≢ [] → any (λ x. true) xs ≡ true
  any_all [] h = absurd (h refl)
  any_all (x ∷ xs) h = refl

-- The blockers of the present rules are those of the wanted rules.
has_blocker-present :
    (r : Option Report) (ids : List String)
    → has_blocker_for_rules r (present_rule_ids r ids) ≡ has_blocker_for_rules r ids
unfolding has_blocker_for_rules
has_blocker-present r ids =
    any-congr (λ f. has f.rule_id (present_rule_ids r ids) && is_block f)
      (λ f. has f.rule_id ids && is_block f) (findings_of r)
      (All-imp (λ f e. ground (arith, e)) (findings_of r) (has-present r ids))

and_true :
    (r : Option Report) (ids : List String)
    → All (λ f. (has f.rule_id ids && true) ≡ has f.rule_id ids) (findings_of r)
and_true r ids = every (findings_of r)
  where
    every : (fs : List Finding) → All (λ f. (has f.rule_id ids && true) ≡ has f.rule_id ids) fs
    every [] = tt
    every (f ∷ fs) = (ground arith, every fs)

not-not : (b : Bool) → not (not b) ≡ b
not-not b = ground arith

some_present :
    (r : Option Report) (ids : List String)
    → any (λ x. true) (present_rule_ids r ids) ≡ any (λ f. has f.rule_id ids) (findings_of r)
some_present r ids =
    any-present (λ x. true) r ids
    ∙ any-congr (λ f. has f.rule_id ids && true) (λ f. has f.rule_id ids) (findings_of r)
        (and_true r ids)

none_present :
    (r : Option Report) (t : ActionTemplate)
    → present_rule_ids r t.source_rule_ids ≡ []
    → demands r t ≡ false
none_present r t e = elim (Bool-cases (demands r t)) [
  | inl h ↦
      let seen =
        any_imp
          (λ f.
            has f.rule_id t.source_rule_ids && (not t.optional_when_only_warnings || is_block f))
          (λ f. has f.rule_id t.source_rule_ids) (findings_of r) (λ f k. ground (arith, k)) h in
      let unseen : false ≡ true =
        ap (any (λ x. true)) (sym e) ∙ some_present r t.source_rule_ids ∙ seen in
      cc
  | inr h ↦ h
]

-- With a finding of one of its rules there, a template demands an action as it recommends none.
demands-present :
    (r : Option Report) (t : ActionTemplate)
    → present_rule_ids r t.source_rule_ids ≢ []
    → not (is_recommended r t (present_rule_ids r t.source_rule_ids)) ≡ demands r t
unfolding has_blocker_for_rules
demands-present r t h =
    let ids = t.source_rule_ids in
    let found = sym (some_present r ids) ∙ any_all (present_rule_ids r ids) h in
    elim (Bool-cases t.optional_when_only_warnings) [
      | inl o ↦ rw o (
          ap (λ b. not (not b)) (has_blocker-present r ids) ∙ not-not (has_blocker_for_rules r ids))
      | inr o ↦ rw o (
          sym (
            any-congr (λ f. has f.rule_id ids && true) (λ f. has f.rule_id ids) (findings_of r)
              (and_true r ids)
            ∙ found))
    ]

nil_or : {A : Type 0} (xs : List A) → (xs ≡ []) ⊎ (xs ≢ [])
nil_or [] = inl refl
nil_or (x ∷ xs) = inr (λ e. cc)

is_required-template_action :
    (r : Option Report) (t : ActionTemplate) (ids : List String)
    → is_required (template_action r t ids) ≡ not (is_recommended r t ids)
is_required-template_action r t ids = elim (Bool-cases (is_recommended r t ids)) [
  | inl e ↦ rw e refl
  | inr e ↦ rw e refl
]

any-with_sources :
    (r : Option Report) (t : ActionTemplate) (ids : List String) (rest : List PlanAction)
    → ids ≢ []
    → any is_required (with_sources r t ids rest)
      ≡ is_required (template_action r t ids) || any is_required rest
any-with_sources r t [] rest h = absurd (h refl)
any-with_sources r t (id ∷ ids) rest h = refl

template_actions-cons :
    (r : Option Report) (t : ActionTemplate) (rest : List PlanAction)
    → any is_required (with_sources r t (present_rule_ids r t.source_rule_ids) rest)
      ≡ demands r t || any is_required rest
template_actions-cons r t rest = elim (nil_or (present_rule_ids r t.source_rule_ids)) [
  | inl e ↦
      ap (λ ids. any is_required (with_sources r t ids rest)) e
      ∙ ap (λ b. b || any is_required rest) (sym (none_present r t e))
  | inr h ↦
      any-with_sources r t _ rest h
      ∙ ap (λ b. b || any is_required rest)
          (is_required-template_action r t (present_rule_ids r t.source_rule_ids)
            ∙ demands-present r t h)
]

any-template_actions :
    (r : Option Report) (ts : List ActionTemplate)
    → any is_required (template_actions r ts) ≡ any (demands r) ts
unfolding template_actions
any-template_actions r [] = refl
any-template_actions r (t ∷ ts) =
    template_actions-cons r t (template_actions r ts)
    ∙ ap (λ b. demands r t || b) (any-template_actions r ts)

pub has_blocking-critical :
    (r : Option Report)
    → has_blocking_phase1_action (critical_blocker_actions r) ≡ any (demands r) templates
unfolding has_blocking_phase1_action critical_blocker_actions
has_blocking-critical r = any-template_actions r templates
