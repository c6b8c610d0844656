-- ===== src/Plan/Action/Sources.antt =====
-- The rules that an action names as its sources are rules with a finding.
use kubepreflight.Base.{
  String, ◌≡◌, refl, sym, ◌∙◌, Bool, true, ◌&&◌, ◌==◌, string_eq, Option, List, [], ◌∷◌, any, has,
  arith, All, All-imp, Bool-cases, inl, inr, eq_iff, beq_refl, subst,
}
use kubepreflight.Base.Order.{string_lt}
use kubepreflight.Base.Sorting.{any-sort}
use kubepreflight.Findings.Finding.{Finding}
use kubepreflight.Findings.Report.{Report}
use kubepreflight.Plan.Action.{findings_of, seen_rule_ids, present_rule_ids}

module _ (p : String → Bool) where
  any_of_has : (x : String) (xs : List String) → has x xs ≡ true → p x ≡ true → any p xs ≡ true
  any_of_has x [] h e = cc
  any_of_has x (y ∷ ys) h e = ground (arith, eq_iff y x, any_of_has x ys)

  any-seen :
      (ids : List String) (fs : List Finding)
      → any p (seen_rule_ids ids fs) ≡ any (λ f. has f.rule_id ids && p f.rule_id) fs
  unfolding seen_rule_ids
  any-seen ids [] = refl
  any-seen ids (f ∷ fs) =
      ground (arith, any-seen ids fs, any_of_has f.rule_id (seen_rule_ids ids fs))

  -- A present rule with some property is a wanted rule of a finding with that property.
  pub any-present :
      (r : Option Report) (ids : List String)
      → any p (present_rule_ids r ids) ≡ any (λ f. has f.rule_id ids && p f.rule_id) (findings_of r)
  unfolding present_rule_ids
  any-present r ids =
      any-sort string_lt p (seen_rule_ids ids (findings_of r)) ∙ any-seen ids (findings_of r)

-- A test that some member of a list passes is passed by the list.
any_self : (fs : List Finding) → All (λ f. (q : Finding → Bool) → q f ≡ true → any q fs ≡ true) fs
any_self [] = tt
any_self (f ∷ fs) =
    (λ q e. ground (arith, e), All-imp (λ g h q e. ground (arith, h q e)) fs (any_self fs))

has-wanted :
    (x : String) (ids : List String) (fs : List Finding)
    → any (λ f. has f.rule_id ids && f.rule_id == x) fs ≡ true
    → has x ids ≡ true
has-wanted x ids [] h = cc
has-wanted x ids (f ∷ fs) h = elim (Bool-cases (has f.rule_id ids && f.rule_id == x)) [
  | inl e ↦
      subst (λ y. has y ids ≡ true) ((eq_iff f.rule_id x).0 (ground (arith, e))) (ground (arith, e))
  | inr e ↦ has-wanted x ids fs (rw e at h)
]

-- Of the rules that have a finding, the present ones are the wanted ones.
pub has-present :
    (r : Option Report) (ids : List String)
    → All (λ f. has f.rule_id (present_rule_ids r ids) ≡ has f.rule_id ids) (findings_of r)
has-present r ids =
    All-imp
      (λ f member. elim (Bool-cases (has f.rule_id ids)) [
        | inl e ↦
            any-present (λ y. y == f.rule_id) r ids
            ∙ member (λ g. has g.rule_id ids && g.rule_id == f.rule_id)
                (rw (e, beq_refl f.rule_id) refl)
            ∙ sym e
        | inr e ↦ elim (Bool-cases (has f.rule_id (present_rule_ids r ids))) [
          | inl k ↦
              let wanted =
                has-wanted f.rule_id ids (findings_of r)
                  (sym (any-present (λ y. y == f.rule_id) r ids) ∙ k) in
              cc
          | inr k ↦ k ∙ sym e
        ]
      ])
      (findings_of r) (any_self (findings_of r))
