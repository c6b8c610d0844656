-- ===== src/Findings/Readiness/Continue.antt =====
-- When the scorecard lets an upgrade continue.
use kubepreflight.Base.{
  ◌≡◌, refl, ap, ◌∙◌, String, Bool, true, not, ◌==◌, string_eq, ◌&&◌, ◌||◌, arith, some, List, [],
  ◌∷◌, map, any, all, lookup, lookup-all, All, inl, inr, Bool-cases, ltb,
}
use kubepreflight.Findings.Context.{UpgradeGate, upgrade_gate_eq}
use kubepreflight.Findings.Finding.{Finding, effective_upgrade_gate}
use kubepreflight.Findings.Readiness.{
  Verdict, incomplete, verdict_beq, UpgradeReadinessCategory, category_order, category_by_rule_id,
  empty_category, count_in_category, update_category, count_finding, count_findings, any_blocker,
  sort_rule_ids, readiness_categories, build_upgrade_readiness_summary,
}

abbrev pub is_block : Finding → Bool
is_block f = effective_upgrade_gate f == UpgradeGate.block

abbrev named : String → List UpgradeReadinessCategory → Bool
named name = any (λ cat. cat.name == name)

-- The rule of the finding stands in `categoryByRuleID`.
abbrev pub HasCategory : Finding → Type 0
HasCategory f = (name : String) × (lookup f.rule_id category_by_rule_id ≡ some name)

count_in_category-name :
    (f : Finding) (cat : UpgradeReadinessCategory) → (count_in_category f cat).name ≡ cat.name
unfolding count_in_category
count_in_category-name f cat = ground arith

count_in_category-blocked :
    (f : Finding) (cat : UpgradeReadinessCategory)
    → ltb 0 (count_in_category f cat).blocker_count ≡ (ltb 0 cat.blocker_count || is_block f)
unfolding count_in_category
count_in_category-blocked f cat = ground arith

named-update_category :
    (m name : String) (f : Finding) (cats : List UpgradeReadinessCategory)
    → named m (update_category name f cats) ≡ named m cats
unfolding update_category
named-update_category m name f [] = refl
named-update_category m name f (cat ∷ cats) = elim (Bool-cases (cat.name == name)) [
  | inl h ↦ rw h (ap (λ t. t == m || named m cats) (count_in_category-name f cat))
  | inr h ↦ rw h (ap (λ t. cat.name == m || t) (named-update_category m name f cats))
]

any_blocker-update_category :
    (name : String) (f : Finding) (cats : List UpgradeReadinessCategory)
    → named name cats ≡ true
    → any_blocker (update_category name f cats) ≡ (any_blocker cats || is_block f)
unfolding update_category any_blocker
any_blocker-update_category name f [] h = cc
any_blocker-update_category name f (cat ∷ cats) h = elim (Bool-cases (cat.name == name)) [
  | inl e ↦ rw e (ground (arith, count_in_category-blocked f cat))
  | inr e ↦ rw e (ground (arith, any_blocker-update_category name f cats (rw e at h)))
]

-- Every category that a rule is mapped to is there.
abbrev Covers : List UpgradeReadinessCategory → Type 0
Covers cats =
    (rule_id name : String)
    → lookup rule_id category_by_rule_id ≡ some name
    → named name cats ≡ true

abbrev start : List UpgradeReadinessCategory
start = map empty_category category_order

covered : all (λ (e : String × String). named e.1 start) category_by_rule_id ≡ true
unfolding category_by_rule_id
covered = refl

start-Covers : Covers start
start-Covers rule_id name e =
    lookup-all (λ n. named n start) rule_id category_by_rule_id covered name e

any_blocker-count_finding :
    (f : Finding) (name : String) (cats : List UpgradeReadinessCategory)
    → Covers cats
    → lookup f.rule_id category_by_rule_id ≡ some name
    → any_blocker (count_finding f (lookup f.rule_id category_by_rule_id) cats)
      ≡ (any_blocker cats || is_block f)
unfolding count_finding
any_blocker-count_finding f name cats c e =
    rw e (any_blocker-update_category name f cats (c f.rule_id name e))

count_finding-Covers :
    (f : Finding) (name : String) (cats : List UpgradeReadinessCategory)
    → Covers cats
    → lookup f.rule_id category_by_rule_id ≡ some name
    → Covers (count_finding f (lookup f.rule_id category_by_rule_id) cats)
unfolding count_finding
count_finding-Covers f name cats c e rule_id m k =
    rw e (named-update_category m name f cats ∙ c rule_id m k)

any_blocker-count_findings :
    (fs : List Finding) (cats : List UpgradeReadinessCategory)
    → Covers cats
    → All HasCategory fs
    → any_blocker (count_findings fs cats) ≡ (any_blocker cats || any is_block fs)
unfolding count_findings
any_blocker-count_findings [] cats c h = ground arith
any_blocker-count_findings (f ∷ fs) cats c ((name, e), h) =
    let next = count_finding f (lookup f.rule_id category_by_rule_id) cats in
    ground (
      arith,
      any_blocker-count_findings fs next (count_finding-Covers f name cats c e) h,
      any_blocker-count_finding f name cats c e,
    )

any_blocker-sort_rule_ids :
    (cats : List UpgradeReadinessCategory) → any_blocker (map sort_rule_ids cats) ≡ any_blocker cats
unfolding any_blocker sort_rule_ids
any_blocker-sort_rule_ids [] = refl
any_blocker-sort_rule_ids (cat ∷ cats) =
    ap (λ t. ltb 0 cat.blocker_count || t) (any_blocker-sort_rule_ids cats)

-- Where every finding's rule has a category, the scorecard lets an upgrade continue exactly if the
-- verdict is not INCOMPLETE and no finding blocks it or leaves it to the operator.
pub upgrade_continue_lem :
    (fs : List Finding) (v : Verdict)
    → All HasCategory fs
    → (build_upgrade_readiness_summary fs v).upgrade_continue ≡ (
        not (verdict_beq v incomplete)
        && not (any is_block fs)
        && not (any (λ f. effective_upgrade_gate f == UpgradeGate.operator_decision) fs))
unfolding build_upgrade_readiness_summary readiness_categories
upgrade_continue_lem fs v h =
    ap
      (λ t.
        not (verdict_beq v incomplete)
        && not t
        && not (any (λ f. effective_upgrade_gate f == UpgradeGate.operator_decision) fs))
      (any_blocker-sort_rule_ids (count_findings fs start)
        ∙ any_blocker-count_findings fs start start-Covers h)
