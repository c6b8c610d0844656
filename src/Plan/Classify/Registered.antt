-- ===== src/Plan/Classify/Registered.antt =====
-- The table of policies and the registered rules.
use kubepreflight.Base.{
  String, ◌≡◌, ◌↔◌, refl, ap, true, false, string_eq, none, List, [], ◌∷◌, all, has, lookup, arith,
  eq_iff,
}
use kubepreflight.Rules.Registry.{all_rule_ids}
use kubepreflight.Plan.Classify.{carry_forward_only, rule_policy, or_carry_forward, policy_for}

module _ {V : Type 0} where
  abbrev keys : List (String × V) → List String
  keys [] = []
  keys ((k, _) ∷ m) = k ∷ keys m

  lookup-none_iff :
      (k : String) (m : List (String × V)) → (lookup k m ≡ none) ↔ (has k (keys m) ≡ false)
  lookup-none_iff k [] = ground arith
  lookup-none_iff k ((j, v) ∷ m) = ground (arith, lookup-none_iff k m)

has-all :
    (k : String) (xs ys : List String)
    → all (λ x. has x ys) xs ≡ true
    → has k xs ≡ true
    → has k ys ≡ true
has-all k [] ys h e = cc
has-all k (x ∷ xs) ys h e = ground (arith, eq_iff x k, has-all k xs ys)

same_members :
    (k : String) (xs ys : List String)
    → all (λ x. has x ys) xs ≡ true
    → all (λ x. has x xs) ys ≡ true
    → (has k xs ≡ false) ↔ (has k ys ≡ false)
same_members k xs ys h g = ground (arith, has-all k xs ys h, has-all k ys xs g)

keys_registered : all (λ x. has x all_rule_ids) (keys rule_policy) ≡ true
unfolding rule_policy
keys_registered = refl

registered_keys : all (λ x. has x (keys rule_policy)) all_rule_ids ≡ true
unfolding rule_policy
registered_keys = refl

-- The table of policies has no entry for a rule if and only if the default registry does not
-- register the rule.
pub rule_policy-none_iff :
    (id : String) → (lookup id rule_policy ≡ none) ↔ (has id all_rule_ids ≡ false)
rule_policy-none_iff id =
    let no_key = lookup-none_iff id rule_policy in
    let not_registered =
      same_members id (keys rule_policy) all_rule_ids keys_registered registered_keys in
    (λ h. not_registered.0 (no_key.0 h), λ h. no_key.1 (not_registered.1 h))

-- A rule that is not registered is never projected onto a later hop.
pub policy_for-unregistered :
    (id : String) → has id all_rule_ids ≡ false → policy_for id ≡ carry_forward_only
unfolding policy_for
policy_for-unregistered id h = ap or_carry_forward ((rule_policy-none_iff id).1 h)
