-- ===== src/Findings/Priority/Laws.antt =====
-- What `AssignPriority` guarantees.
use kubepreflight.Base.{
  ℕ, ◌≤◌, ◌≡◌, ◌↔◌, refl, String, true, false, ◌==◌, string_eq, ◌&&◌, arith, lookup, lookup-all,
  all, not, Option-cases, inl, inr,
}
use kubepreflight.Findings.Context.{UpgradeGate}
use kubepreflight.Findings.Finding.{Finding, effective_upgrade_gate}
use kubepreflight.Findings.Priority.{
  Priority, p1, p2, p3, p4, priority_text, priority_rank, addon002_upgrade_recommended,
  default_priority, critical_infra_override, addon_override, global_override, decide_priority,
  assign_priority, is_p1, priority_by_rule_id,
}

-- Assigning a priority does not change the gate that counts.
pub effective_upgrade_gate-assign_priority :
    (f : Finding) → effective_upgrade_gate (assign_priority f) ≡ effective_upgrade_gate f
unfolding assign_priority
effective_upgrade_gate-assign_priority f = ground arith

-- A second pass over a finding changes nothing.
pub assign_priority_idem : (f : Finding) → assign_priority (assign_priority f) ≡ assign_priority f
unfolding assign_priority decide_priority
assign_priority_idem f = ground arith

none_p1 : all (λ (e : String × Priority). not (is_p1 e.1)) priority_by_rule_id ≡ true
unfolding priority_by_rule_id
none_p1 = refl

default_not_p1 : (rule_id : String) → is_p1 (default_priority rule_id).0 ≡ false
unfolding default_priority
default_not_p1 rule_id = elim (Option-cases (lookup rule_id priority_by_rule_id)) [
  | inl e ↦ rw e
  | inr (p, e) ↦
      rw e (ground (arith, lookup-all (λ q. not (is_p1 q)) rule_id priority_by_rule_id none_p1 p e))
]

-- Only a global blocker is `P1`.
pub is_p1-decide_priority : (f : Finding) → is_p1 (decide_priority f).0 ≡ f.global_blocker
unfolding decide_priority
is_p1-decide_priority f = ground (arith, default_not_p1 f.rule_id)

-- An upgrade may continue past a finding, whatever its severity, exactly if its effective gate is
-- `allow` and it is no global blocker.
pub can_continue_iff :
    (f : Finding)
    → ((assign_priority f).can_upgrade_continue ≡ true)
      ↔ ((effective_upgrade_gate f ≡ UpgradeGate.allow) × (f.global_blocker ≡ false))
unfolding assign_priority
can_continue_iff f = ground (arith, is_p1-decide_priority f)

rank_of_p1 : (p : Priority) → is_p1 p ≡ true → p ≡ p1
rank_of_p1 p h = ground arith

-- A global blocker is `P1` with global scope, whatever rule found it.
pub global_blocker-P1 :
    (f : Finding)
    → f.global_blocker ≡ true
    → ((assign_priority f).priority ≡ "P1") × ((assign_priority f).affected_scope ≡ "global")
unfolding assign_priority decide_priority
global_blocker-P1 f h = ground arith

abbrev rank : Priority → ℕ
rank p1 = 0
rank p2 = 1
rank p3 = 2
rank p4 = 3

priority_rank-priority_text : (p : Priority) → priority_rank (priority_text p) ≡ rank p
unfolding priority_rank
priority_rank-priority_text p1 = refl
priority_rank-priority_text p2 = refl
priority_rank-priority_text p3 = refl
priority_rank-priority_text p4 = refl

overrides_rank :
    (f : Finding) (p : Priority) (scope : String)
    → f.critical_infra ≡ true
    → (f.rule_id == "NODE-003") ≡ false
    → (f.rule_id == "ADDON-002" && addon002_upgrade_recommended f) ≡ false
    → rank (global_override f (addon_override f (critical_infra_override f (p, scope)))).0 ≤ 1
unfolding global_override addon_override critical_infra_override
overrides_rank f p scope c n a =
    ground (arith, priority_rank-priority_text p, priority_rank-priority_text p2)

-- A finding on cluster-critical infrastructure is at least as urgent as `P2`, unless it is of
-- NODE-003 or an ADDON-002 upgrade that is only recommended.
pub critical_infra_rank :
    (f : Finding)
    → f.critical_infra ≡ true
    → (f.rule_id == "NODE-003") ≡ false
    → (f.rule_id == "ADDON-002" && addon002_upgrade_recommended f) ≡ false
    → priority_rank (assign_priority f).priority ≤ 1
unfolding assign_priority decide_priority
critical_infra_rank f c n a =
    rw priority_rank-priority_text
      (overrides_rank f (default_priority f.rule_id).0 (default_priority f.rule_id).1 c n a)
