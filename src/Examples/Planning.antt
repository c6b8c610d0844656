-- ===== src/Examples/Planning.antt =====
-- Versions, the hops between them, and plans.
use kubepreflight.Base.{subst}
use kubepreflight.Base.{
  ℕ, String, ◌<◌, ◌≡◌, ◌↔◌, ◌⊎◌, refl, true, false, arith, ap, sym, string_eq, Option, none, some,
  inr, List, [], ◌∷◌, map, any, length, All,
}
use kubepreflight.Base.Int.{ℤ, pos, ltb_ℤ}
use kubepreflight.Findings.Report.{Report, result, exit_code, is_complete}
use kubepreflight.Versions.Decimal.{IsInt, max_int, scan, atoi}
use kubepreflight.Versions.Parse.{
  trim_left, trim_right, trim_space, trim_prefix_v, split_n, parse_major_minor,
  plan_parse_major_minor, format_version, normalize_kubernetes_version,
}
use kubepreflight.Versions.Parse.RoundTrip.{plan_parse-format, parse-format}
use kubepreflight.Versions.Order.{same, compare_minor_versions}
use kubepreflight.Versions.Order.Laws.{compare_minor_versions-same_iff}
use kubepreflight.Versions.Hops.{Hop, hops_loop, rounds_to, generate_hops}
use kubepreflight.Versions.Hops.Chain.{
  up, hops_from, hops_loop_ends, Climb, Ahead, Ahead-generate_hops, generate_hops_iff,
  generate_hops-Climb,
}
use kubepreflight.Versions.Path.{UpgradePath, upgrade_path}
use kubepreflight.Versions.Path.Laws.{upgrade_path-generate_hops}
use kubepreflight.Plan.Action.{ActionVerdict, ActionPhase, is_downgrade}
use kubepreflight.Plan.Action.Laws.{demands}
use kubepreflight.Plan.Templates.{templates}
use kubepreflight.Plan.Phases.{build_action_plan, execution_status}
use kubepreflight.Plan.Phases.Laws.{
  AllHave, third, HasFindings, build_action_plan-ready_iff, build_action_plan-third,
  build_action_plan-HasFindings,
}
use kubepreflight.Plan.Build.{
  HopReport, PlanReport, exact_hop, first_report, overall_exit_code, plan_verdict, build_plan,
  future_hops, header_of,
}
use kubepreflight.Plan.Build.Laws.{label_of, plan_verdict-result, build_plan-hop}
use kubepreflight.Examples.Data.{old}

is_int : (n : ℕ) → n < 100 → IsInt (pos n)
is_int n h = omega arith

parse-format_example : parse_major_minor (format_version (pos 1) (pos 29)) ≡ some (pos 1, pos 29)
parse-format_example =
    parse-format (pos 1) (pos 29) (is_int 1 (omega arith)) (is_int 29 (omega arith))

compare_minor_versions-same_iff_example : (compare_minor_versions "v1.29.3" "1.29" ≡ inr same) ↔ (
    (w : String) × (normalize_kubernetes_version "v1.29.3" ≡ some w)
    × (normalize_kubernetes_version "1.29" ≡ some w))
compare_minor_versions-same_iff_example = compare_minor_versions-same_iff "v1.29.3" "1.29"

ahead : Ahead "1.29" "1.31"
unfolding plan_parse_major_minor trim_prefix_v split_n atoi scan
ahead = record {
  major = pos 1;
  from_minor = pos 29;
  to_minor = pos 31;
  from_parsed = refl;
  to_parsed = refl;
  later = refl;
}

abbrev climbed : List Hop
climbed = hops_loop 2 (pos 1) 1 (pos 29) (pos 31)

generated :
    generate_hops "1.29" "1.31"
    ≡ inr (hops_loop (rounds_to (pos 29) (pos 31)) (pos 1) 1 (pos 29) (pos 31))
unfolding ahead
generated = Ahead-generate_hops "1.29" "1.31" ahead

generate_hops-Climb_example :
    let hops = hops_loop (rounds_to (pos 29) (pos 31)) (pos 1) 1 (pos 29) (pos 31) in
    (a : Ahead "1.29" "1.31") × Climb a.major 1 a.from_minor a.to_minor hops
    × (length hops ≡ rounds_to a.from_minor a.to_minor)
generate_hops-Climb_example = generate_hops-Climb "1.29" "1.31" _ generated

generate_hops_iff_example :
    ((hops : List Hop) × (generate_hops "1.29" "1.31" ≡ inr hops)) ↔ Ahead "1.29" "1.31"
generate_hops_iff_example = generate_hops_iff "1.29" "1.31"

hops_loop_ends_example :
    hops_loop 5 (pos 1) 1 (pos 29) (up (pos 29) 2) ≡ hops_from 2 (pos 1) 1 (pos 29)
hops_loop_ends_example = hops_loop_ends 2 5 (pos 1) 1 (pos 29) (omega arith)

abbrev v129 : String
v129 = format_version (pos 1) (pos 29)

abbrev v131 : String
v131 = format_version (pos 1) (pos 31)

printed_ahead : Ahead v129 v131
printed_ahead = record {
  major = pos 1;
  from_minor = pos 29;
  to_minor = pos 31;
  from_parsed =
      plan_parse-format (pos 1) (pos 29) (is_int 1 (omega arith)) (is_int 29 (omega arith));
  to_parsed = plan_parse-format (pos 1) (pos 31) (is_int 1 (omega arith)) (is_int 31 (omega arith));
  later = refl;
}

printed_generated :
    generate_hops v129 v131
    ≡ inr (hops_loop (rounds_to (pos 29) (pos 31)) (pos 1) 1 (pos 29) (pos 31))
unfolding printed_ahead
printed_generated = Ahead-generate_hops v129 v131 printed_ahead

normal_129 : normalize_kubernetes_version "v1.29.3" ≡ some v129
unfolding normalize_kubernetes_version parse_major_minor trim_space trim_left trim_right
    trim_prefix_v split_n atoi scan
normal_129 = refl

normal_131 : normalize_kubernetes_version "1.31" ≡ some v131
unfolding normalize_kubernetes_version parse_major_minor trim_space trim_left trim_right
    trim_prefix_v split_n atoi scan
normal_131 = refl

below_max :
    (major minor : ℤ)
    → parse_major_minor "1.31" ≡ some (major, minor)
    → ltb_ℤ minor (pos max_int) ≡ true
unfolding parse_major_minor trim_space trim_left trim_right trim_prefix_v split_n atoi scan
below_max major minor h =
    let e : pos 31 ≡ minor = cc in subst (λ m. ltb_ℤ m (pos max_int) ≡ true) e refl

upgrade_path-generate_hops_example :
    (u : UpgradePath) × (upgrade_path "v1.29.3" "1.31" ≡ some u)
    × (u.path
        ≡ v129
          ∷ map (λ h. h.to) (hops_loop (rounds_to (pos 29) (pos 31)) (pos 1) 1 (pos 29) (pos 31)))
    × (u.ok ≡ true)
upgrade_path-generate_hops_example =
    upgrade_path-generate_hops "v1.29.3" "1.31" v129 v131 _ normal_129 normal_131 below_max
      printed_generated

abbrev one_hop : Hop
one_hop = record { index = 1; from = "1.29"; to = "1.30" }

abbrev a_plan : PlanReport
a_plan =
    header_of "test" "" "1.29" "live" "1.30" 0 (exact_hop one_hop old ∷ [])
      (build_action_plan (some old) 0)

plan_verdict-result_example :
    ((plan_verdict a_plan).0 ≡ label_of (result old)) × (overall_exit_code a_plan ≡ exit_code old)
plan_verdict-result_example = plan_verdict-result a_plan old refl (λ _ h. cc)

abbrev assess_exactly : Hop → String ⊎ HopReport
assess_exactly h = inr (exact_hop h old)

keeps_hop : (h : Hop) (hr : HopReport) → assess_exactly h ≡ inr hr → hr.hop ≡ h
keeps_hop h hr e = let same_report : exact_hop h old ≡ hr = cc in ap (λ r. r.hop) (sym same_report)

built :
    build_plan assess_exactly "test" "" "1.29" "live" "1.30" (one_hop ∷ []) (some old) 0
    ≡ inr a_plan
unfolding build_plan future_hops
built = refl

build_plan-hop_example :
    (map (λ hr. hr.hop) a_plan.hops ≡ one_hop ∷ [])
    × (first_report a_plan ≡ some old)
    × (◌≡◌ {A = Option Report} (some old) none → ⊥)
build_plan-hop_example =
    build_plan-hop assess_exactly keeps_hop "test" "" "1.29" "live" "1.30" 0 (one_hop ∷ [])
      (some old) a_plan built

build_action_plan-ready_iff_example :
    ((build_action_plan (some old) 0).verdict ≡ ActionVerdict.ready) ↔ (
      (is_downgrade (some old) ≡ false)
      × (is_complete old ≡ true)
      × (any (demands (some old)) templates ≡ false))
build_action_plan-ready_iff_example = build_action_plan-ready_iff old 0

upgrades : is_downgrade (some old) ≡ false
unfolding is_downgrade compare_minor_versions parse_major_minor trim_space trim_left trim_right
    trim_prefix_v split_n atoi scan
upgrades = refl

build_action_plan-third_example :
    (p : ActionPhase) × (third (build_action_plan (some old) 0).phases ≡ some p)
    × AllHave (execution_status (any (demands (some old)) templates)) p
build_action_plan-third_example = build_action_plan-third (some old) 0 upgrades

build_action_plan-HasFindings_example :
    All (λ p. All (HasFindings (some old)) p.actions) (build_action_plan (some old) 0).phases
build_action_plan-HasFindings_example = build_action_plan-HasFindings (some old) 0
