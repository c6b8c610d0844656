-- ===== src/Versions/Path.antt =====
-- `UpgradePath` of internal/findings/report.go. Its loop runs on a number of rounds: those that it
-- takes to pass the target. It never does if the target is the greatest int.
pub mod Laws
use kubepreflight.Base.{
  ℕ, zero, suc, ◌+◌, String, Option, none, some, List, [], ◌∷◌, Bool, true, false, ◌||◌,
  if◌then◌else◌, not, ◌==◌, ◌/=◌,
}
use kubepreflight.Base.Int.{ℤ, pos, negsuc, ltb_ℤ, int_eq, ◌+ℤ◌, ◌-ℤ◌}
use kubepreflight.Versions.Decimal.{max_int}
use kubepreflight.Versions.Parse.{parse_major_minor, format_version}
use kubepreflight.Versions.Hops.{rounds_to}

pub record UpgradePath : Type 0 where
  pub path : List String
  pub label : String
  pub ok : Bool

-- `minor++`, which wraps around at the greatest int.
unfoldable pub next_int : ℤ → ℤ
next_int minor = if minor == pos max_int then negsuc max_int else minor +ℤ pos 1

abbrev pub path_cons : String → Option (List String) → Option (List String)
path_cons version none = none
path_cons version (some path) = some (version ∷ path)

-- `for minor := currentMinor; minor <= targetMinor; minor++`; `none` when the rounds run out.
unfoldable pub path_loop : ℕ → ℤ → ℤ → ℤ → Option (List String)
path_loop zero major minor target = none
path_loop (suc rounds) major minor target =
    let rest = path_loop rounds major (next_int minor) target in
    if not (ltb_ℤ target minor) then path_cons (format_version major minor) rest else some []

abbrev pub gap_label : ℤ → String
gap_label gap =
    if gap == pos 0
    then "same-minor target"
    else if gap == pos 1
    then "one-minor upgrade"
    else "multi-minor upgrade path"

abbrev pub no_path : String → UpgradePath
no_path label = record { path = []; label = label; ok = false }

abbrev pub path_of : String → Option (List String) → Option UpgradePath
path_of label none = none
path_of label (some path) = some (record { path = path; label = label; ok = true })

abbrev pub path_between : Option (ℤ × ℤ) → Option (ℤ × ℤ) → Option UpgradePath
path_between none _ = some (no_path "current version unknown")
path_between (some _) none = some (no_path "upgrade path unavailable")
path_between (some (current_major, current)) (some (target_major, target)) =
    if current_major /= target_major || ltb_ℤ target current
    then some (no_path "upgrade path unavailable")
    else path_of (gap_label (target -ℤ current))
        (path_loop (rounds_to current target + 2) current_major current target)

-- `none` stands for a call that does not return.
unfoldable pub upgrade_path : String → String → Option UpgradePath
upgrade_path current_version target_version =
    path_between (parse_major_minor current_version) (parse_major_minor target_version)
