-- ===== src/Versions/Order.antt =====
-- `CompareMinorVersions` of internal/findings/report.go and `CompareMinor` of
-- internal/plan/version.go. An error is a value, one for each `return` of an error.
pub mod Laws
use kubepreflight.Base.{
  String, Option, none, some, Bool, true, false, ◌⊎◌, inl, inr, if◌then◌else◌, ◌==◌, ◌/=◌,
  string_eq,
}
use kubepreflight.Base.Int.{ℤ, ltb_ℤ, pos, negsuc, int_eq}
use kubepreflight.Versions.Parse.{parse_major_minor, plan_parse_major_minor}
use kubepreflight.Findings.Report.{Report}

pub data VersionRelation : Type 0 where
  upgrade same downgrade : VersionRelation

abbrev pub version_relation_text : VersionRelation → String
version_relation_text upgrade = "upgrade"
version_relation_text same = "same"
version_relation_text downgrade = "downgrade"

pub data VersionError : Type 0 where
  unreadable_first unreadable_second across_majors : VersionError

abbrev pub relation_of : ℤ → ℤ → VersionRelation
relation_of current target =
    if ltb_ℤ current target then upgrade else if target == current then same else downgrade

abbrev pub relate : Option (ℤ × ℤ) → Option (ℤ × ℤ) → VersionError ⊎ VersionRelation
relate none _ = inl unreadable_first
relate (some _) none = inl unreadable_second
relate (some (current_major, current)) (some (target_major, target)) =
    if current_major /= target_major then inl across_majors else inr (relation_of current target)

unfoldable pub compare_minor_versions : String → String → VersionError ⊎ VersionRelation
compare_minor_versions current target =
    relate (parse_major_minor current) (parse_major_minor target)

-- The planner's comparison, which returns -1, 0 or 1.
abbrev pub sign_of : ℤ → ℤ → ℤ
sign_of a b = if ltb_ℤ a b then negsuc 0 else if ltb_ℤ b a then pos 1 else pos 0

abbrev pub compare_parsed : Option (ℤ × ℤ) → Option (ℤ × ℤ) → VersionError ⊎ ℤ
compare_parsed none _ = inl unreadable_first
compare_parsed (some _) none = inl unreadable_second
compare_parsed (some (a_major, a)) (some (b_major, b)) =
    if a_major /= b_major then inl across_majors else inr (sign_of a b)

unfoldable pub compare_minor : String → String → VersionError ⊎ ℤ
compare_minor a b = compare_parsed (plan_parse_major_minor a) (plan_parse_major_minor b)

abbrev pub not_same : VersionError ⊎ VersionRelation → Bool
not_same (inl _) = true
not_same (inr same) = false
not_same (inr _) = true

unfoldable pub upgrade_applicable : Report → Bool
upgrade_applicable r =
    if r.current_version == ""
    then true
    else not_same (compare_minor_versions r.current_version r.target_version)
