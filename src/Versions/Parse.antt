-- ===== src/Versions/Parse.antt =====
-- `parseMajorMinor` and `NormalizeKubernetesVersion` of internal/findings/report.go,
-- `ParseMajorMinor` of internal/plan/version.go, and what they use of Go's strings package.
pub mod RoundTrip
use kubepreflight.Base.{
  ℕ, ◌-◌, String, Option, none, some, ◌≡◌, refl, List, [], ◌∷◌, Bool, true, false, ◌&&◌, ◌||◌, ◌==◌,
  nat_eq, if◌then◌else◌, leb, ltb, codes, has,
}
use kubepreflight.Base.Int.{ℤ, pos}
use kubepreflight.Versions.Decimal.{scan, atoi, decimal_int}
use Prim.Native.String as Str

-- unicode.IsSpace
abbrev pub is_space : ℕ → Bool
is_space c =
    leb 9 c && leb c 13
    || has c (32 ∷ 133 ∷ 160 ∷ 5760 ∷ 8232 ∷ 8233 ∷ 8239 ∷ 8287 ∷ 12288 ∷ [])
    || leb 8192 c && leb c 8202

unfoldable pub trim_left : List ℕ → List ℕ
trim_left [] = []
trim_left (c ∷ s) = let rest = trim_left s in if is_space c then rest else c ∷ s

abbrev pub cons_unless_last_space : ℕ → List ℕ → List ℕ
cons_unless_last_space c [] = if is_space c then [] else c ∷ []
cons_unless_last_space c (d ∷ s) = c ∷ d ∷ s

unfoldable pub trim_right : List ℕ → List ℕ
trim_right [] = []
trim_right (c ∷ s) = cons_unless_last_space c (trim_right s)

unfoldable pub trim_space : List ℕ → List ℕ
trim_space s = trim_right (trim_left s)

unfoldable pub trim_prefix_v : List ℕ → List ℕ
trim_prefix_v [] = []
trim_prefix_v (c ∷ s) = if c == 118 then s else c ∷ s

-- A character in front of the first part.
abbrev pub onto_first : ℕ → List (List ℕ) → List (List ℕ)
onto_first c [] = (c ∷ []) ∷ []
onto_first c (part ∷ parts) = (c ∷ part) ∷ parts

-- strings.SplitN at dots, with `n` parts at most.
unfoldable pub split_n : ℕ → List ℕ → List (List ℕ)
split_n n [] = [] ∷ []
split_n n (c ∷ s) = elim (c == 46 && ltb 1 n) [
  | true ↦ [] ∷ split_n (n - 1) s
  | false ↦ onto_first c (split_n n s)
]

-- The first two parts, as integers.
abbrev pub two_ints : Option ℤ → Option ℤ → Option (ℤ × ℤ)
two_ints (some major) (some minor) = some (major, minor)
two_ints _ _ = none

abbrev pub read_parts : List (List ℕ) → Option (ℤ × ℤ)
read_parts (first ∷ second ∷ _) = two_ints (atoi first) (atoi second)
read_parts _ = none

unfoldable pub parse_major_minor : String → Option (ℤ × ℤ)
parse_major_minor v = read_parts (split_n 3 (trim_prefix_v (trim_space (codes v))))

-- The planner's own copy, which trims no space.
unfoldable pub plan_parse_major_minor : String → Option (ℤ × ℤ)
plan_parse_major_minor v = read_parts (split_n 3 (trim_prefix_v (codes v)))

-- The format `%d.%d`.
unfoldable pub format_version : ℤ → ℤ → String
format_version major minor = Str.◌++◌ (decimal_int major) (Str.◌++◌ "." (decimal_int minor))

abbrev pub format_parsed : Option (ℤ × ℤ) → Option String
format_parsed none = none
format_parsed (some (major, minor)) = some (format_version major minor)

-- `none` where the source returns false.
unfoldable pub normalize_kubernetes_version : String → Option String
normalize_kubernetes_version v = format_parsed (parse_major_minor v)

reads :
    (parse_major_minor " v1.29.6-eks-1234567" ≡ some (pos 1, pos 29))
    × (parse_major_minor "1" ≡ none)
    × (parse_major_minor "1.x" ≡ none)
    × (plan_parse_major_minor " 1.29" ≡ none)
unfolding parse_major_minor plan_parse_major_minor trim_space trim_left trim_right trim_prefix_v
    split_n atoi scan
reads = (refl, refl, refl, refl)
