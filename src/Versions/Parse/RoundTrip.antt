-- ===== src/Versions/Parse/RoundTrip.antt =====
-- A printed version is read back, by both parsers.
use mathlib.Core.Option.{some-injective}
use kubepreflight.Base.{
  ℕ, suc, String, ◌≡◌, ◌≢◌, refl, ap, sym, ◌∙◌, Option, none, some, List, [], ◌∷◌, ◌++◌, false,
  nat_eq, codes, arith, All, All-imp, All-append, inl, inr, Option-cases, subst,
}
use kubepreflight.Base.Int.{ℤ}
use kubepreflight.Versions.Decimal.{IsInt, atoi, decimal_int}
use kubepreflight.Versions.Decimal.RoundTrip.{
  codes-append, IsNumeral, atoi-decimal_int, decimal_int-IsNumeral, atoi-IsInt,
}
use kubepreflight.Versions.Parse.{
  is_space, trim_left, trim_right, trim_space, trim_prefix_v, cons_unless_last_space, split_n,
  two_ints, read_parts, parse_major_minor, plan_parse_major_minor, format_version, format_parsed,
  normalize_kubernetes_version,
}

-- A character of a printed version.
abbrev IsPlain : ℕ → Type 0
IsPlain c = (is_space c ≡ false) × (c ≢ 118)

plain : (c : ℕ) → IsNumeral c → IsPlain c
plain c h = ground arith

trim_left-All : (xs : List ℕ) → All IsPlain xs → trim_left xs ≡ xs
unfolding trim_left
trim_left-All [] _ = refl
trim_left-All (c ∷ xs) (h, _) = ground arith

trim_right-All : (xs : List ℕ) → All IsPlain xs → trim_right xs ≡ xs
unfolding trim_right
trim_right-All [] _ = refl
trim_right-All (c ∷ []) (h, _) = ground arith
trim_right-All (c ∷ d ∷ xs) (_, h) = ap (cons_unless_last_space c) (trim_right-All (d ∷ xs) h)

trim_space-All : (xs : List ℕ) → All IsPlain xs → trim_space xs ≡ xs
unfolding trim_space
trim_space-All xs h = ap trim_right (trim_left-All xs h) ∙ trim_right-All xs h

trim_prefix_v-All : (xs : List ℕ) → All IsPlain xs → trim_prefix_v xs ≡ xs
unfolding trim_prefix_v
trim_prefix_v-All [] _ = refl
trim_prefix_v-All (c ∷ xs) (h, _) = ground arith

-- Text without a dot is one part, and a dot behind it ends the part.
split_n-numeral : (n : ℕ) (xs : List ℕ) → All IsNumeral xs → split_n n xs ≡ xs ∷ []
unfolding split_n
split_n-numeral n [] _ = refl
split_n-numeral n (c ∷ xs) (p, h) = ground (arith, split_n-numeral n xs h)

split_n-dot :
    (n : ℕ) (xs ys : List ℕ)
    → All IsNumeral xs
    → split_n (suc (suc n)) (xs ++ (46 ∷ ys)) ≡ xs ∷ split_n (suc n) ys
unfolding split_n
split_n-dot n [] ys _ = ground arith
split_n-dot n (c ∷ xs) ys (p, h) = ground (arith, split_n-dot n xs ys h)

format_codes :
    (major minor : ℤ)
    → codes (format_version major minor)
      ≡ codes (decimal_int major) ++ (46 ∷ codes (decimal_int minor))
unfolding format_version
format_codes major minor =
    codes-append (decimal_int major) _
    ∙ ap (λ l. codes (decimal_int major) ++ l) (codes-append "." (decimal_int minor))

format-IsPlain :
    (major minor : ℤ) → All IsPlain (codes (decimal_int major) ++ (46 ∷ codes (decimal_int minor)))
format-IsPlain major minor =
    All-append IsPlain _ _ (All-imp plain _ (decimal_int-IsNumeral major))
      ((refl, λ e. omega arith), All-imp plain _ (decimal_int-IsNumeral minor))

read_parts-two :
    (major minor : ℤ)
    → IsInt major
    → IsInt minor
    → read_parts (codes (decimal_int major) ∷ codes (decimal_int minor) ∷ []) ≡ some (major, minor)
read_parts-two major minor h k = rw (atoi-decimal_int major h, atoi-decimal_int minor k) refl

split_n-format :
    (major minor : ℤ)
    → split_n 3 (codes (decimal_int major) ++ (46 ∷ codes (decimal_int minor)))
      ≡ codes (decimal_int major) ∷ codes (decimal_int minor) ∷ []
split_n-format major minor =
    split_n-dot 1 _ _ (decimal_int-IsNumeral major)
    ∙ ap (λ l. codes (decimal_int major) ∷ l) (split_n-numeral 2 _ (decimal_int-IsNumeral minor))

pub plan_parse-format :
    (major minor : ℤ)
    → IsInt major
    → IsInt minor
    → plan_parse_major_minor (format_version major minor) ≡ some (major, minor)
unfolding plan_parse_major_minor
plan_parse-format major minor h k =
    rw
      (
        format_codes major minor,
        trim_prefix_v-All _ (format-IsPlain major minor),
        split_n-format major minor,
      )
      (read_parts-two major minor h k)

-- The parser of the findings package reads a version that `%d.%d` printed from two values of Go's
-- int as those two values.
pub parse-format :
    (major minor : ℤ)
    → IsInt major
    → IsInt minor
    → parse_major_minor (format_version major minor) ≡ some (major, minor)
unfolding parse_major_minor
parse-format major minor h k =
    rw
      (
        format_codes major minor,
        trim_space-All _ (format-IsPlain major minor),
        trim_prefix_v-All _ (format-IsPlain major minor),
        split_n-format major minor,
      )
      (read_parts-two major minor h k)

-- Two versions of Go's int that print alike are the same.
pub format_version_inj :
    (m n m' n' : ℤ)
    → IsInt m
    → IsInt n
    → IsInt m'
    → IsInt n'
    → format_version m n ≡ format_version m' n'
    → ◌≡◌ {A = ℤ × ℤ} (m, n) (m', n')
format_version_inj m n m' n' h k h' k' e =
    some-injective _ _
      (sym (parse-format m n h k) ∙ ap parse_major_minor e ∙ parse-format m' n' h' k')

abbrev pub BothInt : ℤ × ℤ → Type 0
BothInt (m, n) = IsInt m × IsInt n

two_ints-BothInt :
    (o p : Option ℤ) (v : ℤ × ℤ)
    → ((z : ℤ) → o ≡ some z → IsInt z)
    → ((z : ℤ) → p ≡ some z → IsInt z)
    → two_ints o p ≡ some v
    → BothInt v
two_ints-BothInt none p v f g h = cc
two_ints-BothInt (some m) none v f g h = cc
two_ints-BothInt (some m) (some n) v f g h =
    subst BothInt (some-injective (m, n) v h) (f m refl, g n refl)

read_parts-BothInt : (parts : List (List ℕ)) (v : ℤ × ℤ) → read_parts parts ≡ some v → BothInt v
read_parts-BothInt [] v h = cc
read_parts-BothInt (p ∷ []) v h = cc
read_parts-BothInt (p ∷ q ∷ _) v h =
    two_ints-BothInt (atoi p) (atoi q) v (atoi-IsInt p) (atoi-IsInt q) h

pub parse-BothInt : (s : String) (v : ℤ × ℤ) → parse_major_minor s ≡ some v → BothInt v
unfolding parse_major_minor
parse-BothInt s = read_parts-BothInt _

pub plan_parse-BothInt : (s : String) (v : ℤ × ℤ) → plan_parse_major_minor s ≡ some v → BothInt v
unfolding plan_parse_major_minor
plan_parse-BothInt s = read_parts-BothInt _

-- A normalized version is its own normalization.
pub normalize_kubernetes_version_idem :
    (v w : String)
    → normalize_kubernetes_version v ≡ some w
    → normalize_kubernetes_version w ≡ some w
unfolding normalize_kubernetes_version
normalize_kubernetes_version_idem v w h = elim (Option-cases (parse_major_minor v)) [
  | inl e ↦ let h' : none ≡ some w = rw e at h in cc
  | inr ((m, n), e) ↦
      let (hm, hn) = parse-BothInt v (m, n) e in
      let printed : format_version m n ≡ w = some-injective _ _ (rw e at h) in
      subst (λ s. format_parsed (parse_major_minor s) ≡ some s) printed
        (rw (parse-format m n hm hn) refl)
]

-- The empty text is no version.
pub normalize_empty : normalize_kubernetes_version "" ≡ none
unfolding normalize_kubernetes_version parse_major_minor trim_space trim_left trim_right
    trim_prefix_v split_n
normalize_empty = refl
