-- ===== src/Versions/Order/Laws.antt =====
-- The relation of two versions and their normal forms.
use mathlib.Core.Option.{some-injective}
use kubepreflight.Base.{
  String, ◌≡◌, ap, sym, ◌∙◌, subst, Option, none, some, Option-cases, inl, inr, arith, ◌↔◌,
}
use kubepreflight.Base.Int.{ℤ, int_eq}
use kubepreflight.Versions.Parse.{
  parse_major_minor, format_version, format_parsed, normalize_kubernetes_version,
}
use kubepreflight.Versions.Parse.RoundTrip.{format_version_inj, parse-BothInt}
use kubepreflight.Versions.Order.{
  VersionRelation, upgrade, same, downgrade, VersionError, relation_of, relate,
  compare_minor_versions,
}

abbrev pub flip : VersionRelation → VersionRelation
flip upgrade = downgrade
flip same = same
flip downgrade = upgrade

relation_of-flip : (a b : ℤ) → relation_of b a ≡ flip (relation_of a b)
relation_of-flip a b = ground (arith, int_eq.beq_iff a b, int_eq.beq_iff b a)

relate-flip :
    (o p : Option (ℤ × ℤ)) (r : VersionRelation) → relate o p ≡ inr r → relate p o ≡ inr (flip r)
relate-flip none p r h = cc
relate-flip (some _) none r h = cc
relate-flip (some (m, a)) (some (n, b)) r h =
    ground (arith, int_eq.beq_iff m n, int_eq.beq_iff n m, relation_of-flip a b)

-- When the comparison of two versions returns a relation, the comparison the other way round
-- returns the opposite relation.
pub compare_minor_versions-flip :
    (a b : String) (r : VersionRelation)
    → compare_minor_versions a b ≡ inr r
    → compare_minor_versions b a ≡ inr (flip r)
unfolding compare_minor_versions
compare_minor_versions-flip a b = relate-flip (parse_major_minor a) (parse_major_minor b)

relate-same :
    (m a n b : ℤ) → relate (some (m, a)) (some (n, b)) ≡ inr same → ◌≡◌ {A = ℤ × ℤ} (m, a) (n, b)
relate-same m a n b h = ground (arith, int_eq.beq_iff m n, int_eq.beq_iff b a)

relate_self : (m a : ℤ) → relate (some (m, a)) (some (m, a)) ≡ inr same
relate_self m a = ground (arith, int_eq.beq_iff m m, int_eq.beq_iff a a)

same-normalized :
    (a b : String)
    → compare_minor_versions a b ≡ inr same
    → (w : String) × (normalize_kubernetes_version a ≡ some w)
      × (normalize_kubernetes_version b ≡ some w)
unfolding compare_minor_versions normalize_kubernetes_version
same-normalized a b h = elim (Option-cases (parse_major_minor a)) [
  | inl e ↦ let k : inl VersionError.unreadable_first ≡ inr same = rw e at h in cc
  | inr ((m, x), e) ↦ elim (Option-cases (parse_major_minor b)) [
    | inl e' ↦ let k : inl VersionError.unreadable_second ≡ inr same = rw (e, e') at h in cc
    | inr ((n, y), e') ↦ (
      format_version m x,
      ap format_parsed e,
      ap format_parsed (e' ∙ ap some (sym (relate-same m x n y (rw (e, e') at h)))),
    )
  ]
]

normalized-same :
    (a b w : String)
    → normalize_kubernetes_version a ≡ some w
    → normalize_kubernetes_version b ≡ some w
    → compare_minor_versions a b ≡ inr same
unfolding compare_minor_versions normalize_kubernetes_version
normalized-same a b w h k = elim (Option-cases (parse_major_minor a)) [
  | inl e ↦ let f : none ≡ some w = rw e at h in cc
  | inr ((m, x), e) ↦ elim (Option-cases (parse_major_minor b)) [
    | inl e' ↦ let f : none ≡ some w = rw e' at k in cc
    | inr ((n, y), e') ↦
        let (hm, hx) = parse-BothInt a (m, x) e in
        let (hn, hy) = parse-BothInt b (n, y) e' in
        let p : format_version m x ≡ w = some-injective _ _ (rw e at h) in
        let q : format_version n y ≡ w = some-injective _ _ (rw e' at k) in
        let same_parts = format_version_inj m x n y hm hx hn hy (p ∙ sym q) in
        rw (e, e')
          (subst (λ v. relate (some (m, x)) (some v) ≡ inr same) same_parts (relate_self m x))
  ]
]

-- Two versions are called the same if and only if both can be read and they have one normal form.
pub compare_minor_versions-same_iff :
    (a b : String)
    → (compare_minor_versions a b ≡ inr same) ↔ (
        (w : String) × (normalize_kubernetes_version a ≡ some w)
        × (normalize_kubernetes_version b ≡ some w))
compare_minor_versions-same_iff a b = (same-normalized a b, λ (w, h, k). normalized-same a b w h k)
