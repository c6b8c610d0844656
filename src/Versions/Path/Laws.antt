-- ===== src/Versions/Path/Laws.antt =====
-- The displayed path and the hops of a plan.
use mathlib.Core.Option.{some-injective}
use kubepreflight.Base.{
  ℕ, zero, suc, ◌+◌, ◌<◌, String, ◌≡◌, refl, ap, sym, ◌∙◌, subst, none, some, List, [], ◌∷◌, map,
  true, false, inl, inr, arith, Option-cases,
}
use kubepreflight.Base.Int.{ℤ, pos, ltb_ℤ, int_eq, ◌+ℤ◌, ◌-ℤ◌}
use kubepreflight.Versions.Decimal.{IsInt, max_int}
use kubepreflight.Versions.Parse.{
  parse_major_minor, plan_parse_major_minor, format_version, normalize_kubernetes_version,
}
use kubepreflight.Versions.Parse.RoundTrip.{plan_parse-format, parse-BothInt}
use kubepreflight.Versions.Hops.{Hop, rounds_to, generate_hops}
use kubepreflight.Versions.Hops.Chain.{up, up-suc, up-rounds, hops_from, generate_hops-Ahead}
use kubepreflight.Versions.Path.{
  UpgradePath, next_int, path_cons, path_of, path_loop, path_between, gap_label, upgrade_path,
}

next_int-below : (minor : ℤ) → ltb_ℤ minor (pos max_int) ≡ true → next_int minor ≡ minor +ℤ pos 1
unfolding next_int
next_int-below minor h = ground (arith, int_eq.beq_iff minor (pos max_int))

path_loop-nil :
    (rounds : ℕ) (major minor target : ℤ)
    → ltb_ℤ target minor ≡ true
    → path_loop (suc rounds) major minor target ≡ some []
unfolding path_loop
path_loop-nil rounds major minor target h = rw h refl

path_loop-cons :
    (rounds : ℕ) (major minor target : ℤ)
    → ltb_ℤ target minor ≡ false
    → path_loop (suc rounds) major minor target
      ≡ path_cons (format_version major minor) (path_loop rounds major (next_int minor) target)
unfolding path_loop
path_loop-cons rounds major minor target h = rw h refl

lt_of_up : (minor b : ℤ) (n : ℕ) → ltb_ℤ (up minor n) b ≡ true → ltb_ℤ minor b ≡ true
unfolding ◌+ℤ◌
lt_of_up minor b n h = ground (arith, h)

next_up :
    (minor : ℤ) (n : ℕ) → ltb_ℤ (up minor n) (pos max_int) ≡ true → next_int minor ≡ minor +ℤ pos 1
next_up minor n h = next_int-below minor (lt_of_up minor (pos max_int) n h)

up-ge : (minor : ℤ) (n : ℕ) → ltb_ℤ (up minor n) minor ≡ false
unfolding ◌+ℤ◌
up-ge minor n = ground arith

zero_lt-up : (minor : ℤ) → ltb_ℤ (up minor 0) (minor +ℤ pos 1) ≡ true
unfolding ◌+ℤ◌
zero_lt-up minor = ground arith

abbrev hop_to : Hop → String
hop_to h = h.to

-- Below the greatest int, the path's loop stops on its own one round after the hops are counted.
path_loop_ends :
    (n rounds : ℕ) (major : ℤ) (i : ℕ) (minor : ℤ)
    → suc n < rounds
    → ltb_ℤ (up minor n) (pos max_int) ≡ true
    → path_loop rounds major minor (up minor n)
      ≡ some (format_version major minor ∷ map hop_to (hops_from n major i minor))
unfolding hops_from
path_loop_ends n zero major i minor h k = absurd (omega arith)
path_loop_ends zero (suc zero) major i minor h k = absurd (omega arith)
path_loop_ends zero (suc (suc rounds)) major i minor h k =
    path_loop-cons (suc rounds) major minor _ (up-ge minor 0)
    ∙ ap (path_cons (format_version major minor)) (
        ap (λ z. path_loop (suc rounds) major z (up minor 0)) (next_up minor 0 k)
        ∙ path_loop-nil rounds major _ _ (zero_lt-up minor))
path_loop_ends (suc n) (suc rounds) major i minor h k =
    path_loop-cons rounds major minor _ (up-ge minor (suc n))
    ∙ ap (path_cons (format_version major minor)) (
        ap (λ z. path_loop rounds major z (up minor (suc n))) (next_up minor (suc n) k)
        ∙ subst
            (λ t.
              path_loop rounds major (minor +ℤ pos 1) t
              ≡ some (
                  format_version major (minor +ℤ pos 1)
                  ∷ map hop_to (hops_from n major (suc i) (minor +ℤ pos 1))))
            (up-suc minor n)
            (path_loop_ends n rounds major (suc i) (minor +ℤ pos 1) (omega arith)
              (subst (λ t. ltb_ℤ t (pos max_int) ≡ true) (sym (up-suc minor n)) k)))

path_between-later :
    (m x y : ℤ)
    → ltb_ℤ x y ≡ true
    → ltb_ℤ y (pos max_int) ≡ true
    → path_between (some (m, x)) (some (m, y))
      ≡ some (record {
        path = format_version m x ∷ map hop_to (hops_from (rounds_to x y) m 1 x);
        label = gap_label (y -ℤ x);
        ok = true;
      })
path_between-later m x y h k =
    let n = rounds_to x y in
    let whole : path_loop (n + 2) m x y
        ≡ some (format_version m x ∷ map hop_to (hops_from n m 1 x)) =
      subst
        (λ t. path_loop (n + 2) m x t ≡ some (format_version m x ∷ map hop_to (hops_from n m 1 x)))
        (up-rounds x y h)
        (path_loop_ends n (n + 2) m 1 x (omega arith)
          (subst (λ t. ltb_ℤ t (pos max_int) ≡ true) (sym (up-rounds x y h)) k)) in
    let opened : path_between (some (m, x)) (some (m, y))
        ≡ path_of (gap_label (y -ℤ x)) (path_loop (n + 2) m x y) =
      ground (arith, int_eq.beq_iff m m) in
    opened ∙ ap (path_of (gap_label (y -ℤ x))) whole

next_int-IsInt : (minor : ℤ) → IsInt minor → IsInt (next_int minor)
unfolding next_int ◌+ℤ◌
next_int-IsInt minor h = ground (arith, int_eq.beq_iff minor (pos max_int))

-- With the greatest int as the target, no number of rounds is enough.
path_loop-endless :
    (rounds : ℕ) (major minor : ℤ) → IsInt minor → path_loop rounds major minor (pos max_int) ≡ none
unfolding path_loop
path_loop-endless zero major minor h = refl
path_loop-endless (suc rounds) major minor h =
    let ih = path_loop-endless rounds major (next_int minor) (next_int-IsInt minor h) in
    let below : ltb_ℤ (pos max_int) minor ≡ false = ground (arith, h) in rw (below, ih) refl

-- What a normalized version says of the version.
normalize-parsed :
    (v w : String)
    → normalize_kubernetes_version v ≡ some w
    → (p : ℤ × ℤ) × (parse_major_minor v ≡ some p)
      × (plan_parse_major_minor w ≡ some p)
      × (format_version p.0 p.1 ≡ w)
unfolding normalize_kubernetes_version
normalize-parsed v w h = elim (Option-cases (parse_major_minor v)) [
  | inl e ↦ let f : none ≡ some w = rw e at h in cc
  | inr ((m, n), e) ↦
      let (hm, hn) = parse-BothInt v (m, n) e in
      let printed : format_version m n ≡ w = some-injective _ _ (rw e at h) in
      (
        (m, n),
        e,
        subst (λ s. plan_parse_major_minor s ≡ some (m, n)) printed (plan_parse-format m n hm hn),
        printed,
      )
]

-- For two versions whose normal forms can be planned, the minor version of the target being less
-- than the greatest int, the displayed path is the normal form of the current version followed by
-- the end of every hop that the planner generates between the normal forms.
pub upgrade_path-generate_hops :
    (f t f' t' : String) (hops : List Hop)
    → normalize_kubernetes_version f ≡ some f'
    → normalize_kubernetes_version t ≡ some t'
    → ((major minor : ℤ)
        → parse_major_minor t ≡ some (major, minor)
        → ltb_ℤ minor (pos max_int) ≡ true)
    → generate_hops f' t' ≡ inr hops
    → (u : UpgradePath) × (upgrade_path f t ≡ some u)
      × (u.path ≡ f' ∷ map (λ h. h.to) hops)
      × (u.ok ≡ true)
unfolding upgrade_path
upgrade_path-generate_hops f t f' t' hops hf ht bound hg =
    let (p, ef, ef', pf) = normalize-parsed f f' hf in
    let (q, et, et', pt) = normalize-parsed t t' ht in
    let (a, closed) = generate_hops-Ahead f' t' hops hg in
    let from_parts : p ≡ (a.major, a.from_minor) = some-injective _ _ (sym ef' ∙ a.from_parsed) in
    let to_parts : q ≡ (a.major, a.to_minor) = some-injective _ _ (sym et' ∙ a.to_parsed) in
    let small = bound a.major a.to_minor (et ∙ ap some to_parts) in
    let first : format_version a.major a.from_minor ≡ f' =
      sym (ap (λ (v : ℤ × ℤ). format_version v.0 v.1) from_parts) ∙ pf in
    let ends = map hop_to (hops_from (rounds_to a.from_minor a.to_minor) a.major 1 a.from_minor) in
    (
      record {
        path = format_version a.major a.from_minor ∷ ends;
        label = gap_label (a.to_minor -ℤ a.from_minor);
        ok = true;
      },
      rw (ef, et, from_parts, to_parts)
          (path_between-later a.major a.from_minor a.to_minor a.later small),
      ap (λ s. s ∷ ends) first ∙ ap (λ l. f' ∷ map hop_to l) (sym closed),
      refl,
    )

-- A call with the greatest int as the minor version of the target, and a current version of the
-- same major version, does not return.
pub upgrade_path-none :
    (f t : String) (major minor : ℤ)
    → parse_major_minor f ≡ some (major, minor)
    → parse_major_minor t ≡ some (major, pos max_int)
    → upgrade_path f t ≡ none
unfolding upgrade_path
upgrade_path-none f t major minor hf ht =
    let (hm, hn) = parse-BothInt f (major, minor) hf in
    let rounds = rounds_to minor (pos max_int) + 2 in
    let opened : path_between (some (major, minor)) (some (major, pos max_int))
        ≡ path_of (gap_label (pos max_int -ℤ minor)) (path_loop rounds major minor (pos max_int)) =
      ground (arith, int_eq.beq_iff major major, hn) in
    rw (hf, ht)
      (opened
        ∙ ap (path_of (gap_label (pos max_int -ℤ minor))) (path_loop-endless rounds major minor hn))
