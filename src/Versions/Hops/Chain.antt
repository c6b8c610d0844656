-- ===== src/Versions/Hops/Chain.antt =====
-- The hops of a plan lead from the current version to the target, one minor version each.
use kubepreflight.Base.{
  ℕ, zero, suc, ◌≤◌, String, ◌≡◌, refl, ap, sym, ◌∙◌, subst, some, List, [], ◌∷◌, true, false, inl,
  inr, arith, ◌↔◌, length, Option-cases,
}
use kubepreflight.Base.Int.{ℤ, pos, ltb_ℤ, int_eq, ◌+ℤ◌, ◌-ℤ◌, +ℤ_parts, eq_of_parts}
use kubepreflight.Versions.Parse.{plan_parse_major_minor, format_version}
use kubepreflight.Versions.Hops.{
  Hop, HopsError, hop_at, hops_loop, rounds_to, hops_between, generate_hops,
}

-- `n` minor versions up.
abbrev pub up : ℤ → ℕ → ℤ
up minor n = minor +ℤ pos n

up_lt : (minor : ℤ) (n : ℕ) → ltb_ℤ minor (up minor (suc n)) ≡ true
unfolding ◌+ℤ◌
up_lt minor n = ground arith

pub up_zero : (minor : ℤ) → up minor 0 ≡ minor
unfolding ◌+ℤ◌
up_zero minor = ground arith

up_self : (minor : ℤ) → ltb_ℤ minor (up minor 0) ≡ false
unfolding ◌+ℤ◌
up_self minor = ground arith

pub up-suc : (minor : ℤ) (n : ℕ) → up (minor +ℤ pos 1) n ≡ up minor (suc n)
up-suc minor n = eq_of_parts _ _ (
    omega (
      arith,
      +ℤ_parts minor (pos 1),
      +ℤ_parts (minor +ℤ pos 1) (pos n),
      +ℤ_parts minor (pos (suc n)),
    ))

pub up-rounds : (minor to : ℤ) → ltb_ℤ minor to ≡ true → up minor (rounds_to minor to) ≡ to
unfolding ◌+ℤ◌ ◌-ℤ◌
up-rounds minor to h = ground arith

-- The hops in closed form.
unfoldable pub hops_from : ℕ → ℤ → ℕ → ℤ → List Hop
hops_from zero major i minor = []
hops_from (suc n) major i minor = hop_at major i minor ∷ hops_from n major (suc i) (minor +ℤ pos 1)

hops_loop-nil :
    (rounds : ℕ) (major : ℤ) (i : ℕ) (minor to : ℤ)
    → ltb_ℤ minor to ≡ false
    → hops_loop rounds major i minor to ≡ []
unfolding hops_loop
hops_loop-nil zero major i minor to h = refl
hops_loop-nil (suc rounds) major i minor to h = rw h refl

hops_loop-cons :
    (rounds : ℕ) (major : ℤ) (i : ℕ) (minor to : ℤ)
    → ltb_ℤ minor to ≡ true
    → hops_loop (suc rounds) major i minor to
      ≡ hop_at major i minor ∷ hops_loop rounds major (suc i) (minor +ℤ pos 1) to
unfolding hops_loop
hops_loop-cons rounds major i minor to h = rw h refl

-- The loop stops on its own after `n` rounds when the target is `n` minor versions up: any number
-- of rounds from `n` on gives the same `n` hops.
pub hops_loop_ends :
    (n rounds : ℕ) (major : ℤ) (i : ℕ) (minor : ℤ)
    → n ≤ rounds
    → hops_loop rounds major i minor (up minor n) ≡ hops_from n major i minor
unfolding hops_from
hops_loop_ends zero rounds major i minor _ = hops_loop-nil rounds major i minor _ (up_self minor)
hops_loop_ends (suc n) zero major i minor h = absurd (omega arith)
hops_loop_ends (suc n) (suc rounds) major i minor h =
    hops_loop-cons rounds major i minor _ (up_lt minor n)
    ∙ ap (λ l. hop_at major i minor ∷ l)
        (subst
          (λ t.
            hops_loop rounds major (suc i) (minor +ℤ pos 1) t
            ≡ hops_from n major (suc i) (minor +ℤ pos 1))
          (up-suc minor n) (hops_loop_ends n rounds major (suc i) (minor +ℤ pos 1) (omega arith)))

-- What the list of hops has to be: `n` hops, numbered from `i`, each from where the one before it
-- ended to one minor version up.
pub hops_between_lem :
    (m x n y : ℤ) (hops : List Hop)
    → hops_between (some (m, x)) (some (n, y)) ≡ inr hops
    → (m ≡ n) × (ltb_ℤ x y ≡ true) × (hops ≡ hops_from (rounds_to x y) m 1 x)
hops_between_lem m x n y hops h =
    let climbs : (m ≡ n) × (ltb_ℤ x y ≡ true) × (hops_loop (rounds_to x y) m 1 x y ≡ hops) =
      ground (arith, int_eq.beq_iff m n, int_eq.beq_iff x y) in
    (
      climbs.0,
      climbs.1,
      sym climbs.2
          ∙ subst (λ t. hops_loop (rounds_to x y) m 1 x t ≡ hops_from (rounds_to x y) m 1 x)
              (up-rounds x y climbs.1) (hops_loop_ends (rounds_to x y) _ m 1 x (omega arith)),
    )

pub Climb : ℤ → ℕ → ℤ → ℤ → List Hop → Type 0
Climb major i minor to [] = minor ≡ to
Climb major i minor to (hop ∷ hops) =
    (hop.index ≡ i)
    × (hop.from ≡ format_version major minor)
    × (hop.to ≡ format_version major (minor +ℤ pos 1))
    × Climb major (suc i) (minor +ℤ pos 1) to hops

hops_from-Climb :
    (n : ℕ) (major : ℤ) (i : ℕ) (minor : ℤ)
    → Climb major i minor (up minor n) (hops_from n major i minor)
unfolding hops_from Climb
hops_from-Climb zero major i minor = sym (up_zero minor)
hops_from-Climb (suc n) major i minor = (
  refl,
  refl,
  refl,
  subst (λ t. Climb major (suc i) (minor +ℤ pos 1) t (hops_from n major (suc i) (minor +ℤ pos 1)))
      (up-suc minor n) (hops_from-Climb n major (suc i) (minor +ℤ pos 1)),
)

length-hops_from : (n : ℕ) (major : ℤ) (i : ℕ) (minor : ℤ) → length (hops_from n major i minor) ≡ n
unfolding hops_from
length-hops_from zero major i minor = refl
length-hops_from (suc n) major i minor =
    ground (arith, length-hops_from n major (suc i) (minor +ℤ pos 1))

-- The two versions of a plan: both readable, of one major version, the target later.
pub record Ahead (from_version to_version : String) : Type 0 where
  pub major : ℤ
  pub from_minor : ℤ
  pub to_minor : ℤ
  pub from_parsed : plan_parse_major_minor from_version ≡ some (major, from_minor)
  pub to_parsed : plan_parse_major_minor to_version ≡ some (major, to_minor)
  pub later : ltb_ℤ from_minor to_minor ≡ true

pub generate_hops-Ahead :
    (f t : String) (hops : List Hop)
    → generate_hops f t ≡ inr hops
    → (a : Ahead f t) × (hops
        ≡ hops_from (rounds_to a.from_minor a.to_minor) a.major 1 a.from_minor)
unfolding generate_hops
generate_hops-Ahead f t hops h = elim (Option-cases (plan_parse_major_minor f)) [
  | inl e ↦ let k : inl HopsError.unreadable_from ≡ inr hops = rw e at h in cc
  | inr ((m, x), e) ↦ elim (Option-cases (plan_parse_major_minor t)) [
    | inl e' ↦ let k : inl HopsError.unreadable_to ≡ inr hops = rw (e, e') at h in cc
    | inr ((n, y), e') ↦
        let (majors, climbs, closed) = hops_between_lem m x n y hops (rw (e, e') at h) in
        (
          record {
            major = m;
            from_minor = x;
            to_minor = y;
            from_parsed = e;
            to_parsed = subst (λ k. plan_parse_major_minor t ≡ some (k, y)) (sym majors) e';
            later = climbs;
          },
          closed,
        )
  ]
]

pub Ahead-generate_hops :
    (f t : String) (a : Ahead f t)
    → generate_hops f t
      ≡ inr (hops_loop (rounds_to a.from_minor a.to_minor) a.major 1 a.from_minor a.to_minor)
unfolding generate_hops
Ahead-generate_hops f t a =
    rw (a.from_parsed, a.to_parsed)
      (ground
        (arith, int_eq.beq_iff a.major a.major, int_eq.beq_iff a.from_minor a.to_minor, a.later))

-- Hops are generated if and only if both versions can be read, their major versions are equal and
-- the minor version of the target is greater.
pub generate_hops_iff :
    (f t : String) → ((hops : List Hop) × (generate_hops f t ≡ inr hops)) ↔ Ahead f t
generate_hops_iff f t =
    (λ (hops, h). (generate_hops-Ahead f t hops h).0, λ a. (_, Ahead-generate_hops f t a))

-- When hops are generated, they climb from the current minor version to the target's: numbered
-- from 1, each hop starts where the one before it ended and goes up by one minor version, the
-- last one ends at the target, and there are as many as the minor versions between the two.
pub generate_hops-Climb :
    (f t : String) (hops : List Hop)
    → generate_hops f t ≡ inr hops
    → (a : Ahead f t) × Climb a.major 1 a.from_minor a.to_minor hops
      × (length hops ≡ rounds_to a.from_minor a.to_minor)
generate_hops-Climb f t hops h =
    let (a, closed) = generate_hops-Ahead f t hops h in
    let n = rounds_to a.from_minor a.to_minor in
    let climb =
      subst (λ y. Climb a.major 1 a.from_minor y (hops_from n a.major 1 a.from_minor))
        (up-rounds a.from_minor a.to_minor a.later) (hops_from-Climb n a.major 1 a.from_minor) in
    (
      a,
      subst (Climb a.major 1 a.from_minor a.to_minor) (sym closed) climb,
      ap length closed ∙ length-hops_from n a.major 1 a.from_minor,
    )
