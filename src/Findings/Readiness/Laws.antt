-- ===== src/Findings/Readiness/Laws.antt =====
-- What the readiness scorecard guarantees: its score, and when it lets an upgrade continue.
use kubepreflight.Base.{◌≡◌, ◌↔◌, Bool, true, false, string_eq, arith, List, [], ◌∷◌, All}
use kubepreflight.Base.Int.{ℤ, pos, ◌≤ℤ◌, ◌-ℤ◌, int_laws}
use kubepreflight.Findings.Context.{upgrade_gate_eq}
use kubepreflight.Findings.Finding.{Finding}
use kubepreflight.Findings.Readiness.{
  Verdict, CategoryStatus, passed, UpgradeReadinessCategory, category_penalty, subtract_penalties,
  readiness_categories, build_upgrade_readiness_summary,
}

is_passed : UpgradeReadinessCategory → Bool
is_passed cat = status_passed cat.status
  where
    status_passed : CategoryStatus → Bool
    status_passed passed = true
    status_passed _ = false

penalty-zero :
    (cat : UpgradeReadinessCategory)
    → (cat.status ≡ passed → category_penalty cat ≡ 0)
      × (category_penalty cat ≡ 0 → cat.status ≡ passed)
unfolding category_penalty
penalty-zero cat = ground arith

-- Subtracting a list of penalties never adds, and subtracts nothing only if each category passed.
subtract-le :
    (score : ℤ) (cats : List UpgradeReadinessCategory) → subtract_penalties score cats ≤ℤ score
unfolding subtract_penalties
subtract-le score [] = omega arith
subtract-le score (cat ∷ cats) =
    omega (int_laws, subtract-le (score -ℤ pos (category_penalty cat)) cats)

abbrev pub AllPassed : List UpgradeReadinessCategory → Type 0
AllPassed = All (λ cat. cat.status ≡ passed)

subtract_full :
    (score : ℤ) (cats : List UpgradeReadinessCategory)
    → score ≤ℤ subtract_penalties score cats
    → AllPassed cats
unfolding subtract_penalties
subtract_full score [] h = tt
subtract_full score (cat ∷ cats) h = (
  (penalty-zero cat).1 (omega (int_laws, subtract-le (score -ℤ pos (category_penalty cat)) cats)),
  subtract_full (score -ℤ pos (category_penalty cat)) cats (omega int_laws),
)

subtract_passed :
    (score : ℤ) (cats : List UpgradeReadinessCategory)
    → AllPassed cats
    → score ≤ℤ subtract_penalties score cats
unfolding subtract_penalties
subtract_passed score [] h = omega arith
subtract_passed score (cat ∷ cats) (p, h) =
    omega (
      int_laws,
      (penalty-zero cat).0 p,
      subtract_passed (score -ℤ pos (category_penalty cat)) cats h,
    )

-- The readiness score lies between 0 and 100, and is 100 exactly if every category passed.
pub readiness_score_bounds :
    (fs : List Finding) (v : Verdict)
    → let s = build_upgrade_readiness_summary fs v in
      (pos 0 ≤ℤ s.readiness_score)
      × (s.readiness_score ≤ℤ pos 100)
      × ((s.readiness_score ≡ pos 100) ↔ AllPassed s.categories)
unfolding build_upgrade_readiness_summary
readiness_score_bounds fs v = (
  ground arith,
  ground (arith, subtract-le (pos 100) (readiness_categories fs)),
  (
    λ e. subtract_full (pos 100) (readiness_categories fs) (ground arith),
    λ h. ground (
      arith,
      subtract_passed (pos 100) (readiness_categories fs) h,
      subtract-le (pos 100) (readiness_categories fs),
    ),
  ),
)
