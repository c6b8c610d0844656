-- ===== src/Base/Texts.antt =====
-- Texts as lists of code points. Go orders and walks the bytes of a string; UTF-8 keeps the order
-- of code points, and the separators and digits that the program looks for are single bytes.
use Prim.Native.Nat.{ℕ}
use Prim.Native.Char.{code}
use Prim.Native.String.{String}
use mathlib.Core.Path.{◌≡◌, refl, ap₂, subst}
use mathlib.Core.List.{List, [], ◌∷◌}
use mathlib.Core.Option.{Option, none, some, some-injective}
use mathlib.Core.Bool.{Bool, true}
use native.Mathlib.Omega.{arith}
use text.Mathlib.TextEquality.{Char-path, eq_iff}
use mathlib.Core.HLevel.{hedberg}
use kubepreflight.Base.Tests.{if◌then◌else◌, ◌==◌, string_eq, Bool-cases}
use kubepreflight.Base.Lists.{all}
use mathlib.Core.Logic.{inl, inr}

abbrev pub codes : String → List ℕ
codes String.[] = []
codes (String.◌∷◌ c s) = code c ∷ codes s

-- A Go map literal, as the list of its entries.
abbrev pub lookup {ℓ} : {V : Type ℓ} → String → List (String × V) → Option V
lookup k [] = none
lookup k ((j, v) ∷ m) = if j == k then some v else lookup k m

pub codes_inj : (s t : String) → codes s ≡ codes t → s ≡ t
codes_inj String.[] String.[] h = refl
codes_inj String.[] (String.◌∷◌ d t) h = cc
codes_inj (String.◌∷◌ c s) String.[] h = cc
codes_inj (String.◌∷◌ c s) (String.◌∷◌ d t) h =
    ap₂ String.◌∷◌ (Char-path c d (cc)) (codes_inj s t (cc))

-- A test that every entry of a map passes is passed by what is looked up.
pub lookup-all {ℓ} :
    {V : Type ℓ} (p : V → Bool) (k : String) (m : List (String × V))
    → all (λ e. p e.1) m ≡ true
    → (v : V) → lookup k m ≡ some v
    → p v ≡ true
lookup-all p k [] h v e = cc
lookup-all p k ((j, w) ∷ m) h v e = elim (Bool-cases (j == k)) [
  | inl hit ↦ subst (λ u. p u ≡ true) (some-injective w v (rw hit at e)) (ground arith)
  | inr miss ↦ lookup-all p k m (ground arith) v (rw miss at e)
]

pub string_discrete : Discrete String
string_discrete s t = elim (Bool-cases (s == t)) [
  | inl h ↦ yes ((eq_iff s t).0 h)
  | inr h ↦ no (λ e. ground (arith, eq_iff s t))
]

pub String-set : IsSet String
String-set = hedberg string_discrete
