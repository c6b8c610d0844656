-- ===== src/Rollback/Texts.antt =====
-- What the rollback code uses of Go's strings package, on whole texts.
use Prim.Native.Char.{Char, code}
use Prim.Native.String as Str
use kubepreflight.Base.{
  ℕ, String, ◌≡◌, refl, ap, ◌∙◌, Bool, true, false, ◌==◌, nat_eq, string_eq, if◌then◌else◌, List,
  [], ◌∷◌, codes, arith, Bool-cases, inl, inr,
}
use kubepreflight.Versions.Parse.{
  is_space, trim_left, trim_right, trim_space, cons_unless_last_space,
}

infixr 65 ◌+s◌
abbrev pub ◌+s◌ : String → String → String
s +s t = Str.◌++◌ s t

unfoldable pub trim_left_text : String → String
trim_left_text Str.[] = Str.[]
trim_left_text (Str.◌∷◌ c s) =
    let rest = trim_left_text s in if is_space (code c) then rest else Str.◌∷◌ c s

abbrev pub cons_unless_last : Char → String → String
cons_unless_last c Str.[] = if is_space (code c) then Str.[] else Str.◌∷◌ c Str.[]
cons_unless_last c (Str.◌∷◌ d s) = Str.◌∷◌ c (Str.◌∷◌ d s)

unfoldable pub trim_right_text : String → String
trim_right_text Str.[] = Str.[]
trim_right_text (Str.◌∷◌ c s) = cons_unless_last c (trim_right_text s)

unfoldable pub trim_text : String → String
trim_text s = trim_right_text (trim_left_text s)

codes-trim_left : (s : String) → codes (trim_left_text s) ≡ trim_left (codes s)
unfolding trim_left_text trim_left
codes-trim_left Str.[] = refl
codes-trim_left (Str.◌∷◌ c s) = ground (arith, codes-trim_left s)

codes-cons_unless_last :
    (c : Char) (s : String)
    → codes (cons_unless_last c s) ≡ cons_unless_last_space (code c) (codes s)
codes-cons_unless_last c Str.[] = elim (Bool-cases (is_space (code c))) [
  | inl h ↦ rw h refl
  | inr h ↦ rw h refl
]
codes-cons_unless_last c (Str.◌∷◌ d s) = refl

codes-trim_right : (s : String) → codes (trim_right_text s) ≡ trim_right (codes s)
unfolding trim_right_text trim_right
codes-trim_right Str.[] = refl
codes-trim_right (Str.◌∷◌ c s) =
    codes-cons_unless_last c (trim_right_text s)
    ∙ ap (cons_unless_last_space (code c)) (codes-trim_right s)

-- The two ways to trim a text agree.
pub codes-trim_text : (s : String) → codes (trim_text s) ≡ trim_space (codes s)
unfolding trim_text trim_space
codes-trim_text s = codes-trim_right (trim_left_text s) ∙ ap trim_right (codes-trim_left s)

abbrev pub starts : List ℕ → List ℕ → Bool
starts [] s = true
starts (c ∷ p) [] = false
starts (c ∷ p) (d ∷ s) = let rest = starts p s in if c == d then rest else false

-- strings.HasPrefix
unfoldable pub has_prefix : String → String → Bool
has_prefix s prefix = starts (codes prefix) (codes s)

abbrev pub last_is_dash : List ℕ → Bool
last_is_dash [] = false
last_is_dash (c ∷ []) = c == 45
last_is_dash (c ∷ d ∷ s) = last_is_dash (d ∷ s)

unfoldable pub empty_as_unknown : String → String
empty_as_unknown value = if trim_text value == "" then "unknown" else value
