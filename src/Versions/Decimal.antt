-- ===== src/Versions/Decimal.antt =====
-- strconv.Atoi and the `%d` of fmt, on Go's 64-bit int. Texts are read as lists of code points.
pub mod RoundTrip
use Prim.Native.Nat.{◌/◌, ◌%◌, ◌^◌}
use Prim.Native.Char.{Char}
use Prim.Native.String as Str
use mathlib.Core.Logic.{dite}
use mathlib.Core.WellFounded.{Acc, WellFounded}
use native.Mathlib.Decide.{dec_lt}
use kubepreflight.Base.{
  ℕ, zero, suc, ◌+◌, ◌-◌, ◌*◌, ◌<◌, ◌≤◌, String, ◌≡◌, refl, Option, none, some, List, [], ◌∷◌, Bool,
  ◌&&◌, ◌==◌, nat_eq, if◌then◌else◌, leb, ltb, arith, codes,
}
use kubepreflight.Base.Int.{ℤ, pos, negsuc}

abbrev pub max_int : ℕ
max_int = 2 ^ 63 - 1

-- The values of Go's int.
abbrev pub IsInt : ℤ → Type 0
IsInt (pos n) = n ≤ max_int
IsInt (negsuc n) = n ≤ max_int

abbrev pub is_digit : ℕ → Bool
is_digit c = leb 48 c && leb c 57

unfoldable pub scan : List ℕ → ℕ → Option ℕ
scan [] n = some n
scan (c ∷ s) n = let rest = scan s (n * 10 + (c - 48)) in if is_digit c then rest else none

abbrev pub positive : Option ℕ → Option ℤ
positive none = none
positive (some n) = if leb n max_int then some (pos n) else none

abbrev pub negative : Option ℕ → Option ℤ
negative none = none
negative (some zero) = some (pos 0)
negative (some (suc n)) = if leb n max_int then some (negsuc n) else none

-- A sign, if any, and then one digit or more.
abbrev pub unsigned : List ℕ → Option ℕ
unsigned [] = none
unsigned (c ∷ s) = scan (c ∷ s) 0

unfoldable pub atoi : List ℕ → Option ℤ
atoi [] = none
atoi (c ∷ s) =
    if c == 45
    then negative (unsigned s)
    else if c == 43
    then positive (unsigned s)
    else positive (unsigned (c ∷ s))

abbrev pub digit_char : ℕ → Char
digit_char d =
    if d == 0
    then "0"
    else if d == 1
    then "1"
    else if d == 2
    then "2"
    else if d == 3
    then "3"
    else if d == 4
    then "4"
    else if d == 5
    then "5"
    else if d == 6
    then "6"
    else if d == 7
    then "7"
    else if d == 8
    then "8"
    else "9"

abbrev pub one_char : Char → String
one_char c = Str.◌∷◌ c Str.[]

below_IsAcc : (bound n : ℕ) → n < bound → Acc ◌<◌ n
below_IsAcc zero n h = absurd (omega arith)
below_IsAcc (suc bound) n h = Acc.intro n λ m lt. below_IsAcc bound m (omega arith)

pub lt_IsWellFounded : WellFounded ◌<◌
unfolding below_IsAcc
lt_IsWellFounded = record { apply = λ n. below_IsAcc (suc n) n (omega arith) }

pub tenth_lt : (n : ℕ) → 9 < n → n / 10 < n
tenth_lt n h = omega arith

-- The digits of a number, the last one printed after the rest.
pub spell : (n : ℕ) → Acc ◌<◌ n → String
spell n (Acc.intro _ smaller) =
    dite (dec_lt 9 n)
      (λ h.
        Str.◌++◌ (spell (n / 10) (smaller (n / 10) (tenth_lt n h)))
          (one_char (digit_char (n % 10))))
      (λ _. one_char (digit_char n))

unfoldable pub decimal : ℕ → String
decimal n = spell n (lt_IsWellFounded.apply n)

unfoldable pub decimal_int : ℤ → String
decimal_int (pos n) = decimal n
decimal_int (negsuc n) = Str.◌++◌ "-" (decimal (suc n))

prints : decimal 1290 ≡ "1290"
unfolding decimal spell lt_IsWellFounded below_IsAcc dec_lt
prints = refl

reads : (atoi (codes "-034") ≡ some (negsuc 33)) × (atoi (codes "9223372036854775808") ≡ none)
unfolding atoi scan
reads = (refl, refl)
