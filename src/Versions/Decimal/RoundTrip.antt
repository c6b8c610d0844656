-- ===== src/Versions/Decimal/RoundTrip.antt =====
-- Atoi reads back what `%d` prints.
use Prim.Native.Nat.{◌/◌, ◌%◌}
use Prim.Native.Char.{code}
use Prim.Native.String as Str
use Prim.Native.String.append as Append
use mathlib.Core.Logic.{ite, dite}
use mathlib.Core.WellFounded
use mathlib.Core.WellFounded.{Acc, Acc-prop}
use native.Mathlib.Decide.{dec_lt}
use kubepreflight.Base.{
  ℕ, zero, suc, ◌+◌, ◌-◌, ◌*◌, ◌<◌, ◌≤◌, String, ◌≡◌, ◌≢◌, refl, ap, sym, ◌∙◌, some, List, [], ◌∷◌,
  ◌++◌, true, nat_eq, arith, codes, All, All-append, All-imp, ◌⊎◌, inl, inr, subst,
}
use kubepreflight.Base.Int.{ℤ, pos, negsuc}
use kubepreflight.Versions.Decimal.{
  IsInt, max_int, is_digit, scan, unsigned, atoi, digit_char, one_char, lt_IsWellFounded, tenth_lt,
  spell, decimal, decimal_int,
}

pub codes-append : (s t : String) → codes (Str.◌++◌ s t) ≡ codes s ++ codes t
codes-append Str.[] t = ap codes (Append.nil t)
codes-append (Str.◌∷◌ c s) t =
    ap codes (Append.cons c s t) ∙ ap (λ l. code c ∷ l) (codes-append s t)

digit_char-code : (d : ℕ) → d < 10 → code (digit_char d) ≡ 48 + d
digit_char-code zero h = refl
digit_char-code (suc zero) h = refl
digit_char-code (suc (suc zero)) h = refl
digit_char-code (suc (suc (suc zero))) h = refl
digit_char-code (suc (suc (suc (suc zero)))) h = refl
digit_char-code (suc (suc (suc (suc (suc zero))))) h = refl
digit_char-code (suc (suc (suc (suc (suc (suc zero)))))) h = refl
digit_char-code (suc (suc (suc (suc (suc (suc (suc zero))))))) h = refl
digit_char-code (suc (suc (suc (suc (suc (suc (suc (suc zero)))))))) h = refl
digit_char-code (suc (suc (suc (suc (suc (suc (suc (suc (suc zero))))))))) h = refl
digit_char-code (suc (suc (suc (suc (suc (suc (suc (suc (suc (suc n)))))))))) h =
    absurd (omega arith)

spell_step :
    (n : ℕ) (w : Acc ◌<◌ n) (w' : Acc ◌<◌ (n / 10))
    → spell n w
      ≡ ite
          (dec_lt 9 n)
          (Str.◌++◌ (spell (n / 10) w') (one_char (digit_char (n % 10))))
          (one_char (digit_char n))
unfolding spell
spell_step n (Acc.intro _ smaller) w' = λ i.
    dite (dec_lt 9 n)
      (λ h.
        Str.◌++◌ (spell (n / 10) (Acc-prop (smaller (n / 10) (tenth_lt n h)) w' i))
          (one_char (digit_char (n % 10))))
      (λ _. one_char (digit_char n))

-- The printing loop prints the digits of a tenth and then the last digit.
decimal_many :
    (n : ℕ) → 9 < n → codes (decimal n) ≡ codes (decimal (n / 10)) ++ ((48 + n % 10) ∷ [])
unfolding decimal
decimal_many n h = ground (
  arith,
  spell_step n (lt_IsWellFounded.apply n) (lt_IsWellFounded.apply (n / 10)),
  codes-append (decimal (n / 10)) (one_char (digit_char (n % 10))),
  digit_char-code (n % 10),
)

decimal_one : (n : ℕ) → n ≤ 9 → codes (decimal n) ≡ (48 + n) ∷ []
unfolding decimal
decimal_one n h = ground (
  arith,
  spell_step n (lt_IsWellFounded.apply n) (lt_IsWellFounded.apply (n / 10)),
  digit_char-code n,
)

abbrev pub IsDigit : ℕ → Type 0
IsDigit c = is_digit c ≡ true

scan-append :
    (xs : List ℕ) (d n : ℕ) (k : ℕ)
    → d < 10
    → scan xs k ≡ some n
    → scan (xs ++ ((48 + d) ∷ [])) k ≡ some (n * 10 + d)
unfolding scan
scan-append [] d n k small h = ground arith
scan-append (c ∷ xs) d n k small h = ground (arith, scan-append xs d n (k * 10 + (c - 48)) small)

-- What the digits of a number are: one or more digits, which spell the number.
pub record Spells (n : ℕ) (xs : List ℕ) : Type 0 where
  pub value : scan xs 0 ≡ some n
  pub digits : All IsDigit xs
  pub some_digit : xs ≢ []

Spells-digit : (d : ℕ) → d < 10 → Spells d ((48 + d) ∷ [])
unfolding scan
Spells-digit d h = record { value = ground arith; digits = ground arith; some_digit = λ e. cc }

append_one-ne-nil : (xs : List ℕ) (c : ℕ) → xs ++ (c ∷ []) ≢ []
append_one-ne-nil [] c e = cc
append_one-ne-nil (x ∷ xs) c e = cc

Spells-append :
    (n d : ℕ) (xs : List ℕ) → d < 10 → Spells n xs → Spells (n * 10 + d) (xs ++ ((48 + d) ∷ []))
Spells-append n d xs h s = record {
  value = scan-append xs d n 0 h s.value;
  digits = All-append IsDigit xs _ s.digits (ground arith);
  some_digit = append_one-ne-nil xs (48 + d);
}

pub decimal-Spells : (n : ℕ) → Spells n (codes (decimal n))
decimal-Spells n =
    WellFounded.induction lt_IsWellFounded {C = λ m. Spells m (codes (decimal m))} n λ m ih.
      dite (dec_lt 9 m)
        (λ h. subst (Spells m) (sym (decimal_many m h)) (
          subst (λ k. Spells k (codes (decimal (m / 10)) ++ ((48 + m % 10) ∷ []))) (omega arith)
            (Spells-append (m / 10) (m % 10) _ (omega arith) (ih (m / 10) (omega arith)))))
        (λ h. subst (Spells m) (sym (decimal_one m (omega arith))) (Spells-digit m (omega arith)))

unsigned-Spells : (n : ℕ) (xs : List ℕ) → Spells n xs → unsigned xs ≡ some n
unsigned-Spells n [] s = absurd (s.some_digit refl)
unsigned-Spells n (c ∷ xs) s = s.value

atoi-Spells : (n : ℕ) (xs : List ℕ) → n ≤ max_int → Spells n xs → atoi xs ≡ some (pos n)
unfolding atoi
atoi-Spells n [] h s = absurd (s.some_digit refl)
atoi-Spells n (c ∷ xs) h s = ground (arith, s.value, s.digits)

minus : (n : ℕ) → codes (decimal_int (negsuc n)) ≡ 45 ∷ codes (decimal (suc n))
unfolding decimal_int
minus n = codes-append "-" (decimal (suc n))

atoi-minus :
    (n : ℕ) (xs : List ℕ) → n ≤ max_int → Spells (suc n) xs → atoi (45 ∷ xs) ≡ some (negsuc n)
unfolding atoi
atoi-minus n xs h s = ground (arith, unsigned-Spells (suc n) xs s)

pub atoi-decimal_int : (z : ℤ) → IsInt z → atoi (codes (decimal_int z)) ≡ some z
unfolding decimal_int
atoi-decimal_int (pos n) h = atoi-Spells n _ h (decimal-Spells n)
atoi-decimal_int (negsuc n) h = ap atoi (minus n) ∙ atoi-minus n _ h (decimal-Spells (suc n))

-- The characters of a printed integer.
abbrev pub IsNumeral : ℕ → Type 0
IsNumeral c = (c ≡ 45) ⊎ IsDigit c

pub decimal_int-IsNumeral : (z : ℤ) → All IsNumeral (codes (decimal_int z))
unfolding decimal_int
decimal_int-IsNumeral (pos n) = All-imp (λ c. inr) _ (decimal-Spells n).digits
decimal_int-IsNumeral (negsuc n) =
    subst (All IsNumeral) (sym (minus n))
      (inl refl, All-imp (λ c. inr) _ (decimal-Spells (suc n)).digits)

pub decimal_int-ne-nil : (z : ℤ) → codes (decimal_int z) ≢ []
unfolding decimal_int
decimal_int-ne-nil (pos n) e = (decimal-Spells n).some_digit e
decimal_int-ne-nil (negsuc n) e =
    let h : 45 ∷ codes (decimal (suc n)) ≡ [] = sym (minus n) ∙ e in cc

-- Atoi returns values of Go's int only.
pub atoi-IsInt : (xs : List ℕ) (z : ℤ) → atoi xs ≡ some z → IsInt z
unfolding atoi
atoi-IsInt [] z h = cc
atoi-IsInt (c ∷ s) z h = ground arith
