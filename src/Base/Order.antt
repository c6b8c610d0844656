-- ===== src/Base/Order.antt =====
-- Strict total orders as Boolean tests, and the lexicographic order on lists. Go's `<` on strings
-- is the lexicographic order of their code points.
use Prim.Native.String.{String}
use mathlib.Core.Path.{◌≡◌, refl, ap₂}
use mathlib.Core.Bool.{Bool, true, false}
use mathlib.Core.List.{List, [], ◌∷◌}
use native.Mathlib.Omega.{arith}
use kubepreflight.Base.Tests.{ltb, if◌then◌else◌}
use kubepreflight.Base.Texts.{codes, codes_inj}

-- What a `less` function of a sort must satisfy, with equality for the ties.
pub record IsStrictOrder {ℓ} {A : Type ℓ} (lt : A → A → Bool) : Type ℓ where
  pub irrefl : (a : A) → lt a a ≡ false
  pub trans : (a b c : A) → lt a b ≡ true → lt b c ≡ true → lt a c ≡ true
  pub connex : (a b : A) → lt a b ≡ false → lt b a ≡ false → a ≡ b

pub ltb-IsStrictOrder : IsStrictOrder ltb
ltb-IsStrictOrder = record {
  irrefl = λ a. ground arith;
  trans = λ a b c h k. ground arith;
  connex = λ a b h k. ground arith;
}

module _ {ℓ} {A : Type ℓ} where
  abbrev pub lex : (A → A → Bool) → List A → List A → Bool
  lex lt [] [] = false
  lex lt [] (b ∷ ys) = true
  lex lt (a ∷ xs) [] = false
  lex lt (a ∷ xs) (b ∷ ys) =
      let rest = lex lt xs ys in if lt a b then true else if lt b a then false else rest

  module _ {lt : A → A → Bool} (o : IsStrictOrder lt) where
    pub asym : (a b : A) → lt a b ≡ true → lt b a ≡ false
    asym a b h = ground (arith, o.trans a b a, o.irrefl a)

    -- The negation of a strict order is transitive.
    pub not_lt_trans : (a b c : A) → lt b a ≡ false → lt c b ≡ false → lt c a ≡ false
    not_lt_trans a b c h k =
        ground
          (arith, o.trans b c a, o.trans c a b, o.connex a b, o.connex b c, o.trans a b c, asym a b)

    lex_irrefl : (xs : List A) → lex lt xs xs ≡ false
    lex_irrefl [] = refl
    lex_irrefl (a ∷ xs) = ground (arith, o.irrefl a, lex_irrefl xs)

    lex_connex : (xs ys : List A) → lex lt xs ys ≡ false → lex lt ys xs ≡ false → xs ≡ ys
    lex_connex [] [] h k = refl
    lex_connex [] (b ∷ ys) h k = cc
    lex_connex (a ∷ xs) [] h k = cc
    lex_connex (a ∷ xs) (b ∷ ys) h k = ap₂ ◌∷◌ (ground (arith, o.connex a b)) (
        lex_connex xs ys (ground (arith, o.connex a b, asym b a))
          (ground (arith, o.connex a b, asym a b)))

    lex_trans :
        (xs ys zs : List A) → lex lt xs ys ≡ true → lex lt ys zs ≡ true → lex lt xs zs ≡ true
    lex_trans [] [] zs h k = cc
    lex_trans [] (b ∷ ys) [] h k = cc
    lex_trans [] (b ∷ ys) (c ∷ zs) h k = refl
    lex_trans (a ∷ xs) [] zs h k = cc
    lex_trans (a ∷ xs) (b ∷ ys) [] h k = cc
    lex_trans (a ∷ xs) (b ∷ ys) (c ∷ zs) h k = ground (
      arith,
      lex_trans xs ys zs,
      o.trans a b c,
      o.connex a b,
      o.connex b c,
      o.trans c a b,
      o.trans b c a,
      asym a b,
      asym b c,
      asym c a,
    )

    pub lex-IsStrictOrder : IsStrictOrder (lex lt)
    lex-IsStrictOrder = record { irrefl = lex_irrefl; trans = lex_trans; connex = lex_connex }

abbrev pub string_lt : String → String → Bool
string_lt s t = lex ltb (codes s) (codes t)

module _ {ℓ κ} {A : Type ℓ} {B : Type κ} {lt : B → B → Bool} (o : IsStrictOrder lt)
    (key : A → B) where
  -- A strict order on keys that determine the value.
  pub on_key-IsStrictOrder :
      ((a b : A) → key a ≡ key b → a ≡ b) → IsStrictOrder (λ a b. lt (key a) (key b))
  on_key-IsStrictOrder inj = record {
    irrefl = λ a. o.irrefl (key a);
    trans = λ a b c. o.trans (key a) (key b) (key c);
    connex = λ a b h k. inj a b (o.connex (key a) (key b) h k);
  }

pub string_lt-IsStrictOrder : IsStrictOrder string_lt
string_lt-IsStrictOrder = on_key-IsStrictOrder (lex-IsStrictOrder ltb-IsStrictOrder) codes codes_inj
