-- ===== src/Base/Sorting.antt =====
-- What the program uses of Go's `sort.SliceStable`, `sort.Slice` and `sort.Strings`: a stable sort
-- by a `less` function, as an insertion sort.
use Prim.Native.Nat.{suc}
use native.Mathlib.Nat.{ℕ_set}
use native.Mathlib.Omega.{arith}
use mathlib.Core.Logic.{∥∥₁_elim}
use mathlib.Core.Path.{◌≡◌, refl, ap, ap₂, ◌∙◌, sym}
use mathlib.Core.Bool.{Bool, true, false, ◌||◌, Bool-set}
use mathlib.Core.Logic.{inl, inr}
use mathlib.Core.List.{
  List, [], ◌∷◌, Mem, Perm, Pairwise, Pairwise-singleton, mem-cons_self, forall_mem-cons,
  mem-cons_of_mem, Permᴰ,
}
use mathlib.Core.List.Pairwise
use mathlib.Core.List.Perm
use kubepreflight.Base.Lists.{length, any}
use kubepreflight.Base.Tests.{if◌then◌else◌, Bool-cases}
use kubepreflight.Base.Order.{IsStrictOrder, asym, not_lt_trans}

module _ {ℓ} {A : Type ℓ} (less : A → A → Bool) where
  -- Equal values keep their order: `x` stands in front of what it is not greater than.
  pub insert : A → List A → List A
  insert x [] = x ∷ []
  insert x (y ∷ ys) = let rest = insert x ys in if less y x then y ∷ rest else x ∷ y ∷ ys

  unfoldable pub sort : List A → List A
  unfolding insert
  sort [] = []
  sort (x ∷ xs) = insert x (sort xs)

  -- No later element is less than an earlier one.
  abbrev pub IsSorted : List A → Type ℓ
  IsSorted = Pairwise (λ a b. less b a ≡ false)

  pub insert-perm : (x : A) (xs : List A) → Perm (insert x xs) (x ∷ xs)
  unfolding insert
  insert-perm x [] = Perm.rfl
  insert-perm x (y ∷ ys) = elim (Bool-cases (less y x)) [
    | inl h ↦ rw (h, insert) (Perm.trans (Perm.cons y (insert-perm x ys)) (Perm.swap x y ys))
    | inr h ↦ rw (h, insert) Perm.rfl
  ]

  -- A sort only rearranges.
  pub sort-perm : (xs : List A) → Perm (sort xs) xs
  unfolding sort
  sort-perm [] = Perm.rfl
  sort-perm (x ∷ xs) = Perm.trans (insert-perm x (sort xs)) (Perm.cons x (sort-perm xs))

-- A test finds in a sorted list what it finds in the list.
module _ {ℓ} {A : Type ℓ} (less : A → A → Bool) (p : A → Bool) where
  any-insert : (x : A) (xs : List A) → any p (insert less x xs) ≡ p x || any p xs
  unfolding insert
  any-insert x [] = refl
  any-insert x (y ∷ ys) = ground (arith, any-insert x ys)

  pub any-sort : (xs : List A) → any p (sort less xs) ≡ any p xs
  unfolding sort
  any-sort [] = refl
  any-sort (x ∷ xs) = any-insert x (sort less xs) ∙ ap (λ b. p x || b) (any-sort xs)

module _ {ℓ κ} {A : Type ℓ} {K : Type κ} (less : A → A → Bool) {lt : K → K → Bool}
    (o : IsStrictOrder lt) (key : A → K) (agrees : (a b : A) → less a b ≡ lt (key a) (key b)) where
  abbrev Le : A → A → Type 0
  Le a b = less b a ≡ false

  Le-prop : (a b : A) → IsProp (Le a b)
  Le-prop a b = Bool-set (less b a) false

  Le_trans : (a b c : A) → Le a b → Le b c → Le a c
  Le_trans a b c h k =
      agrees c a
      ∙ not_lt_trans o (key a) (key b) (key c) (sym (agrees b a) ∙ h) (sym (agrees c b) ∙ k)

  Le_of_less : (a b : A) → less a b ≡ true → Le a b
  Le_of_less a b h = agrees b a ∙ asym o (key a) (key b) (sym (agrees a b) ∙ h)

  below_cons :
      (a b : A) (l : List A)
      → Le a b
      → ((x : A) → Mem x l → Le b x)
      → (x : A) → Mem x (b ∷ l)
      → Le a x
  below_cons a b l h k = (forall_mem-cons (Le-prop a)).1 (h, λ x m. Le_trans a b x h (k x m))

  insert-IsSorted : (x : A) {l : List A} → IsSorted less l → IsSorted less (insert less x l)
  unfolding insert
  insert-IsSorted x Pairwise.nil = Pairwise-singleton _ x
  insert-IsSorted x (Pairwise.cons {a = y} {l = ys} below s) = elim (Bool-cases (less y x)) [
    | inl h ↦
        rw (h, insert)
          (Pairwise.cons
            (λ z m.
              (forall_mem-cons (Le-prop y)).1 (Le_of_less y x h, below) z
                ((Perm.mem_iff (insert-perm less x ys)).0 m))
            (insert-IsSorted x s))
    | inr h ↦ rw (h, insert) (Pairwise.cons (below_cons x y ys h below) (Pairwise.cons below s))
  ]

  -- The result is in order.
  pub sort-IsSorted : (xs : List A) → IsSorted less (sort less xs)
  unfolding sort
  sort-IsSorted [] = Pairwise.nil
  sort-IsSorted (x ∷ xs) = insert-IsSorted x (sort-IsSorted xs)

  -- The values of a list that share a key are equal.
  abbrev pub KeyInj : List A → Type (ℓ ⊔ κ)
  KeyInj l = (a b : A) → Mem a l → Mem b l → key a ≡ key b → a ≡ b

  heads_le : {a b : A} {l r : List A} → IsSorted less (a ∷ l) → Perm (b ∷ r) (a ∷ l) → Le a b
  heads_le {a} {b} {l} (Pairwise.cons below s) p =
      (forall_mem-cons (Le-prop a)).1 (agrees a a ∙ o.irrefl (key a), below) b
        ((Perm.mem_iff p).0 mem-cons_self)

  IsSorted-eq_of_perm :
      (l r : List A) → KeyInj l → IsSorted less l → IsSorted less r → Perm l r → l ≡ r
  IsSorted-eq_of_perm [] r inj sl sr p = Perm.nil-eq p
  IsSorted-eq_of_perm (a ∷ l) [] inj sl sr p = Perm.eq-nil p
  IsSorted-eq_of_perm (a ∷ l) (b ∷ r) inj sl sr p = ap₂ ◌∷◌ heads (
      IsSorted-eq_of_perm l r (λ x y m n. inj x y (mem-cons_of_mem _ m) (mem-cons_of_mem _ n))
        (Pairwise.of_cons sl) (Pairwise.of_cons sr)
        (Perm.cons_inv (Perm.trans p (Perm.symm (Perm.cons' heads Perm.rfl)))))
    where
      heads : a ≡ b
      heads = inj a b mem-cons_self ((Perm.mem_iff (Perm.symm p)).0 mem-cons_self) (
          o.connex (key a) (key b) (sym (agrees a b) ∙ heads_le sr p)
            (sym (agrees b a) ∙ heads_le sl (Perm.symm p)))

  -- Where the key determines the value, the result does not depend on the order of the input.
  pub sort-perm_eq : (l r : List A) → KeyInj l → Perm l r → sort less l ≡ sort less r
  sort-perm_eq l r inj p =
      IsSorted-eq_of_perm (sort less l) (sort less r)
        (λ a b m n.
          inj a b ((Perm.mem_iff (sort-perm less l)).0 m) ((Perm.mem_iff (sort-perm less l)).0 n))
        (sort-IsSorted l) (sort-IsSorted r)
        (Perm.trans (sort-perm less l) (Perm.trans p (Perm.symm (sort-perm less r))))

module _ {ℓ} {A : Type ℓ} where
  length_permᴰ : {l r : List A} → Permᴰ l r → length l ≡ length r
  length_permᴰ Permᴰ.nil = refl
  length_permᴰ (Permᴰ.cons e d) = ap suc (length_permᴰ d)
  length_permᴰ (Permᴰ.swap e₁ e₂) = refl
  length_permᴰ (Permᴰ.trans d₁ d₂) = length_permᴰ d₁ ∙ length_permᴰ d₂

  pub length-perm : {l r : List A} → Perm l r → length l ≡ length r
  length-perm p = ∥∥₁_elim p (ℕ_set _ _) length_permᴰ
