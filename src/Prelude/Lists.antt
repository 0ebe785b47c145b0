-- ===== src/Prelude/Lists.antt =====
-- Lists measured and indexed by native numbers, under the library's names.
use Prim.Native.Nat.{ℕ, zero, suc, ◌+◌}
use mathlib.Core.Path.{◌≡◌, refl, ap, subst}
use mathlib.Core.Logic.{inl, inr}
use mathlib.Core.List.{List, [], ◌∷◌, ◌++◌}
use mathlib.Core.Option.{Option, none, some}
use mathlib.Core.Bool.{Bool, true, false, ◌||◌, false≢true}
use native.Mathlib.Omega.{arith}
use based_ai.Prelude.Eq.{Eq, ◌==◌}
use based_ai.Prelude.Tests.{Bool-cases, if◌then◌else◌}

module _ {ℓ} {A : Type ℓ} where
  abbrev pub length : List A → ℕ
  length [] = 0
  length (x ∷ xs) = suc (length xs)

  abbrev pub get_elem? : List A → ℕ → Option A
  get_elem? [] i = none
  get_elem? (x ∷ xs) zero = some x
  get_elem? (x ∷ xs) (suc i) = get_elem? xs i

  -- `l[n:]`
  abbrev pub drop : ℕ → List A → List A
  drop zero xs = xs
  drop (suc n) [] = []
  drop (suc n) (x ∷ xs) = drop n xs

  pub length-append : (xs ys : List A) → length (xs ++ ys) ≡ length xs + length ys
  length-append [] ys = omega arith
  length-append (x ∷ xs) ys = omega (arith, length-append xs ys)

  -- `[x for x in l if p(x)]`
  abbrev pub select : (A → Bool) → List A → List A
  select p [] = []
  select p (x ∷ xs) = if p x then x ∷ select p xs else select p xs

  abbrev pub any : (A → Bool) → List A → Bool
  any p [] = false
  any p (x ∷ xs) = p x || any p xs

  abbrev pub All {κ} : (A → Type κ) → List A → Type κ
  All P [] = Unit
  All P (x ∷ xs) = P x × All P xs

  pub select-append :
      (p : A → Bool) (xs ys : List A) → select p (xs ++ ys) ≡ select p xs ++ select p ys
  select-append p [] ys = refl
  select-append p (x ∷ xs) ys = elim (Bool-cases (p x)) [
    | inl e ↦ rw e (ap (◌∷◌ x) (select-append p xs ys))
    | inr e ↦ rw e (select-append p xs ys)
  ]

  -- What passes is kept, and what does not is dropped.
  pub select-all : (p : A → Bool) (xs : List A) → All (λ x. p x ≡ true) xs → select p xs ≡ xs
  select-all p [] h = refl
  select-all p (x ∷ xs) (e, h) = rw e (ap (◌∷◌ x) (select-all p xs h))

  pub select-none : (p : A → Bool) (xs : List A) → All (λ x. p x ≡ false) xs → select p xs ≡ []
  select-none p [] h = refl
  select-none p (x ∷ xs) (e, h) = rw e (select-none p xs h)

  module _ {κ} (P : A → Type κ) where
    pub All-append : (l r : List A) → All P l → All P r → All P (l ++ r)
    All-append [] r h g = g
    All-append (x ∷ l) r (p, h) g = (p, All-append l r h g)

    pub All-select : (f : A → Bool) (l : List A) → All P l → All P (select f l)
    All-select f [] h = tt
    All-select f (x ∷ l) (p, h) = elim (Bool-cases (f x)) [
      | inl e ↦ rw e (p, All-select f l h)
      | inr e ↦ rw e (All-select f l h)
    ]

  -- A weaker property of all elements.
  pub All-map {κ μ} :
      (P : A → Type κ) (Q : A → Type μ) (l : List A) → ((a : A) → P a → Q a) → All P l → All Q l
  All-map P Q [] f h = tt
  All-map P Q (x ∷ l) f (p, h) = (f x p, All-map P Q l f h)

module _ {ℓ} {A : Type ℓ} ⦃e : Eq A⦄ where
  -- `x in l`
  abbrev pub contains : A → List A → Bool
  contains a [] = false
  contains a (x ∷ xs) = x == a || contains a xs

  -- What holds of all elements holds of each.
  pub All-contains {κ} : (P : A → Type κ) (l : List A) (a : A) → All P l → contains a l ≡ true → P a
  All-contains P [] a h m = absurd (false≢true m)
  All-contains P (x ∷ xs) a (p, h) m = elim (Bool-cases (x == a)) [
    | inl here ↦ subst P ((e.beq_iff x a).0 here) p
    | inr later ↦ All-contains P xs a h (rw later at m)
  ]

abbrev pub sum : List ℕ → ℕ
sum [] = 0
sum (x ∷ xs) = x + sum xs
