-- ===== src/Prelude/Sort.antt =====
-- Python's `sorted`: stable, by an order given as a Boolean test.
use mathlib.Core.Path.{◌≡◌, refl, ap, ◌∙◌}
use mathlib.Core.Logic.{inl, inr}
use mathlib.Core.Bool.{Bool, true, false, ◌||◌}
use mathlib.Core.List.{List, [], ◌∷◌, map, Permᴰ}
use mathlib.Core.List.Permᴰ
use native.Mathlib.Omega.{arith}
use Prim.Native.Nat.{ℕ, suc, ◌+◌}
use based_ai.Prelude.Tests.{if◌then◌else◌, Bool-cases}
use based_ai.Prelude.Eq.{Eq, ◌==◌}
use based_ai.Prelude.Lists.{contains, length, All, sum}

pub record TotalOrder {ℓ} {A : Type ℓ} (le : A → A → Bool) : Type ℓ where
  pub total : (a b : A) → le a b ≡ false → le b a ≡ true
  pub trans : (a b c : A) → le a b ≡ true → le b c ≡ true → le a c ≡ true

-- Two values that are each below the other are one.
abbrev pub IsAntisymm {ℓ} : {A : Type ℓ} → (A → A → Bool) → Type ℓ
IsAntisymm le = (a b : _) → le a b ≡ true → le b a ≡ true → a ≡ b

module _ {ℓ} {A : Type ℓ} (le : A → A → Bool) where
  -- `x` goes before the first element that it does not exceed
  unfoldable pub insert : A → List A → List A
  insert x [] = x ∷ []
  insert x (y ∷ ys) = if le x y then x ∷ y ∷ ys else y ∷ insert x ys

  unfoldable pub sorted : List A → List A
  unfolding insert
  sorted [] = []
  sorted (x ∷ xs) = insert x (sorted xs)

  -- each element is below all that follow it
  abbrev pub IsBelow : A → List A → Type ℓ
  IsBelow x [] = Unit
  IsBelow x (y ∷ ys) = (le x y ≡ true) × IsBelow x ys

  abbrev pub IsSorted : List A → Type ℓ
  IsSorted [] = Unit
  IsSorted (x ∷ xs) = IsBelow x xs × IsSorted xs

  pub length-insert : (x : A) (l : List A) → length (insert x l) ≡ suc (length l)
  unfolding insert
  length-insert x [] = refl
  length-insert x (y ∷ ys) = ground (arith, length-insert x ys)

  pub length-sorted : (l : List A) → length (sorted l) ≡ length l
  unfolding sorted
  length-sorted [] = refl
  length-sorted (x ∷ xs) = length-insert x (sorted xs) ∙ ap suc (length-sorted xs)

  pub insert-perm : (x : A) (l : List A) → Permᴰ (insert x l) (x ∷ l)
  unfolding insert
  insert-perm x [] = Permᴰ.refl (x ∷ [])
  insert-perm x (y ∷ ys) = elim (Bool-cases (le x y)) [
    | inl e ↦ rw (e, insert) (Permᴰ.refl (x ∷ y ∷ ys))
    | inr e ↦
        rw (e, insert) (Permᴰ.trans (Permᴰ.cons refl (insert-perm x ys)) (Permᴰ.swap refl refl))
  ]

  pub sorted-perm : (l : List A) → Permᴰ (sorted l) l
  unfolding sorted
  sorted-perm [] = Permᴰ.nil
  sorted-perm (x ∷ xs) = Permᴰ.trans (insert-perm x (sorted xs)) (Permᴰ.cons refl (sorted-perm xs))

module _ {ℓ κ} {A : Type ℓ} (le : A → A → Bool) (P : A → Type κ) where
  All-insert : (x : A) (l : List A) → P x → All P l → All P (insert le x l)
  unfolding insert
  All-insert x [] p h = (p, tt)
  All-insert x (y ∷ l) p (q, h) = elim (Bool-cases (le x y)) [
    | inl e ↦ rw (e, insert) (p, (q, h))
    | inr e ↦ rw (e, insert) (q, All-insert x l p h)
  ]

  -- What holds of all elements holds of the sorted ones.
  pub All-sorted : (l : List A) → All P l → All P (sorted le l)
  unfolding sorted
  All-sorted [] h = tt
  All-sorted (x ∷ l) (p, h) = All-insert x (sorted le l) p (All-sorted l h)

module _ {ℓ} {A : Type ℓ} (le : A → A → Bool) (weight : A → ℕ) where
  sum-insert :
      (x : A) (l : List A) → sum (map weight (insert le x l)) ≡ weight x + sum (map weight l)
  unfolding insert
  sum-insert x [] = refl
  sum-insert x (y ∷ l) = ground (arith, sum-insert x l)

  -- Sorting keeps the sum of any weights.
  pub sum-sorted : (l : List A) → sum (map weight (sorted le l)) ≡ sum (map weight l)
  unfolding sorted
  sum-sorted [] = refl
  sum-sorted (x ∷ l) = omega (arith, sum-insert x (sorted le l), sum-sorted l)

module _ {ℓ} {A : Type ℓ} (le : A → A → Bool) (order : TotalOrder le) where
  IsBelow-trans : (x y : A) (l : List A) → le x y ≡ true → IsBelow le y l → IsBelow le x l
  IsBelow-trans x y [] p h = tt
  IsBelow-trans x y (z ∷ l) p (q, h) = (order.trans x y z p q, IsBelow-trans x y l p h)

  IsBelow-insert :
      (x y : A) (l : List A) → le x y ≡ true → IsBelow le x l → IsBelow le x (insert le y l)
  unfolding insert
  IsBelow-insert x y [] p h = (p, tt)
  IsBelow-insert x y (z ∷ l) p (q, h) = elim (Bool-cases (le y z)) [
    | inl e ↦ rw (e, insert) (p, (q, h))
    | inr e ↦ rw (e, insert) (q, IsBelow-insert x y l p h)
  ]

  insert-IsSorted : (x : A) (l : List A) → IsSorted le l → IsSorted le (insert le x l)
  unfolding insert
  insert-IsSorted x [] h = (tt, tt)
  insert-IsSorted x (y ∷ l) (b, h) = elim (Bool-cases (le x y)) [
    | inl e ↦ rw (e, insert) ((e, IsBelow-trans x y l e b), (b, h))
    | inr e ↦ rw (e, insert) (IsBelow-insert y x l (order.total x y e) b, insert-IsSorted x l h)
  ]

  pub sorted-IsSorted : (l : List A) → IsSorted le (sorted le l)
  unfolding sorted
  sorted-IsSorted [] = tt
  sorted-IsSorted (x ∷ xs) = insert-IsSorted x (sorted le xs) (sorted-IsSorted xs)

module _ {ℓ} {A : Type ℓ} (le : A → A → Bool) (order : TotalOrder le)
    (antisymm : IsAntisymm le) where
  insert_comm : (a b : A) (l : List A) → insert le a (insert le b l) ≡ insert le b (insert le a l)
  unfolding insert
  insert_comm a b [] = ground (arith, order.total a b, antisymm a b)
  insert_comm a b (x ∷ l) = ground (
    arith,
    insert_comm a b l,
    order.total a b,
    antisymm a b,
    order.trans a b x,
    order.trans b a x,
  )

  -- The result does not depend on the order of the input.
  pub sorted-eq_of_perm : {l r : List A} → Permᴰ l r → sorted le l ≡ sorted le r
  unfolding sorted
  sorted-eq_of_perm Permᴰ.nil = refl
  sorted-eq_of_perm (Permᴰ.cons {a = a} {b = b} e p) = cc (sorted-eq_of_perm p)
  sorted-eq_of_perm (Permᴰ.swap {a = a} {b = b} {l = l} e f) =
      rw (← e, ← f) (insert_comm a b (sorted le l))
  sorted-eq_of_perm (Permᴰ.trans p q) = sorted-eq_of_perm p ∙ sorted-eq_of_perm q

module _ {ℓ} {A : Type ℓ} ⦃eq : Eq A⦄ (le : A → A → Bool) where
  contains-insert : (a x : A) (l : List A) → contains a (insert le x l) ≡ (x == a || contains a l)
  unfolding insert
  contains-insert a x [] = refl
  contains-insert a x (y ∷ l) = ground (arith, contains-insert a x l)

  pub contains-sorted : (a : A) (l : List A) → contains a (sorted le l) ≡ contains a l
  unfolding sorted
  contains-sorted a [] = refl
  contains-sorted a (x ∷ l) = ground (arith, contains-insert a x (sorted le l), contains-sorted a l)
