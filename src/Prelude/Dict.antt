-- ===== src/Prelude/Dict.antt =====
-- Python's `dict`: an assignment to a key that is there replaces its value in place, any other one
-- adds an entry at the end, and iteration follows that order.
use mathlib.Core.Path.{◌≡◌, refl}
use mathlib.Core.Logic.{◌⊎◌, inl, inr}
use mathlib.Core.List.{List, [], ◌∷◌, map}
use mathlib.Core.Option.{Option, none, some}
use native.Mathlib.Omega.{arith}
use based_ai.Prelude.Eq.{Eq, ◌==◌, beq_refl}
use based_ai.Prelude.Tests.{if◌then◌else◌, Bool-cases}
use based_ai.Prelude.Lists.{All}

abbrev pub Dict {ℓ κ} : Type ℓ → Type κ → Type (ℓ ⊔ κ)
Dict K V = List (K × V)

module _ {ℓ κ} {K : Type ℓ} {V : Type κ} where
  abbrev pub keys : Dict K V → List K
  keys = map (λ e. e.0)

  abbrev pub values : Dict K V → List V
  values = map (λ e. e.1)

module _ {ℓ κ} {K : Type ℓ} {V : Type κ} ⦃eq : Eq K⦄ where
  -- `d.get(k)`
  unfoldable pub lookup : K → Dict K V → Option V
  lookup k [] = none
  lookup k ((j, v) ∷ d) = if j == k then some v else lookup k d

  -- `d[k] = v`
  unfoldable pub put : K → V → Dict K V → Dict K V
  put k v [] = (k, v) ∷ []
  put k v ((j, u) ∷ d) = if j == k then (j, v) ∷ d else (j, u) ∷ put k v d

  -- `d.pop(k, None)`
  unfoldable pub remove : K → Dict K V → Dict K V
  remove k [] = []
  remove k ((j, u) ∷ d) = let rest = remove k d in if j == k then rest else (j, u) ∷ rest

  pub lookup-put :
      (k j : K) (v : V) (d : Dict K V)
      → lookup j (put k v d) ≡ (if k == j then some v else lookup j d)
  unfolding lookup put
  lookup-put k j v [] = refl
  lookup-put k j v ((i, u) ∷ d) =
      ground (arith, eq.beq_iff i k, eq.beq_iff i j, eq.beq_iff k j, lookup-put k j v d)

  pub lookup-remove :
      (k j : K) (d : Dict K V) → lookup j (remove k d) ≡ (if k == j then none else lookup j d)
  unfolding lookup remove
  lookup-remove k j [] = ground arith
  lookup-remove k j ((i, u) ∷ d) =
      ground (arith, eq.beq_iff i k, eq.beq_iff i j, eq.beq_iff k j, lookup-remove k j d)

  pub lookup-put_self : (k : K) (v : V) (d : Dict K V) → lookup k (put k v d) ≡ some v
  lookup-put_self k v d = rw (lookup-put k k v d) (rw (beq_refl k))

  -- What is read after an assignment was assigned, or was there before.
  pub lookup-put_cases :
      (k j : K) (v : V) (d : Dict K V) {u : V}
      → lookup j (put k v d) ≡ some u
      → ((k ≡ j) × (v ≡ u)) ⊎ (lookup j d ≡ some u)
  lookup-put_cases k j v d h = ground (arith, lookup-put k j v d, eq.beq_iff k j)

  -- An assignment under a key that has the property keeps it for all keys.
  pub All-put {μ} :
      (P : K → Type μ) (k : K) (v : V) (d : Dict K V)
      → P k
      → All (λ e. P e.0) d
      → All (λ e. P e.0) (put k v d)
  unfolding put
  All-put P k v [] p h = (p, tt)
  All-put P k v ((j, u) ∷ d) p (q, h) = elim (Bool-cases (j == k)) [
    | inl e ↦ rw e (q, h)
    | inr e ↦ rw e (q, All-put P k v d p h)
  ]

  pub ruleset dict_laws = (lookup-put, lookup-remove)
