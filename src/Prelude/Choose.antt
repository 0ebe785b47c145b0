-- ===== src/Prelude/Choose.antt =====
-- Python's `max(xs, key=...)` on texts: the first of the greatest.
use mathlib.Core.Option.{some-injective, Option, none, some}
use mathlib.Core.Path.{◌≡◌, refl, subst}
use mathlib.Core.Bool.{true}
use mathlib.Core.List.{List, [], ◌∷◌}
use native.Mathlib.Omega.{arith}
use Prim.Native.Nat.{ℕ, ◌≤◌}
use based_ai.Prelude.Tests.{leb, if◌then◌else◌}
use based_ai.Prelude.Eq.{nat_eq, list_eq, beq_refl}
use based_ai.Prelude.Lists.{All, contains}
use based_ai.Prelude.Text.{Str}

-- The first of the greatest.
unfoldable pub max_by : (Str → ℕ) → Str → List Str → Str
max_by key best [] = best
max_by key best (r ∷ roots) = max_by key (if leb (key r) (key best) then best else r) roots

-- `None` where there are no roots
unfoldable pub choose : (Str → ℕ) → List Str → Option Str
unfolding max_by
choose key [] = none
choose key (r ∷ roots) = some (max_by key r roots)

module _ (key : Str → ℕ) where
  abbrev pub AtMost : Str → List Str → Type 0
  AtMost best = All (λ r. key r ≤ key best)

  AtMost-mono : (a b : Str) (l : List Str) → key a ≤ key b → AtMost a l → AtMost b l
  AtMost-mono a b [] h p = tt
  AtMost-mono a b (r ∷ l) h (q, p) = (omega arith, AtMost-mono a b l h p)

  abbrev pick : Str → Str → Str
  pick best r = if leb (key r) (key best) then best else r

  max_by-ge : (best : Str) (l : List Str) → key best ≤ key (max_by key best l)
  unfolding max_by
  max_by-ge best [] = omega arith
  max_by-ge best (r ∷ l) = ground (arith, max_by-ge (pick best r) l)

  -- No element exceeds the chosen one.
  pub max_by-AtMost : (best : Str) (l : List Str) → AtMost (max_by key best l) (best ∷ l)
  unfolding max_by
  max_by-AtMost best [] = (omega arith, tt)
  max_by-AtMost best (r ∷ l) =
      let (least, rest) = max_by-AtMost (pick best r) l in (ground arith, (ground arith, rest))

  -- The chosen one is an element.
  pub max_by-contains : (best : Str) (l : List Str) → contains (max_by key best l) (best ∷ l) ≡ true
  unfolding max_by
  max_by-contains best [] = ground (arith, beq_refl best)
  max_by-contains best (r ∷ l) = ground (arith, max_by-contains best l, max_by-contains r l)

  pub choose-AtMost :
      (l : List Str) {r : Str} → choose key l ≡ some r → (contains r l ≡ true) × AtMost r l
  unfolding choose
  choose-AtMost [] h = cc
  choose-AtMost (x ∷ l) h =
      subst (λ r. (contains r (x ∷ l) ≡ true) × AtMost r (x ∷ l)) (some-injective _ _ h)
        (max_by-contains x l, max_by-AtMost x l)

  pub choose-none : (l : List Str) → choose key l ≡ none → l ≡ []
  unfolding choose
  choose-none [] h = refl
  choose-none (x ∷ l) h = cc
