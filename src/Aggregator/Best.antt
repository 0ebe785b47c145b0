-- ===== src/Aggregator/Best.antt =====
-- `best_root`: the choice among the roots that have signatures.
use mathlib.Core.Path.{ap}
use based_ai.Prelude.{
  ℕ, ◌≤◌, ◌≡◌, refl, Bool, true, false, Option, some, none, [], ◌∷◌, arith, All-contains, contains,
}
use based_ai.Prelude.Eq.{nat_eq, int_eq, list_eq, pair_eq, list_beq_iff}
use based_ai.Prelude.Int.{ℤ, int_beq_iff}
use based_ai.Prelude.Text.{Str}
use based_ai.Prelude.Dict.{Dict, lookup}
use based_ai.Commitment.{hex}
use based_ai.Quorum.{Stakes}
use based_ai.Prelude.Choose.{choose-AtMost, choose-none}
use based_ai.Aggregator.{Aggregator, Key, Signers, roots_of, best_root, backing_stake}

abbrev is_some {ℓ} : {A : Type ℓ} → Option A → Bool
is_some none = false
is_some (some a) = true

-- A root is a candidate exactly when it has an entry for the epoch and the Brain.
pub contains-roots_of :
    (epoch brain_id : ℤ) (r : Str) (pending : Dict Key Signers)
    → contains r (roots_of epoch brain_id pending) ≡ is_some (lookup (epoch, (brain_id, r)) pending)
unfolding roots_of lookup
contains-roots_of epoch brain_id r [] = refl
contains-roots_of epoch brain_id r (((e, (b, r')), s) ∷ pending) = ground (
  arith,
  contains-roots_of epoch brain_id r pending,
  int_beq_iff e epoch,
  int_beq_iff b brain_id,
  list_beq_iff r' r,
)

module _ (st : Stakes) (epoch brain_id : ℤ) (agg : Aggregator) where
  abbrev pub HasEntry : Str → Type 0
  HasEntry r = is_some (lookup (epoch, (brain_id, r)) agg.pending) ≡ true

  abbrev pub backing : Str → ℕ
  backing r = backing_stake st epoch brain_id (hex r) agg

  -- The chosen root has an entry for this epoch and Brain, and no root that has one has more
  -- stake behind it.
  pub best_root-max :
      {r : Str}
      → best_root st epoch brain_id agg ≡ some r
      → HasEntry r × ((other : Str) → HasEntry other → backing other ≤ backing r)
  unfolding best_root
  best_root-max {r} h =
      let (member, most) = choose-AtMost backing (roots_of epoch brain_id agg.pending) h in
      (
        rw contains-roots_of at member,
        λ other held.
            All-contains (λ o. backing o ≤ backing r) (roots_of epoch brain_id agg.pending) other
              most (rw contains-roots_of held),
      )

  -- The chosen root has an entry for this epoch and Brain, and no root that has one has more stake
  -- behind it.
  pub best_root-most :
      {r : Str} (other : Str)
      → best_root st epoch brain_id agg ≡ some r
      → HasEntry other
      → HasEntry r × (backing other ≤ backing r)
  best_root-most other h held = let (entry, most) = best_root-max h in (entry, most other held)

  -- There is no choice only when no root has an entry.
  pub best_root-none : best_root st epoch brain_id agg ≡ none → (r : Str) → ¬ HasEntry r
  unfolding best_root
  best_root-none h r held =
      let empty = choose-none backing (roots_of epoch brain_id agg.pending) h in
      let listed : contains r (roots_of epoch brain_id agg.pending) ≡ true =
        rw contains-roots_of held in
      cc (ap (λ l. contains r l) empty)
