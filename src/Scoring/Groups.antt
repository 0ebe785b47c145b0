-- ===== src/Scoring/Groups.antt =====
-- No observation is lost between the observations and the scores of scoring.py.
use based_ai.Prelude.{
  ℕ, ◌+◌, ◌≡◌, refl, Option, List, [], ◌∷◌, ◌++◌, map, arith, inl, inr, sum, length, length-append,
  All, Bool-cases,
}
use based_ai.Prelude.Eq.{◌==◌, nat_eq, list_eq}
use based_ai.Prelude.Text.{Str}
use based_ai.Prelude.Sort.{TotalOrder, IsSorted, sorted-IsSorted, sum-sorted, All-sorted}
use based_ai.Prelude.Dict.{Dict, lookup, put, All-put}
use based_ai.Scoring.{
  Floats, Observation, group_by, or_empty, score_one, score_miners, higher_first, modal_response,
}

-- How many observations the groups hold.
abbrev size : Dict Str (List Observation) → ℕ
size groups = sum (map (λ g. length g.1) groups)

-- An assignment that makes a group longer by one.
size-put :
    (k : Str) (v : List Observation) (groups : Dict Str (List Observation))
    → length v ≡ length (or_empty (lookup k groups)) + 1
    → size (put k v groups) ≡ size groups + 1
unfolding put lookup
size-put k v [] h = omega (arith, h)
size-put k v ((j, l) ∷ groups) h = elim (Bool-cases (j == k)) [
  | inl same ↦
      let longer : length v ≡ length l + 1 = rw same at h in rw same (omega (arith, longer))
  | inr other ↦ let rest = size-put k v groups (rw other at h) in rw other (omega (arith, rest))
]

size-group_by :
    (key : Observation → Str) (obs : List Observation) (groups : Dict Str (List Observation))
    → size (group_by key (λ o. o) obs groups) ≡ size groups + length obs
unfolding group_by
size-group_by key [] groups = omega arith
size-group_by key (o ∷ obs) groups = omega (
  arith,
  size-put (key o) (or_empty (lookup (key o) groups) ++ o ∷ []) groups
      (length-append (or_empty (lookup (key o) groups)) (o ∷ [])),
  size-group_by key obs (put (key o) (or_empty (lookup (key o) groups) ++ o ∷ []) groups),
)

module _ {F : Type 0} (fl : Floats F) where
  sum-score_one :
      (modal : Str → Option Str) (p50 : F) (groups : Dict Str (List Observation))
      → sum (map (λ s. s.samples) (map (score_one fl modal p50) groups)) ≡ size groups
  unfolding score_one
  sum-score_one modal p50 [] = refl
  sum-score_one modal p50 ((m, l) ∷ groups) = omega (arith, sum-score_one modal p50 groups)

  higher_first-TotalOrder : TotalOrder (higher_first fl)
  higher_first-TotalOrder = record {
    total = λ a b h. ground arith;
    trans = λ a b c h k. ground arith;
  }

  -- Every observation counts as a sample of exactly one score, and the scores do not increase along
  -- the list.
  pub score_miners-samples :
      (obs : List Observation)
      → (sum (map (λ s. s.samples) (score_miners fl obs)) ≡ length obs)
        × IsSorted (higher_first fl) (score_miners fl obs)
  unfolding score_miners
  score_miners-samples [] = (refl, tt)
  score_miners-samples (o ∷ obs) =
      let p50 = fl.median (map (λ o. o.latency_ms) (o ∷ obs)) in
      let groups = group_by (λ o. o.miner) (λ o. o) (o ∷ obs) [] in
      let scores = map (score_one fl (modal_response (o ∷ obs)) p50) groups in
      (
        omega (
          arith,
          sum-sorted (higher_first fl) (λ s. s.samples) scores,
          sum-score_one (modal_response (o ∷ obs)) p50 groups,
          size-group_by (λ o. o.miner) (o ∷ obs) [],
        ),
        sorted-IsSorted (higher_first fl) higher_first-TotalOrder scores,
      )

-- The miners that are scored are miners that were observed.
All-group_by :
    {V : Type 0} (P : Str → Type 0) (value : Observation → V) (obs : List Observation)
    (groups : Dict Str (List V))
    → All (λ o. P o.miner) obs
    → All (λ g. P g.0) groups
    → All (λ g. P g.0) (group_by (λ o. o.miner) value obs groups)
unfolding group_by
All-group_by P value [] groups h known = known
All-group_by P value (o ∷ obs) groups (p, h) known =
    All-group_by P value obs _ h (All-put P o.miner _ groups p known)

module _ {F : Type 0} (fl : Floats F) (P : Str → Type 0) where
  All-score_one :
      (modal : Str → Option Str) (p50 : F) (groups : Dict Str (List Observation))
      → All (λ g. P g.0) groups
      → All (λ s. P s.miner) (map (score_one fl modal p50) groups)
  unfolding score_one
  All-score_one modal p50 [] h = tt
  All-score_one modal p50 ((miner, obs) ∷ groups) (p, h) = (p, All-score_one modal p50 groups h)

  -- What holds of the miners that were observed holds of the miners that are scored.
  pub All-score_miners :
      (obs : List Observation)
      → All (λ o. P o.miner) obs
      → All (λ s. P s.miner) (score_miners fl obs)
  unfolding score_miners
  All-score_miners [] h = tt
  All-score_miners (o ∷ obs) h =
      All-sorted (higher_first fl) (λ s. P s.miner) _
        (All-score_one (modal_response (o ∷ obs)) _ _ (All-group_by P (λ o. o) (o ∷ obs) [] h tt))
