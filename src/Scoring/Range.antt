-- ===== src/Scoring/Range.antt =====
-- Every score fits what the aggregator accepts: `score_miners` of scoring.py with the range test of
-- `CanonicalCandidatePool.add` in aggregator.py.
use based_ai.Prelude.{ℕ, ◌≡◌, ◌⊎◌, refl, true, List, [], ◌∷◌, map, arith, inl, inr, All, Bool-cases}
use based_ai.Prelude.Eq.{nat_eq, list_eq}
use based_ai.Prelude.Int.{ℤ, pos, negsuc, ◌≤ℤ◌}
use based_ai.Prelude.Result.{ok}
use based_ai.Prelude.Text.{Str}
use based_ai.Prelude.Sort.{All-sorted}
use based_ai.Candidates.{score_in_range}
use based_ai.Scoring.{
  Floats, Observation, group_by, clamp, to_fixed, score_one, score_miners, higher_first,
  modal_response, composite, latency_score, quality_score, consistency_score,
}

-- What the score needs of floats: multiplication by a positive number and truncation keep the
-- order, and they are exact at 0 and 1. Nothing is said of NaN.
pub record IsMonotone {F : Type 0} (fl : Floats F) : Type 0 where
  pub zero_less_one : fl.less (fl.of_nat 0) (fl.of_nat 1) ≡ true
  pub at_zero : fl.truncate (fl.multiply (fl.of_nat 0) (fl.of_nat 1000000)) ≡ pos 0
  pub at_one : fl.truncate (fl.multiply (fl.of_nat 1) (fl.of_nat 1000000)) ≡ pos 1000000
  pub keeps :
      (x y : F)
      → fl.less x y ≡ true
      → fl.truncate (fl.multiply x (fl.of_nat 1000000))
        ≤ℤ fl.truncate (fl.multiply y (fl.of_nat 1000000))

-- The aggregator accepts the score, as it is.
abbrev pub IsAccepted : ℤ → Type 0
IsAccepted score = (n : ℕ) × (score ≡ pos n) × (score_in_range score ≡ ok n)

accept_between : (score : ℤ) → pos 0 ≤ℤ score → score ≤ℤ pos 1000000 → IsAccepted score
unfolding score_in_range
accept_between (pos n) lo hi = (n, refl, ground arith)
accept_between (negsuc n) lo hi = absurd (omega arith)

module _ {F : Type 0} (fl : Floats F) (monotone : IsMonotone fl) where
  clamp-cases :
      (x : F)
      → (clamp fl x ≡ fl.of_nat 0)
        ⊎ ((clamp fl x ≡ fl.of_nat 1)
            ⊎ ((clamp fl x ≡ x)
                × (fl.less (fl.of_nat 0) x ≡ true)
                × (fl.less x (fl.of_nat 1) ≡ true)))
  clamp-cases x = elim (Bool-cases (fl.less x (fl.of_nat 1))) [
    | inr above ↦ inr (inl (rw above (rw monotone.zero_less_one refl)))
    | inl below ↦ elim (Bool-cases (fl.less (fl.of_nat 0) x)) [
      | inr under ↦ inl (rw below (rw under refl))
      | inl over ↦ inr (inr (rw below (rw over refl), over, below))
    ]
  ]

  to_fixed-IsAccepted : (x : F) → IsAccepted (to_fixed fl x)
  unfolding to_fixed
  to_fixed-IsAccepted x = elim (clamp-cases x) [
    | inl zero_there ↦
        rw (zero_there, to_fixed)
          (rw monotone.at_zero (accept_between (pos 0) (omega arith) (omega arith)))
    | inr (inl one_there) ↦
        rw (one_there, to_fixed)
          (rw monotone.at_one (accept_between (pos 1000000) (omega arith) (omega arith)))
    | inr (inr (same, over, below)) ↦
        rw (same, to_fixed)
          (accept_between _ (rw monotone.at_zero at (monotone.keeps (fl.of_nat 0) x over))
            (rw monotone.at_one at (monotone.keeps x (fl.of_nat 1) below)))
  ]

  score_all-IsAccepted :
      (modal : Str → _) (p50 : F) (groups : List (Str × List Observation))
      → All (λ s. IsAccepted s.score_fp) (map (score_one fl modal p50) groups)
  unfolding score_one
  score_all-IsAccepted modal p50 [] = tt
  score_all-IsAccepted modal p50 ((miner, obs) ∷ groups) = (
    to_fixed-IsAccepted (
        composite fl (latency_score fl obs p50) (quality_score fl obs)
          (consistency_score fl modal obs)),
    score_all-IsAccepted modal p50 groups,
  )

  -- Whatever was observed, and whatever the floats before it come to, each score that
  -- `score_miners` gives is one that the aggregator's range test accepts, as it is.
  pub score_miners-IsAccepted :
      (obs : List Observation) → All (λ s. IsAccepted s.score_fp) (score_miners fl obs)
  unfolding score_miners
  score_miners-IsAccepted [] = tt
  score_miners-IsAccepted (o ∷ obs) =
      All-sorted (higher_first fl) (λ s. IsAccepted s.score_fp) _
        (score_all-IsAccepted (modal_response (o ∷ obs)) _
          (group_by (λ o. o.miner) (λ o. o) (o ∷ obs) []))
