-- ===== src/Candidates/Median.antt =====
-- What the loop over the sorted pairs (score, stake) finds: the lower weighted median.
use mathlib.Core.Path.{subst}
use native.Mathlib.Decide.{dec_lt}
use based_ai.Prelude.{
  leb→le, ℕ, ◌+◌, ◌*◌, ◌≤◌, ◌<◌, ◌≡◌, refl, Bool, true, false, ◌&&◌, List, [], ◌∷◌, arith, ltb, leb,
  if◌then◌else◌, Bool-cases, inl, inr,
}
use based_ai.Prelude.Sort.{TotalOrder, sorted, insert, IsSorted, IsBelow, sorted-IsSorted}
use based_ai.Candidates.{weighted_le, median_loop, total_weight, last_score, weighted_median}

-- The stake behind the scores that pass a test.
abbrev pub weight_where : (ℕ → Bool) → List (ℕ × ℕ) → ℕ
weight_where p [] = 0
weight_where p ((score, w) ∷ rest) = (if p score then w else 0) + weight_where p rest

abbrev pub weight_le : ℕ → List (ℕ × ℕ) → ℕ
weight_le m = weight_where (λ score. leb score m)

abbrev pub weight_lt : ℕ → List (ℕ × ℕ) → ℕ
weight_lt m = weight_where (λ score. ltb score m)

abbrev AtLeast : ℕ → List (ℕ × ℕ) → Type 0
AtLeast b [] = Unit
AtLeast b ((score, w) ∷ rest) = (b ≤ score) × AtLeast b rest

weight_lt-least : (b : ℕ) (ws : List (ℕ × ℕ)) → AtLeast b ws → weight_lt b ws ≡ 0
weight_lt-least b [] h = refl
weight_lt-least b ((s, w) ∷ rest) (p, h) = ground (arith, weight_lt-least b rest h)

-- Where the pairs left hold all the weight that `acc` lacks, the loop ends by its `break`.
median_loop-ge :
    (weight acc d b : ℕ) (ws : List (ℕ × ℕ))
    → acc + total_weight ws ≡ weight
    → acc * 2 < weight
    → AtLeast b ws
    → b ≤ median_loop weight acc d ws
unfolding median_loop
median_loop-ge weight acc d b [] e h l = absurd (omega arith)
median_loop-ge weight acc d b ((s, w) ∷ rest) e h (p, l) =
    ground (arith, median_loop-ge weight (acc + w) d b rest)

abbrev Ascending : List (ℕ × ℕ) → Type 0
Ascending [] = Unit
Ascending ((s, w) ∷ rest) = AtLeast s rest × Ascending rest

-- At most half of the weight lies below `m`, and at least half of it at `m` or below.
abbrev Splits : ℕ → ℕ → ℕ → List (ℕ × ℕ) → Type 0
Splits weight acc m ws =
    (weight ≤ (acc + weight_le m ws) * 2) × ((acc + weight_lt m ws) * 2 < weight)

Splits-here :
    (weight acc s w : ℕ) (rest : List (ℕ × ℕ))
    → weight ≤ (acc + w) * 2
    → acc * 2 < weight
    → AtLeast s rest
    → Splits weight acc s ((s, w) ∷ rest)
Splits-here weight acc s w rest enough before l =
    (ground arith, ground (arith, weight_lt-least s rest l))

Splits-later :
    (weight acc m s w : ℕ) (rest : List (ℕ × ℕ))
    → s ≤ m
    → Splits weight (acc + w) m rest
    → Splits weight acc m ((s, w) ∷ rest)
Splits-later weight acc m s w rest least (above, below) = (ground arith, ground arith)

module _ (weight acc d s w : ℕ) (rest : List (ℕ × ℕ)) where
  median_loop-stop :
      leb weight ((acc + w) * 2) ≡ true → s ≡ median_loop weight acc d ((s, w) ∷ rest)
  unfolding median_loop
  median_loop-stop enough = rw enough

  median_loop-next :
      leb weight ((acc + w) * 2) ≡ false
      → median_loop weight (acc + w) d rest ≡ median_loop weight acc d ((s, w) ∷ rest)
  unfolding median_loop
  median_loop-next short = rw short

median_loop-Splits :
    (weight acc d : ℕ) (ws : List (ℕ × ℕ))
    → acc + total_weight ws ≡ weight
    → acc * 2 < weight
    → Ascending ws
    → Splits weight acc (median_loop weight acc d ws) ws
median_loop-Splits weight acc d [] e h a = absurd (omega arith)
median_loop-Splits weight acc d ((s, w) ∷ rest) e h (l, a) =
    elim (Bool-cases (leb weight ((acc + w) * 2))) [
      | inl enough ↦
          subst (λ m. Splits weight acc m ((s, w) ∷ rest))
            (median_loop-stop weight acc d s w rest enough)
            (Splits-here weight acc s w rest (leb→le _ _ enough) h l)
      | inr short ↦
          subst (λ m. Splits weight acc m ((s, w) ∷ rest))
            (median_loop-next weight acc d s w rest short)
            (Splits-later weight acc _ s w rest
              (median_loop-ge weight (acc + w) d s rest (omega arith) (ground arith) l)
              (median_loop-Splits weight (acc + w) d rest (omega arith) (ground arith) a))
    ]

weight_where-insert :
    (p : ℕ → Bool) (x : ℕ × ℕ) (l : List (ℕ × ℕ))
    → weight_where p (insert weighted_le x l) ≡ weight_where p (x ∷ l)
unfolding insert
weight_where-insert p x [] = refl
weight_where-insert p x (y ∷ l) = ground (arith, weight_where-insert p x l)

-- Sorting changes no such sum.
pub weight_where-sorted :
    (p : ℕ → Bool) (l : List (ℕ × ℕ)) → weight_where p (sorted weighted_le l) ≡ weight_where p l
unfolding sorted
weight_where-sorted p [] = refl
weight_where-sorted p (x ∷ l) =
    omega (arith, weight_where-insert p x (sorted weighted_le l), weight_where-sorted p l)

pub total_weight-where : (l : List (ℕ × ℕ)) → total_weight l ≡ weight_where (λ _. true) l
total_weight-where [] = refl
total_weight-where ((s, w) ∷ l) = omega (arith, total_weight-where l)

pub total_weight-sorted : (l : List (ℕ × ℕ)) → total_weight (sorted weighted_le l) ≡ total_weight l
total_weight-sorted l = omega (
  arith,
  total_weight-where (sorted weighted_le l),
  total_weight-where l,
  weight_where-sorted (λ _. true) l,
)

weighted_le-TotalOrder : TotalOrder weighted_le
unfolding weighted_le
weighted_le-TotalOrder = record { total = λ a b h. ground arith; trans = λ a b c h k. ground arith }

AtLeast-of_IsBelow : (a : ℕ × ℕ) (l : List (ℕ × ℕ)) → IsBelow weighted_le a l → AtLeast a.0 l
unfolding weighted_le
AtLeast-of_IsBelow a [] h = tt
AtLeast-of_IsBelow a (b ∷ l) (p, h) = (ground arith, AtLeast-of_IsBelow a l h)

Ascending-of_IsSorted : (l : List (ℕ × ℕ)) → IsSorted weighted_le l → Ascending l
Ascending-of_IsSorted [] h = tt
Ascending-of_IsSorted (a ∷ l) (p, h) = (AtLeast-of_IsBelow a l p, Ascending-of_IsSorted l h)

-- The median of the sorted pairs splits the stake behind all scores: at least half of it is
-- behind scores up to the median, and less than half behind scores below it.
pub weighted_median-splits :
    (ws : List (ℕ × ℕ))
    → 0 < total_weight ws
    → (total_weight ws ≤ weight_le (weighted_median (sorted weighted_le ws)) ws * 2)
      × (weight_lt (weighted_median (sorted weighted_le ws)) ws * 2 < total_weight ws)
unfolding weighted_median
weighted_median-splits ws positive =
    let l = sorted weighted_le ws in
    let m = median_loop (total_weight l) 0 (last_score 0 l) l in
    let same = total_weight-sorted ws in
    let (above, below) =
      median_loop-Splits (total_weight l) 0 (last_score 0 l) l (omega arith) (omega arith)
        (Ascending-of_IsSorted l (sorted-IsSorted weighted_le weighted_le-TotalOrder ws)) in
    (
      omega (arith, weight_where-sorted (λ s. leb s m) ws),
      omega (arith, weight_where-sorted (λ s. ltb s m) ws),
    )

-- The stake behind the scores in a range.
abbrev pub weight_in : ℕ → ℕ → List (ℕ × ℕ) → ℕ
weight_in lo hi = weight_where (λ score. leb lo score && leb score hi)

below_range :
    (lo hi m : ℕ) (l : List (ℕ × ℕ)) → m < lo → weight_in lo hi l + weight_le m l ≤ total_weight l
below_range lo hi m [] h = omega arith
below_range lo hi m ((s, w) ∷ l) h = ground (arith, below_range lo hi m l h)

above_range : (lo hi m : ℕ) (l : List (ℕ × ℕ)) → hi < m → weight_in lo hi l ≤ weight_lt m l
above_range lo hi m [] h = omega arith
above_range lo hi m ((s, w) ∷ l) h = ground (arith, above_range lo hi m l h)

within_total : (lo hi : ℕ) (l : List (ℕ × ℕ)) → weight_in lo hi l ≤ total_weight l
within_total lo hi [] = omega arith
within_total lo hi ((s, w) ∷ l) = ground (arith, within_total lo hi l)

-- Validators with more than half of the stake whose scores lie in a range keep the median in it,
-- whatever the others report.
pub weighted_median-robust :
    (ws : List (ℕ × ℕ)) (lo hi : ℕ)
    → total_weight ws < weight_in lo hi ws * 2
    → (lo ≤ weighted_median (sorted weighted_le ws))
      × (weighted_median (sorted weighted_le ws) ≤ hi)
weighted_median-robust ws lo hi majority =
    let m = weighted_median (sorted weighted_le ws) in
    let (above, below) = weighted_median-splits ws (ground (arith, within_total lo hi ws)) in
    (
      elim (dec_lt m lo) [
        | yes under ↦ absurd (omega (arith, below_range lo hi m ws under))
        | no over ↦ omega arith
      ],
      elim (dec_lt hi m) [
        | yes over ↦ absurd (omega (arith, above_range lo hi m ws over))
        | no under ↦ omega arith
      ],
    )
