-- ===== src/Candidates.antt =====
-- `CanonicalCandidatePool` of validator/src/basedai_validator/aggregator.py: one score root for an
-- epoch and a Brain, from the score maps of validators that hold a quorum of its stake. A call
-- returns what the source returned or raised beside the state that it left.
pub mod Median
pub mod Freeze
pub mod Rows
use based_ai.Prelude.{
  ℕ, ◌+◌, ◌*◌, ◌≤◌, Bool, true, false, ◌&&◌, ◌||◌, Option, none, some, List, [], ◌∷◌, ◌++◌, map,
  ltb, leb, nat_beq, if◌then◌else◌, contains, sum,
}
use based_ai.Prelude.Eq.{◌==◌, nat_eq, int_eq, list_eq, pair_eq}
use based_ai.Prelude.Int.{ℤ, pos, negsuc}
use based_ai.Prelude.Result.{Result, ok, raise, value_error, ◌>>=◌}
use based_ai.Prelude.Text.{Str}
use based_ai.Prelude.Sort.{sorted}
use based_ai.Prelude.Json.{Json, get_item, to_int}
use based_ai.Prelude.Dict.{Dict, lookup, put, keys}
use based_ai.Web3.{Web3}
use based_ai.Merkle.{ScoreLeaf, bytes_le, build_merkle_root}
use based_ai.Commitment.{hex_root}
use based_ai.Quorum.{Stakes, needed, stake_sum}

-- The scores of one candidate, by miner.
abbrev pub Scores : Type 0
Scores = Dict Str ℕ

-- The candidates for one key, by signer.
abbrev pub Contributors : Type 0
Contributors = Dict Str Scores

-- `{"miner": ..., "score": ...}`
pub record Row : Type 0 where
  pub miner : Str
  pub score : ℕ

-- The root in hexadecimal, and its rows.
abbrev pub Frozen : Type 0
Frozen = Str × List Row

pub record Pool : Type 0 where
  pub min_quorum_bps : ℕ
  pub candidates : Dict (ℤ × ℤ) Contributors
  pub frozen : Dict (ℤ × ℤ) Frozen

-- `if score < 0 or score > 1_000_000: raise ValueError`
unfoldable pub score_in_range : ℤ → Result ℕ
score_in_range (pos n) = if leb n 1000000 then ok n else raise value_error
score_in_range (negsuc n) = raise value_error

-- The loop that fills `normalized`.
unfoldable pub normalize : Web3 → Scores → List Json → Result Scores
normalize w normalized [] = ok normalized
normalize w normalized (row ∷ rows) = do
  miner ← (do value ← get_item row "miner"; w.to_checksum_address value)
  score ← (do value ← get_item row "score"; to_int value)
  checked ← score_in_range score
  normalize w (put miner checked normalized) rows

-- `if not normalized: raise ValueError`
unfoldable pub non_empty : Scores → Result Scores
non_empty [] = raise value_error
non_empty (s ∷ scores) = ok (s ∷ scores)

-- `sorted({m for candidate in contributors.values() for m in candidate})`, in the order of texts
unfoldable pub distinct : List Str → List Str
distinct [] = []
distinct (x ∷ xs) = let rest = distinct xs in if contains x rest then rest else x ∷ rest

unfoldable pub all_miners : Contributors → List Str
all_miners [] = []
all_miners ((signer, candidate) ∷ contributors) = keys candidate ++ all_miners contributors

unfoldable pub miners_of : Contributors → List Str
unfolding distinct all_miners bytes_le
miners_of contributors = sorted bytes_le (distinct (all_miners contributors))

-- The order of the pairs (score, stake).
unfoldable pub weighted_le : ℕ × ℕ → ℕ × ℕ → Bool
weighted_le a b = ltb a.0 b.0 || nat_beq a.0 b.0 && leb a.1 b.1

-- One item of the generator in `weighted`: left out without a score or without stake.
abbrev pub cons_weighted : Option ℕ → ℕ → List (ℕ × ℕ) → List (ℕ × ℕ)
cons_weighted none stake rest = rest
cons_weighted (some score) stake rest = if ltb 0 stake then (score, stake) ∷ rest else rest

-- The loop over `weighted`; `median` holds the value from before it.
unfoldable pub median_loop : ℕ → ℕ → ℕ → List (ℕ × ℕ) → ℕ
median_loop weight acc median [] = median
median_loop weight acc median ((score, w) ∷ rest) =
    let next = median_loop weight (acc + w) median rest in
    if leb weight ((acc + w) * 2) then score else next

abbrev pub last_score : ℕ → List (ℕ × ℕ) → ℕ
last_score d [] = d
last_score d ((score, w) ∷ rest) = last_score score rest

abbrev pub total_weight : List (ℕ × ℕ) → ℕ
total_weight weighted = sum (map (λ p. p.1) weighted)

unfoldable pub weighted_median : List (ℕ × ℕ) → ℕ
unfolding median_loop
weighted_median weighted = median_loop (total_weight weighted) 0 (last_score 0 weighted) weighted

module _ (st : Stakes) (brain_id : ℤ) where
  unfoldable pub weights_of : Str → Contributors → List (ℕ × ℕ)
  weights_of miner [] = []
  weights_of miner ((signer, candidate) ∷ contributors) =
      cons_weighted (lookup miner candidate) (st.stake_of brain_id signer)
        (weights_of miner contributors)

  unfoldable pub weighted_of : Str → Contributors → List (ℕ × ℕ)
  unfolding weights_of weighted_le
  weighted_of miner contributors = sorted weighted_le (weights_of miner contributors)

  -- The body of the loop over `miners`: the row, unless a minority covers the miner.
  abbrev pub row_of : ℕ → Contributors → Str → List (ℕ × ℕ) → List Row → List Row
  row_of need contributors miner [] rest = rest
  row_of need contributors miner (p ∷ weighted) rest =
      if ltb (total_weight (p ∷ weighted)) need
      then rest
      else (record { miner = miner; score = weighted_median (p ∷ weighted) }) ∷ rest

  unfoldable pub rows_of : ℕ → Contributors → List Str → List Row
  rows_of need contributors [] = []
  rows_of need contributors (miner ∷ miners) =
      row_of need contributors miner (weighted_of miner contributors)
        (rows_of need contributors miners)

  -- `need`, which is 1 where the Brain has no stake
  abbrev pub need_of : ℕ → ℕ
  need_of bps =
      let total = st.total_stake brain_id in if nat_beq total 0 then 1 else needed total bps

abbrev pub leaf_of : ℤ → Row → ScoreLeaf
leaf_of brain_id row = record { brain_id = brain_id; miner = row.miner; score = pos row.score }

-- `if not rows: raise ValueError`, then the root of the rows
unfoldable pub freeze_rows : Web3 → ℤ → List Row → Result Frozen
freeze_rows w brain_id [] = raise value_error
freeze_rows w brain_id (row ∷ rows) = do
  (root, _) ← build_merkle_root w (map (leaf_of brain_id) (row ∷ rows))
  ok (hex_root root, row ∷ rows)

abbrev pub contributors_at : ℤ × ℤ → Pool → Contributors
contributors_at key pool = or_none (lookup key pool.candidates)
  where
    or_none : Option Contributors → Contributors
    or_none none = []
    or_none (some c) = c

abbrev pub record_frozen : ℤ × ℤ → Result Frozen → Pool → Result (Option Frozen) × Pool
record_frozen key (raise e) pool = (raise e, pool)
record_frozen key (ok f) pool = (ok (some f), record pool { frozen = put key f pool.frozen })

-- From `contributors = self._candidates[key]` to the end of `add`.
unfoldable pub conclude :
    Web3 → Stakes → ℤ × ℤ → Contributors → Pool → Result (Option Frozen) × Pool
unfolding miners_of rows_of
conclude w st key contributors pool =
    let need = need_of st key.1 pool.min_quorum_bps in
    if ltb (stake_sum st key.1 (keys contributors)) need
    then (ok none, pool)
    else record_frozen key
        (freeze_rows w key.1 (rows_of st key.1 need contributors (miners_of contributors))) pool

-- The assignment of the candidate; the `defaultdict` has its entry before the checksum may raise.
unfoldable pub enter : Web3 → Stakes → ℤ × ℤ → Str → Scores → Pool → Result (Option Frozen) × Pool
enter w st key signer normalized pool =
    let contributors = contributors_at key pool in
    elim (w.to_checksum_address (Json.str signer)) [
      | raise e ↦ (raise e, record pool { candidates = put key contributors pool.candidates })
      | ok address ↦
          let contributors' = put address normalized contributors in
          conclude w st key contributors'
            (record pool { candidates = put key contributors' pool.candidates })
    ]

unfoldable pub checked_scores : Web3 → List Json → Result Scores
unfolding normalize non_empty
checked_scores w scores = do normalized ← normalize w [] scores; non_empty normalized

unfoldable pub add : Web3 → Stakes → ℤ → ℤ → Str → List Json → Pool → Result (Option Frozen) × Pool
add w st epoch brain_id signer scores pool = elim (lookup (epoch, brain_id) pool.frozen) [
  | some f ↦ (ok (some f), pool)
  | none ↦
      if nat_beq (st.stake_of brain_id signer) 0
      then (raise value_error, pool)
      else elim (checked_scores w scores) [
        | raise e ↦ (raise e, pool)
        | ok normalized ↦ enter w st (epoch, brain_id) signer normalized pool
      ]
]

unfoldable pub get : ℤ → ℤ → Pool → Option Frozen
get epoch brain_id pool = lookup (epoch, brain_id) pool.frozen
