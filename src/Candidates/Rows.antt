-- ===== src/Candidates/Rows.antt =====
-- What a canonical result says of the candidates that it was made from.
use mathlib.Core.Path.{ap}
use based_ai.Prelude.{
  ℕ, ◌*◌, ◌≤◌, ◌<◌, ◌≡◌, refl, Option, some, none, List, [], ◌∷◌, map, arith, All, ltb, Bool-cases,
  inl, inr, length,
}
use based_ai.Prelude.Eq.{int_eq, pair_eq, list_eq, nat_eq}
use based_ai.Prelude.Int.{ℤ}
use based_ai.Prelude.Result.{ok, >>=-eq-ok, Result-cases}
use based_ai.Prelude.Text.{Str, Bytes}
use based_ai.Prelude.Sort.{length-sorted}
use based_ai.Prelude.Json.{Json}
use based_ai.Prelude.Dict.{Dict, lookup, put, keys, lookup-put_self}
use based_ai.Web3.{Web3}
use based_ai.Merkle.{build_merkle_root}
use based_ai.Commitment.{hex_root}
use based_ai.Quorum.{Stakes, stake_sum}
use based_ai.Candidates.{
  Row, Frozen, Pool, Contributors, weighted_le, total_weight, cons_weighted, weights_of,
  weighted_of, row_of, rows_of, need_of, leaf_of, freeze_rows, contributors_at, conclude, enter,
  checked_scores, add, get, miners_of,
}
use based_ai.Candidates.Median.{weight_le, weight_lt, total_weight-sorted, weighted_median-splits}

module _ (st : Stakes) (brain_id : ℤ) (need : ℕ) (contributors : Contributors) where
  -- A row is backed by the needed stake, and its score splits that stake: at least half of it is
  -- behind scores up to the row's, and less than half behind lower scores.
  pub record IsCovered (row : Row) : Type 0 where
    pub covered : need ≤ total_weight (weights_of st brain_id row.miner contributors)
    pub upper :
        total_weight (weights_of st brain_id row.miner contributors)
        ≤ weight_le row.score (weights_of st brain_id row.miner contributors) * 2
    pub lower :
        weight_lt row.score (weights_of st brain_id row.miner contributors) * 2
        < total_weight (weights_of st brain_id row.miner contributors)

-- Pairs are made only for signers with stake.
abbrev HasStake : List (ℕ × ℕ) → Type 0
HasStake [] = Unit
HasStake ((s, w) ∷ rest) = (0 < w) × HasStake rest

cons_weighted-HasStake :
    (score : Option ℕ) (stake : ℕ) (rest : List (ℕ × ℕ))
    → HasStake rest
    → HasStake (cons_weighted score stake rest)
cons_weighted-HasStake none stake rest h = h
cons_weighted-HasStake (some score) stake rest h = elim (Bool-cases (ltb 0 stake)) [
  | inl positive ↦ rw positive (ground arith, h)
  | inr nothing ↦ rw nothing h
]

total_weight-positive : (l : List (ℕ × ℕ)) → HasStake l → 0 < length l → 0 < total_weight l
total_weight-positive [] h n = absurd (omega arith)
total_weight-positive ((s, w) ∷ l) (p, h) n = omega arith

module _ (st : Stakes) (brain_id : ℤ) where
  weights_of-HasStake :
      (miner : Str) (contributors : Contributors)
      → HasStake (weights_of st brain_id miner contributors)
  unfolding weights_of
  weights_of-HasStake miner [] = tt
  weights_of-HasStake miner ((signer, candidate) ∷ contributors) =
      cons_weighted-HasStake (lookup miner candidate) (st.stake_of brain_id signer) _
        (weights_of-HasStake miner contributors)

  module _ (need : ℕ) (contributors : Contributors) (miner : Str) where
    weights : List (ℕ × ℕ)
    weights = weights_of st brain_id miner contributors

    weights_positive :
        (p : ℕ × ℕ) (ws : List (ℕ × ℕ))
        → weighted_of st brain_id miner contributors ≡ p ∷ ws
        → 0 < total_weight weights
    unfolding weighted_of weights
    weights_positive p ws e =
        total_weight-positive weights (weights_of-HasStake miner contributors)
          (omega (arith, ap (length {A = ℕ × ℕ}) e, length-sorted weighted_le weights))

    row_of-IsCovered :
        (ws : List (ℕ × ℕ)) (rest : List Row)
        → weighted_of st brain_id miner contributors ≡ ws
        → All (IsCovered st brain_id need contributors) rest
        → All
            (IsCovered st brain_id need contributors)
            (row_of st brain_id need contributors miner ws rest)
    unfolding weighted_of weights
    row_of-IsCovered [] rest e h = h
    row_of-IsCovered (p ∷ ws) rest e h = elim (Bool-cases (ltb (total_weight (p ∷ ws)) need)) [
      | inl short ↦ rw short h
      | inr enough ↦
          let (upper, lower) = weighted_median-splits weights (weights_positive p ws e) in
          let same = total_weight-sorted weights in
          let counted = ap total_weight e in
          rw enough
            (record { covered = ground arith; upper = rw e at upper; lower = rw e at lower }, h)
    ]

  rows_of-IsCovered :
      (need : ℕ) (contributors : Contributors) (miners : List Str)
      → All (IsCovered st brain_id need contributors) (rows_of st brain_id need contributors miners)
  unfolding rows_of
  rows_of-IsCovered need contributors [] = tt
  rows_of-IsCovered need contributors (miner ∷ miners) =
      row_of-IsCovered need contributors miner (weighted_of st brain_id miner contributors) _ refl
        (rows_of-IsCovered need contributors miners)

-- How a frozen result relates to the candidates that it came from.
pub record IsCanonical (w : Web3) (st : Stakes) (brain_id : ℤ) (bps : ℕ)
    (contributors : Contributors) (f : Frozen) : Type 0 where
  pub quorum : need_of st brain_id bps ≤ stake_sum st brain_id (keys contributors)
  pub rows : All (IsCovered st brain_id (need_of st brain_id bps) contributors) f.1
  pub some_rows : 0 < length f.1
  pub root : Bytes
  pub hashed : List Bytes
  pub root_of_rows : build_merkle_root w (map (leaf_of brain_id) f.1) ≡ ok (root, hashed)
  pub root_text : f.0 ≡ hex_root root

freeze_rows-ok :
    (w : Web3) (brain_id : ℤ) (rows : List Row) {f : Frozen}
    → freeze_rows w brain_id rows ≡ ok f
    → (root : Bytes) × (hashed : List Bytes) × (build_merkle_root w (map (leaf_of brain_id) rows)
        ≡ ok (root, hashed))
      × (f.0 ≡ hex_root root)
      × (f.1 ≡ rows)
      × (0 < length rows)
unfolding freeze_rows
freeze_rows-ok w brain_id [] h = cc
freeze_rows-ok w brain_id (row ∷ rows) h =
    let ((root, hashed), built, made) =
      >>=-eq-ok (build_merkle_root w (map (leaf_of brain_id) (row ∷ rows)))
        (λ r. ok (hex_root r.0, row ∷ rows)) h in
    (root, hashed, built, ground arith, ground arith, omega arith)

conclude-IsCanonical :
    (w : Web3) (st : Stakes) (key : ℤ × ℤ) (contributors : Contributors) (pool : Pool) {f : Frozen}
    {pool' : Pool}
    → conclude w st key contributors pool ≡ (ok (some f), pool')
    → IsCanonical w st key.1 pool.min_quorum_bps contributors f
      × (pool' ≡ record pool { frozen = put key f pool.frozen })
unfolding conclude
conclude-IsCanonical w st key contributors pool {f} {pool'} h =
    let need = need_of st key.1 pool.min_quorum_bps in
    let made : List Row = rows_of st key.1 need contributors (miners_of contributors) in
    let frozen : freeze_rows w key.1 made ≡ ok f = ground arith in
    let (root, hashed, built, text, same, nonempty) = freeze_rows-ok w key.1 made frozen in
    (
      record {
        quorum = ground arith;
        rows = rw same (rows_of-IsCovered st key.1 need contributors (miners_of contributors));
        some_rows = rw same nonempty;
        root = root;
        hashed = hashed;
        root_of_rows = rw same built;
        root_text = text;
      },
      ground arith,
    )

enter-IsCanonical :
    (w : Web3) (st : Stakes) (key : ℤ × ℤ) (signer : Str) (normalized : Dict Str ℕ) (pool : Pool)
    {f : Frozen} {pool' : Pool}
    → enter w st key signer normalized pool ≡ (ok (some f), pool')
    → IsCanonical w st key.1 pool.min_quorum_bps (contributors_at key pool') f
      × (lookup key pool'.frozen ≡ some f)
unfolding enter
enter-IsCanonical w st key signer normalized pool {f} {pool'} h =
    elim (Result-cases (w.to_checksum_address (Json.str signer))) [
      | inr (e, raised) ↦ absurd (ground arith)
      | inl (address, checksum) ↦
          let contributors : Contributors = put address normalized (contributors_at key pool) in
          let entered : Pool = record pool { candidates = put key contributors pool.candidates } in
          let (canonical, left) =
            conclude-IsCanonical w st key contributors entered {f = f} {pool' = pool'}
              (rw (checksum, enter) at h) in
          (rw left (rw lookup-put_self canonical), rw left (lookup-put_self key f pool.frozen))
    ]

-- A call that freezes a result has a quorum of the Brain's stake among its contributors; each row
-- is the stake-weighted median of its miner's scores, over signers that hold the quorum; the root
-- is the Merkle root of the rows; and from then on the result is what `get` returns.
pub add-IsCanonical :
    (w : Web3) (st : Stakes) (epoch brain_id : ℤ) (signer : Str) (scores : List Json) (pool : Pool)
    {f : Frozen} {pool' : Pool}
    → get epoch brain_id pool ≡ none
    → add w st epoch brain_id signer scores pool ≡ (ok (some f), pool')
    → IsCanonical w st brain_id pool.min_quorum_bps (contributors_at (epoch, brain_id) pool') f
      × (get epoch brain_id pool' ≡ some f)
unfolding add get
add-IsCanonical w st epoch brain_id signer scores pool {f} {pool'} fresh h =
    elim (Result-cases (checked_scores w scores)) [
      | inr (e, raised) ↦ absurd (ground arith)
      | inl (normalized, checked) ↦
          enter-IsCanonical w st (epoch, brain_id) signer normalized pool {f = f} {pool' = pool'}
            (ground arith)
    ]
