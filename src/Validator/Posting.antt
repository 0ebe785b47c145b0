-- ===== src/Validator/Posting.antt =====
-- `_epoch_loop`, `_post_epoch_commitment` and the two calls of the aggregator of
-- validator/src/basedai_validator/runtime.py: what a validator posts at the end of an epoch.
use based_ai.Prelude.{ℕ, zero, suc, Option, none, some, List, [], ◌∷◌, ◌++◌}
use based_ai.Prelude.Int.{ℤ}
use based_ai.Prelude.Result.{Result, ok, raise, ◌>>=◌}
use based_ai.Prelude.Text.{Str}
use based_ai.Prelude.Json.{Json}
use based_ai.Web3.{Web3}
use based_ai.Merkle.{build_merkle_root}
use based_ai.Commitment.{Root, raw, hex, sign_commitment}
use based_ai.Scoring.{Floats, MinerScore, score_miners}
use based_ai.Validator.{Validator, leaves_of, candidate_payload, commitment_payload}

-- What a reply about a candidate says: the root, where it is canonical.
abbrev pub Reply : Type 0
Reply = Option Str

-- The loop that asks for the frozen root; a reply with another status than 200 has no root.
unfoldable pub poll_root : ℕ → (ℕ → Result Reply) → Result Reply
poll_root zero ask = ok none
poll_root (suc n) ask = elim (ask n) [
  | raise e ↦ raise e
  | ok (some root) ↦ ok (some root)
  | ok none ↦ poll_root n ask
]

-- `_submit_candidate`, of the reply to the post and of those to the questions after it.
unfoldable pub await_root : Result Reply → (ℕ → Result Reply) → Result Reply
unfolding poll_root
await_root (raise e) ask = raise e
await_root (ok (some root)) ask = ok (some root)
await_root (ok none) ask = poll_root 60 ask

-- What the aggregator answers in an epoch: `none` where no aggregator is configured.
pub record Aggregation : Type 0 where
  pub posted : Json → Result Reply
  pub asked : ℕ → Result Reply

module _ {F : Type 0} (fl : Floats F) (w : Web3) (agg : Option Aggregation) (v : Validator)
    (epoch : ℤ) where
  abbrev sign_root : Root → Result Str
  sign_root root = sign_commitment w v.chain_id v.scoring_registry epoch v.brain_id root v.account

  -- From the canonical root on. What `_submit_commitment` raises is caught in it.
  unfoldable pub commit_root : Str → List Json → List Json × Result (Unit {0})
  commit_root root sent = elim (sign_root (hex root)) [
    | raise e ↦ (sent, raise e)
    | ok signature ↦ (sent ++ commitment_payload v epoch root signature ∷ [], ok tt)
  ]

  -- From the signature of the validator's own root on.
  unfoldable pub offer_scores :
      Option Aggregation → List (MinerScore F) → Str → List Json × Result (Unit {0})
  unfolding commit_root
  offer_scores none scores signature = ([], ok tt)
  offer_scores (some a) scores signature =
      let payload = candidate_payload v epoch scores signature in
      elim (await_root (a.posted payload) a.asked) [
        | raise e ↦ (payload ∷ [], raise e)
        | ok none ↦ (payload ∷ [], ok tt)
        | ok (some root) ↦ commit_root root (payload ∷ [])
      ]

  -- The validator's signature of the root of its own scores.
  unfoldable pub sign_scores : List (MinerScore F) → Result Str
  sign_scores scores = do
    leaves ← leaves_of w v.brain_id scores
    (root, _) ← build_merkle_root w leaves
    sign_root (raw root)

  abbrev pub post_scores : List (MinerScore F) → List Json × Result (Unit {0})
  post_scores [] = ([], ok tt)
  post_scores (s ∷ scores) = elim (sign_scores (s ∷ scores)) [
    | raise e ↦ ([], raise e)
    | ok signature ↦ offer_scores agg (s ∷ scores) signature
  ]

  -- `_post_epoch_commitment`: what is posted, and what it raised.
  unfoldable pub post_epoch_commitment : List Json × Result (Unit {0})
  unfolding sign_scores offer_scores
  post_epoch_commitment = post_scores (score_miners fl v.observations)

  -- One round of `_epoch_loop`, after the wait.
  unfoldable pub end_epoch : List Json × Validator
  unfolding post_epoch_commitment
  end_epoch = (post_epoch_commitment.0, record v { observations = [] })
