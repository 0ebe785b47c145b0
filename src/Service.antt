-- ===== src/Service.antt =====
-- validator/src/basedai_validator/service.py: the routes around the aggregator and the pool of
-- candidates. A handler returns what it replies, or raises, beside the state that it leaves.
pub mod Invariants
pub mod Candidacy
pub mod Quorate
use based_ai.Prelude.{
  ℕ, Bool, true, false, not, Option, none, some, String, List, [], ◌∷◌, map, if◌then◌else◌,
}
use based_ai.Prelude.Eq.{◌==◌, nat_eq, list_eq}
use based_ai.Prelude.Int.{ℤ, ltb_ℤ}
use based_ai.Prelude.Result.{Result, ok, raise, ◌>>=◌, traverse}
use based_ai.Prelude.Text.{Str, lower}
use based_ai.Prelude.Json.{
  Json, bool, int, str, arr, obj, nil, cons, Items, field, end, get_item, to_int, to_str, to_list,
}
use based_ai.Prelude.Early.{Early, go, stop, fail}
use based_ai.Prelude.Http.{Reply, error_reply, or_reply}
use based_ai.Web3.{Web3}
use based_ai.Commitment.{raw, hex, recover_commitment_signer}
use based_ai.Quorum.{Stakes}
use based_ai.Merkle.{ScoreLeaf, build_merkle_root}
use based_ai.Aggregator.{Aggregator, Propose, add_commitment, try_propose, quorum_met}
use based_ai.Candidates.{Pool, Frozen, Row, add, get}

-- The body of `POST /commitments`.
pub record CommitBody : Type 0 where
  pub epoch : ℤ
  pub brain_id : ℤ
  pub root : Str
  pub signer : Str
  pub signature : Str

-- `str(body[k])`
unfoldable pub text_item : (Json → Str) → Json → String → Result Str
text_item repr body k = do v ← get_item body k; ok (to_str repr v)

unfoldable pub int_item : Json → String → Result ℤ
int_item body k = do v ← get_item body k; to_int v

unfoldable pub parse_commit : (Json → Str) → Result Json → Result CommitBody
parse_commit repr request = do
  body ← request
  epoch ← int_item body "epoch"
  brain_id ← int_item body "brain_id"
  root ← text_item repr body "root"
  signer ← text_item repr body "signer"
  signature ← text_item repr body "signature"
  ok (record {
    epoch = epoch;
    brain_id = brain_id;
    root = root;
    signer = signer;
    signature = signature;
  })

-- `current_epoch_fn is None or epoch < current_epoch_fn()`; the call may raise
abbrev pub is_completed : ℤ → Option (Result ℤ) → Result Bool
is_completed epoch none = ok true
is_completed epoch (some (raise e)) = raise e
is_completed epoch (some (ok current)) = ok (ltb_ℤ epoch current)

-- `except Exception` around `try_propose`
abbrev pub forgive : Result (Option Str) × Aggregator → Result (Option Str) × Aggregator
forgive (raise e, agg) = (ok none, agg)
forgive (ok tx, agg) = (ok tx, agg)

-- `if proposed_tx: resp["proposed_tx"] = proposed_tx`
abbrev pub commit_reply : Bool → Option Str → Reply
commit_reply quorum (some (c ∷ tx)) = record {
  status = 200;
  body = obj (
      field "ok" (bool true)
        (field "quorum_met" (bool quorum) (field "proposed_tx" (str (c ∷ tx)) end)));
}
commit_reply quorum _ = record {
  status = 200;
  body = obj (field "ok" (bool true) (field "quorum_met" (bool quorum) end));
}

module _ (w : Web3) (st : Stakes) (propose : Propose) (current : Option (Result ℤ)) where
  -- Only a completed epoch is proposed.
  unfoldable pub propose_completed : CommitBody → Aggregator → Result (Option Str) × Aggregator
  propose_completed c agg = elim (is_completed c.epoch current) [
    | raise e ↦ (raise e, agg)
    | ok completed ↦
        if completed
        then forgive (try_propose st propose c.epoch c.brain_id agg)
        else (ok none, agg)
  ]

  -- What follows a commitment that was stored.
  unfoldable pub after_commit : CommitBody → Aggregator → Result Reply × Aggregator
  unfolding propose_completed
  after_commit c agg =
      let (proposed, agg') = propose_completed c agg in
      elim proposed [
        | raise e ↦ (raise e, agg')
        | ok tx ↦ (ok (commit_reply (quorum_met st c.epoch c.brain_id (hex c.root) agg') tx), agg')
      ]

  unfoldable pub commitments : (Json → Str) → Result Json → Aggregator → Result Reply × Aggregator
  unfolding after_commit
  commitments repr request agg =
      elim (or_reply (error_reply 400 "malformed commitment") (parse_commit repr request)) [
        | stop reply ↦ (ok reply, agg)
        | fail e ↦ (raise e, agg)
        | go c ↦
            let (stored, agg') =
              add_commitment w c.epoch c.brain_id (hex c.root) c.signer c.signature agg in
            elim stored [
              | raise e ↦ (raise e, agg')
              | ok valid ↦
                  if valid
                  then after_commit c agg'
                  else (ok (error_reply 401 "signature does not match signer"), agg')
            ]
      ]
