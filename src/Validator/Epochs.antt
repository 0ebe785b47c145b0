-- ===== src/Validator/Epochs.antt =====
-- The end of an epoch, from the validator's observations to what the service accepts:
-- `_post_epoch_commitment` of runtime.py with the routes of service.py.
use based_ai.Prelude.{◌≡◌, true, Option, none, some, List, [], ◌∷◌}
use based_ai.Prelude.Eq.{nat_eq, list_eq}
use based_ai.Prelude.Int.{ℤ}
use based_ai.Prelude.Result.{Exn, ok, raise}
use based_ai.Prelude.Text.{Str}
use based_ai.Prelude.Json.{Json}
use based_ai.Prelude.Early.{go}
use based_ai.Web3.{Web3}
use based_ai.Commitment.{hex, sign_commitment}
use based_ai.Aggregator.{Aggregator, add_commitment}
use based_ai.Scoring.{Floats, MinerScore}
use based_ai.Service.{CommitBody, parse_commit}
use based_ai.Service.Candidacy.{CandidateBody, admit_candidate}
use based_ai.Validator.{Validator, candidate_payload, commitment_payload}
use based_ai.Validator.Posting.{Aggregation, await_root, sign_scores}

module _ (w : Web3) (repr : Json → Str) (v : Validator) (service : Aggregator) where
  -- The service takes the body as a candidate, and gives it to the pool.
  pub record IsOffer (body : Json) : Type 0 where
    pub read : CandidateBody
    pub admitted : admit_candidate w v.chain_id v.scoring_registry repr (ok body) ≡ go read

  -- The service takes the body as a commitment to the root, and stores its signature.
  pub record IsCommitment (root : Str) (body : Json) : Type 0 where
    pub read : CommitBody
    pub parsed : parse_commit repr (ok body) ≡ ok read
    pub named : read.root ≡ root
    pub after : Aggregator
    pub stored :
        add_commitment w read.epoch read.brain_id (hex read.root) read.signer read.signature service
        ≡ (ok true, after)

module _ {F : Type 0} (fl : Floats F) (w : Web3) (v : Validator) (epoch : ℤ) (repr : Json → Str)
    (service : Aggregator) where
  -- Why no commitment follows a candidate: asking for the canonical root raised, there is none, or
  -- signing it raised.
  pub data IsUncommitted (a : Aggregation) (body : Json) : Type 0 where
    unanswered : (e : Exn) → await_root (a.posted body) a.asked ≡ raise e → IsUncommitted a body
    unknown : await_root (a.posted body) a.asked ≡ ok none → IsUncommitted a body
    unsigned_root :
        (root : Str) (e : Exn)
        → await_root (a.posted body) a.asked ≡ ok (some root)
        → sign_commitment w v.chain_id v.scoring_registry epoch v.brain_id (hex root) v.account
          ≡ raise e
        → IsUncommitted a body

  -- What a validator with these scores posts in an epoch. Nothing: there are no scores, it could not
  -- sign their root, or no aggregator is configured. Or the candidate alone, where no commitment can
  -- follow; or the candidate and a commitment to the root that the aggregator called canonical.
  pub data Posts (agg : Option Aggregation) (scores : List (MinerScore F))
      : List Json → Type 0 where
    no_scores : scores ≡ [] → Posts agg scores []
    unsigned : (e : Exn) → sign_scores fl w agg v epoch scores ≡ raise e → Posts agg scores []
    unconfigured : agg ≡ none → Posts agg scores []
    offered :
        (a : Aggregation) (signature : Str)
        → agg ≡ some a
        → sign_scores fl w agg v epoch scores ≡ ok signature
        → IsOffer w repr v service (candidate_payload v epoch scores signature)
        → IsUncommitted a (candidate_payload v epoch scores signature)
        → Posts agg scores (candidate_payload v epoch scores signature ∷ [])
    committed :
        (a : Aggregation) (signature root root_signature : Str)
        → agg ≡ some a
        → sign_scores fl w agg v epoch scores ≡ ok signature
        → IsOffer w repr v service (candidate_payload v epoch scores signature)
        → await_root (a.posted (candidate_payload v epoch scores signature)) a.asked
          ≡ ok (some root)
        → IsCommitment w repr v service root (commitment_payload v epoch root root_signature)
        → Posts agg scores (
            candidate_payload v epoch scores signature
            ∷ commitment_payload v epoch root root_signature
            ∷ [])
