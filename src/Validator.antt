-- ===== src/Validator.antt =====
-- validator/src/basedai_validator/runtime.py: the challenges that a validator sends, and the bodies
-- that it posts. The answers of the gateway, of the miners and of the aggregator are
-- parameters; a call that raises, or that has a bad status, is `raise`. A miner's text and hash are
-- texts here.
pub mod Posting
pub mod Challenges
pub mod Candidates
pub mod Commitments
pub mod Epochs
use based_ai.Prelude.{
  ℕ, zero, suc, ◌+◌, ◌*◌, ◌/◌, Bool, true, false, not, ◌&&◌, Option, none, some, List, [], ◌∷◌,
  ◌++◌, select, map, if◌then◌else◌,
}
use based_ai.Prelude.Int.{ℤ, pos}
use based_ai.Prelude.Result.{Result, ok, raise, ◌>>=◌, traverse}
use based_ai.Prelude.Text.{Str, Bytes, codes, to_hex, with_0x}
use based_ai.Prelude.Json.{Json, Items, int, str, arr, nil, cons, obj, field, end}
use based_ai.Web3.{Web3, Account, uint256, bytes32}
use based_ai.Merkle.{ScoreLeaf, build_merkle_root}
use based_ai.Commitment.{Root, raw, hex, sign_commitment}
use based_ai.Scoring.{Floats, Observation, MinerScore, score_miners}

pub record Validator : Type 0 where
  pub brain_id : ℤ
  pub chain_id : ℤ
  pub scoring_registry : Str
  pub account : Account
  pub observations : List Observation

-- A miner as the gateway lists it; a field that is missing is empty.
pub record MinerEntry : Type 0 where
  pub address : Str
  pub url : Str

abbrev pub given : Str → Bool
given [] = false
given (c ∷ s) = true

-- `_discover_miners`, of the configured URL and of what the gateway answers
unfoldable pub discover_miners : Str → Result (List MinerEntry) → List MinerEntry
discover_miners [] answer = []
discover_miners (c ∷ url) (raise e) = []
discover_miners (c ∷ url) (ok miners) = select (λ m. given m.url && given m.address) miners

-- The challenge, from the encoding that its signature is over.
abbrev pub signed_challenge : Web3 → Validator → Str → ℤ → Bytes → Json
signed_challenge w v prompt seed encoded = obj (
    field "prompt" (str prompt) (
      field "seed" (int seed) (
        field "validator" (str v.account.address)
          (field "validator_signature" (str (v.account.sign_message (w.keccak encoded))) end))))

unfoldable pub build_challenge_payload : Web3 → Validator → Str → ℤ → Result Json
build_challenge_payload w v prompt seed = do
  encoded ← w.abi_encode (uint256 v.brain_id ∷ bytes32 (w.keccak_text prompt) ∷ uint256 seed ∷ [])
  ok (signed_challenge w v prompt seed encoded)

-- The JSON object that a miner answers with.
pub record Answer : Type 0 where
  pub has_error : Bool
  pub text : Option Str
  pub response_hash : Option Str

abbrev zeros : ℕ → Str
zeros zero = []
zeros (suc n) = 48 ∷ zeros n

abbrev pub zero_hash : Str
zero_hash = codes "0x" ++ zeros 64

abbrev pub or_default : Str → Option Str → Str
or_default d none = d
or_default d (some s) = s

-- The text, the hash and the latency that are recorded of an answer that took `elapsed` ms.
unfoldable pub read_answer : ℕ → Result Answer → Str × (Str × ℕ)
read_answer elapsed (raise e) = ([], (zero_hash, elapsed))
read_answer elapsed (ok a) =
    if a.has_error
    then ([], (zero_hash, elapsed))
    else (or_default [] a.text, (or_default zero_hash a.response_hash, elapsed))

-- `_call_miner_challenge`: only the building of the payload is outside its `try`.
unfoldable pub call_miner_challenge :
    Web3 → Validator → Str → Str → ℤ → ℕ → (Json → Result Answer) → Result (Str × (Str × ℕ))
unfolding read_answer build_challenge_payload
call_miner_challenge w v [] prompt seed elapsed post = ok ([], (zero_hash, 0))
call_miner_challenge w v (c ∷ url) prompt seed elapsed post = do
  payload ← build_challenge_payload w v prompt seed
  ok (read_answer elapsed (post payload))

-- `"0x" + keccak(prompt.encode()).hex()`
unfoldable pub prompt_id_of : Web3 → Str → Str
prompt_id_of w prompt = codes "0x" ++ to_hex (w.keccak_text prompt)

-- `_issue_challenge`, for the miner, the prompt with its reference and the seed that were drawn.
unfoldable pub issue_challenge :
    Web3
    → Option MinerEntry
    → Str × Option Str
    → ℤ
    → ℕ
    → (Json → Result Answer)
    → Validator
    → Result (Unit {0}) × Validator
unfolding call_miner_challenge prompt_id_of
issue_challenge w none item seed elapsed post v = (ok tt, v)
issue_challenge w (some chosen) (prompt, reference) seed elapsed post v =
    elim (call_miner_challenge w v chosen.url prompt seed elapsed post) [
      | raise e ↦ (raise e, v)
      | ok (text, (hash, latency)) ↦ (
        ok tt,
        record v {
          observations =
              v.observations
              ++ (record {
                miner = chosen.address;
                prompt_id = prompt_id_of w prompt;
                response_hash = hash;
                response_text = text;
                latency_ms = latency;
                is_challenge = true;
                reference_text = reference;
              })
                ∷ [];
        },
      )
    ]

-- `_read_current_epoch`, of the contract's answer and the clock in seconds
unfoldable pub read_current_epoch : Result ℤ → ℕ → ℤ
read_current_epoch (ok epoch) now = epoch
read_current_epoch (raise e) now = pos (now / 3600)

-- The end of the hour that `_wait_for_epoch_end` sleeps until.
unfoldable pub boundary : ℕ → ℕ
boundary now = (now / 3600 + 1) * 3600

module _ {F : Type 0} where
  abbrev pub rows_json : List (MinerScore F) → Items
  rows_json [] = nil
  rows_json (s ∷ scores) =
      cons (obj (field "miner" (str s.miner) (field "score" (int s.score_fp) end)))
        (rows_json scores)

  -- The leaves that the validator hashes.
  abbrev pub leaf_with : ℤ → MinerScore F → Str → ScoreLeaf
  leaf_with brain_id s miner = record { brain_id = brain_id; miner = miner; score = s.score_fp }

  abbrev pub checked_leaf : Web3 → ℤ → MinerScore F → Result ScoreLeaf
  checked_leaf w brain_id s = do
    miner ← w.to_checksum_address (str s.miner)
    ok (leaf_with brain_id s miner)

  unfoldable pub leaves_of : Web3 → ℤ → List (MinerScore F) → Result (List ScoreLeaf)
  leaves_of w brain_id scores = traverse (checked_leaf w brain_id) scores

  -- The body of `POST /candidates`.
  unfoldable pub candidate_payload : Validator → ℤ → List (MinerScore F) → Str → Json
  candidate_payload v epoch scores signature = obj (
      field "epoch" (int epoch) (
        field "brain_id" (int v.brain_id) (
          field "signer" (str v.account.address) (
            field "scores" (arr (rows_json scores))
              (field "signature" (str (with_0x signature)) end)))))

-- The body of `POST /commitments`.
unfoldable pub commitment_payload : Validator → ℤ → Str → Str → Json
commitment_payload v epoch root signature = obj (
    field "epoch" (int epoch) (
      field "brain_id" (int v.brain_id) (
        field "root" (str root) (
          field "signer" (str v.account.address)
            (field "signature" (str (with_0x signature)) end)))))
