-- ===== src/Tests/Validators.antt =====
-- The theorems on the validator and its scores, at concrete observations.
use based_ai.Prelude.{ℕ, ◌≡◌, ◌/◌, ◌+◌, ◌*◌, refl, List, [], ◌∷◌, some, true, arith, leb, ltb, All}
use based_ai.Prelude.Eq.{nat_eq, list_eq, int_eq, pair_eq}
use based_ai.Prelude.Int.{pos}
use based_ai.Prelude.Result.{Result, ok}
use based_ai.Prelude.Text.{Str, Bytes, codes}
use based_ai.Web3.{uint256, bytes32}
use based_ai.Prelude.Json.{Json}
use based_ai.Miner.Flow.{go}
use based_ai.Miner.Handlers.{admit_challenge}
use based_ai.Scoring.{
  Floats, Observation, score_miners, consistency_score, modal_response, challenges_of, higher_first,
}
use based_ai.Scoring.Modal.{IsMajority, consistency_score-majority}
use based_ai.Scoring.Range.{IsMonotone, IsAccepted, score_miners-IsAccepted}
use based_ai.Validator.{Validator, signed_challenge, build_challenge_payload}
use based_ai.Validator.Challenges.{admit_challenge-build_challenge_payload}
use based_ai.Tests.World.{world, ann, bob, account_of, world-HasRecovery}
use based_ai.Tests.Deliveries.{chain, miner}

-- Floats as whole millionths: enough for the order and the truncation.
abbrev pub millionths : Floats ℕ
millionths = record {
  of_nat = λ n. n * 1000000;
  divide = λ a b. a * 1000000 / b;
  add = λ a b. a + b;
  multiply = λ a b. a * b / 1000000;
  quotient = λ a b. a * 1000000 / b;
  log = λ a. a;
  less = λ a b. ltb a b;
  at_most = λ a b. leb a b;
  truncate = λ a. pos (a / 1000000);
  median = λ l. 1000000;
  mean = λ l. 500000;
}

abbrev seen : Str → Str → Observation
seen m hash = record {
  miner = m;
  prompt_id = codes "0x1";
  response_hash = hash;
  response_text = codes "PING";
  latency_ms = 20;
  is_challenge = true;
  reference_text = some (codes "PING");
}

abbrev pub observed : List Observation
observed = seen ann (codes "0xa") ∷ seen bob (codes "0xa") ∷ seen bob (codes "0xb") ∷ []

millionths-IsMonotone : IsMonotone millionths
millionths-IsMonotone = record {
  zero_less_one = refl;
  at_zero = refl;
  at_one = refl;
  keeps = λ x y h. ground arith;
}

score_miners-IsAccepted_example :
    All (λ s. IsAccepted s.score_fp) (score_miners millionths observed)
score_miners-IsAccepted_example = score_miners-IsAccepted millionths millionths-IsMonotone observed

major : IsMajority (codes "0xa") (codes "0xa" ∷ codes "0xa" ∷ codes "0xb" ∷ [])
unfolding based_ai.Scoring.count
major = omega arith

consistency_score-majority_example :
    consistency_score millionths
      (modal_response observed)
      (seen bob (codes "0xa") ∷ seen bob (codes "0xb") ∷ [])
    ≡ 500000
unfolding challenges_of
consistency_score-majority_example =
    consistency_score-majority millionths observed
      (seen bob (codes "0xa") ∷ seen bob (codes "0xb") ∷ []) (λ id. codes "0xa") (omega arith)
      (major, (major, tt))

abbrev pub validator : Validator
validator = record {
  brain_id = pos 7;
  chain_id = pos 1;
  scoring_registry = codes "0xc3";
  account = account_of ann;
  observations = observed;
}

abbrev bytes_or_empty : Result Bytes → Bytes
bytes_or_empty (ok b) = b
bytes_or_empty _ = []

abbrev payload : Json
payload = signed_challenge world validator (codes "hi") (pos 5) (
    bytes_or_empty (
      world.abi_encode
        (uint256 (pos 7) ∷ bytes32 (world.keccak_text (codes "hi")) ∷ uint256 (pos 5) ∷ [])))

built : build_challenge_payload world validator (codes "hi") (pos 5) ≡ ok payload
unfolding build_challenge_payload
built = refl

admit_challenge-build_challenge_payload_example :
    admit_challenge world chain 200 miner (record { size = 300; parsed = ok payload })
    ≡ go (codes "hi", pos 5)
admit_challenge-build_challenge_payload_example =
    admit_challenge-build_challenge_payload world validator chain 200 miner (codes "hi") (pos 5) 300
      {payload = payload} world-HasRecovery refl refl refl refl refl built
