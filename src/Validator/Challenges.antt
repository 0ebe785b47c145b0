-- ===== src/Validator/Challenges.antt =====
-- `_build_challenge_payload` of the validator's runtime.py against `_handle_challenge` of the miner's.
use mathlib.Core.Path.{subst}
use based_ai.Prelude.{ℕ, [], ◌∷◌, ◌≡◌, refl, true, false, ltb, length}
use based_ai.Prelude.Eq.{nat_eq, list_eq, list_beq_iff}
use based_ai.Prelude.Int.{ℤ}
use based_ai.Prelude.Result.{ok, >>=-eq-ok, ok-injective}
use based_ai.Prelude.Text.{Str, lower}
use based_ai.Prelude.Json.{Json, str, get_item, get, to_int}
use based_ai.Web3.{Web3, HasRecovery, uint256, bytes32}
use based_ai.Miner.{
  Miner, Chain, max_payload_bytes, max_prompt_chars, prompt_text, challenge_digest, seed_of,
}
use based_ai.Miner.Flow.{go}
use based_ai.Miner.Handlers.{admit_challenge}
use based_ai.Validator.{Validator, signed_challenge, build_challenge_payload}

-- A challenge that a registered validator, whose signatures recover, builds is one that a miner of
-- its Brain goes on to answer, with that prompt and that seed, where the payload and the prompt are
-- within the bounds.
pub admit_challenge-build_challenge_payload :
    (w : Web3) (v : Validator) (chain : Chain) (now : ℕ) (m : Miner) (prompt : Str) (seed : ℤ)
    (size : ℕ) {payload : Json}
    → HasRecovery w v.account
    → m.brain_id ≡ v.brain_id
    → w.to_checksum_address (str v.account.address) ≡ ok v.account.address
    → chain.is_validator v.brain_id v.account.address ≡ ok true
    → ltb max_payload_bytes size ≡ false
    → ltb max_prompt_chars (length prompt) ≡ false
    → build_challenge_payload w v prompt seed ≡ ok payload
    → admit_challenge w chain now m (record { size = size; parsed = ok payload })
      ≡ go (prompt, seed)
unfolding build_challenge_payload admit_challenge get_item get seed_of prompt_text challenge_digest
    to_int
admit_challenge-build_challenge_payload w v chain now m prompt seed size {payload} recovery brain
      checksum registered small short built =
    let (encoded, encodes, same) =
      >>=-eq-ok
        (w.abi_encode (uint256 v.brain_id ∷ bytes32 (w.keccak_text prompt) ∷ uint256 seed ∷ []))
        (λ encoded. ok (signed_challenge w v prompt seed encoded)) built in
    let bound = (list_beq_iff (lower v.account.address) (lower v.account.address)).1 refl in
    subst
      (λ p.
        admit_challenge w chain now m (record { size = size; parsed = ok p }) ≡ go (prompt, seed))
      (ok-injective (signed_challenge w v prompt seed encoded) payload same)
      (simp (
        small,
        checksum,
        short,
        brain,
        encodes,
        recovery.recovers (w.keccak encoded),
        bound,
        registered,
      ))
