-- ===== src/Validator/Commitments.antt =====
-- `_submit_commitment` of runtime.py against `POST /commitments` of service.py.
use based_ai.Prelude.{◌≡◌, refl, true, false, Option, All, contains}
use based_ai.Prelude.Dict.{put, lookup-put_self}
use based_ai.Prelude.Eq.{nat_eq, int_eq, pair_eq, list_eq, list_beq_iff}
use based_ai.Prelude.Int.{ℤ}
use based_ai.Prelude.Result.{Result, ok, >>=-eq-ok, ok-injective}
use based_ai.Prelude.Text.{Str, lower, lower-lower, with_0x, with_0x-with_0x}
use based_ai.Prelude.Json.{Json, str, get_item, to_int, to_str}
use based_ai.Web3.{Web3, HasRecovery}
use based_ai.Commitment.{
  Root, hex, normalize_root, commitment_digest, sign_commitment, recover_commitment_signer,
}
use based_ai.Quorum.{Stakes}
use based_ai.Aggregator.{
  Aggregator, Propose, store, store_recovered, add_commitment, quorum_met, backing_stake, roots_of,
  signers_at,
}
use based_ai.Aggregator.Best.{HasEntry}
use based_ai.Aggregator.Quorate.{IsReadable}
use based_ai.Service.Quorate.{Accepts, after_commit-proposed}
use based_ai.Service.{text_item, int_item, parse_commit, after_commit, commitments, is_completed}
use based_ai.Validator.{Validator, commitment_payload}

-- `sign_commitment` signs what `recover_commitment_signer` recovers, with the prefix `0x` too.
pub recover-with_0x :
    (w : Web3) (v : Validator) (epoch : ℤ) (root : Root) {signature : Str}
    → HasRecovery w v.account
    → sign_commitment w v.chain_id v.scoring_registry epoch v.brain_id root v.account ≡ ok signature
    → recover_commitment_signer w v.chain_id v.scoring_registry epoch v.brain_id root
        (str (with_0x signature))
      ≡ ok v.account.address
unfolding sign_commitment recover_commitment_signer
recover-with_0x w v epoch root recovery signs =
    let (d, digest, same) =
      >>=-eq-ok (commitment_digest w v.chain_id v.scoring_registry epoch v.brain_id root) _ signs in
    rw (digest, recover_commitment_signer) (rw (← ok-injective _ _ same) (recovery.recovers_0x d))

-- What the service reads of the commitment that a validator posts.
pub parse_commit-commitment_payload :
    (repr : Json → Str) (v : Validator) (epoch : ℤ) (root signature : Str)
    → parse_commit repr (ok (commitment_payload v epoch root signature))
      ≡ ok (record {
        epoch = epoch;
        brain_id = v.brain_id;
        root = root;
        signer = v.account.address;
        signature = with_0x signature;
      })
unfolding parse_commit commitment_payload int_item text_item get_item to_int to_str
parse_commit-commitment_payload repr v epoch root signature = refl

module _ (w : Web3) (v : Validator) (epoch : ℤ) (root : Str) (agg : Aggregator) where
  -- The state after the validator's signature of the root has been stored.
  abbrev pub stored : Str → Aggregator
  stored signature =
      store (epoch, (v.brain_id, normalize_root (hex root))) v.account.address (with_0x signature)
        agg

  module _ (recovery : HasRecovery w v.account) (chain : agg.chain_id ≡ v.chain_id)
      (registry : agg.scoring_registry ≡ v.scoring_registry)
      (checksum : w.to_checksum_address (str v.account.address) ≡ ok v.account.address)
      {signature : Str}
      (signs : sign_commitment w v.chain_id v.scoring_registry epoch v.brain_id (hex root) v.account
        ≡ ok signature) where
    pub add_commitment-signed :
        add_commitment w epoch v.brain_id (hex root) v.account.address (with_0x signature) agg
        ≡ (ok true, stored signature)
    unfolding add_commitment store_recovered
    add_commitment-signed =
        let same = (list_beq_iff (lower v.account.address) (lower v.account.address)).1 refl in
        let verified : recover_commitment_signer w agg.chain_id agg.scoring_registry epoch
              v.brain_id (hex root) (str (with_0x signature))
            ≡ ok v.account.address =
          rw (chain, registry) (recover-with_0x w v epoch (hex root) recovery signs) in
        rw (verified, add_commitment)
          (rw same (rw (checksum, store_recovered) (rw with_0x-with_0x)))

    -- The service stores the commitment that a validator of its registry posts, for the validator's
    -- address, and goes on as after any valid commitment.
    pub commitments-commitment_payload :
        (st : Stakes) (propose : Propose) (current : Option (Result ℤ)) (repr : Json → Str)
        → commitments w st propose current repr (ok (commitment_payload v epoch root signature)) agg
          ≡ after_commit w st propose current
              (record {
                epoch = epoch;
                brain_id = v.brain_id;
                root = root;
                signer = v.account.address;
                signature = with_0x signature;
              })
              (stored signature)
    unfolding commitments parse_commit commitment_payload int_item text_item get_item to_int to_str
    commitments-commitment_payload st propose current repr =
        rw (add_commitment-signed, commitments) (rw add_commitment-signed)

    stored-HasEntry :
        (st : Stakes) → HasEntry st epoch v.brain_id (stored signature) (normalize_root (hex root))
    stored-HasEntry st =
        rw
          (lookup-put_self (epoch, (v.brain_id, normalize_root (hex root)))
            (put v.account.address (with_0x signature)
              (signers_at agg (epoch, (v.brain_id, normalize_root (hex root)))))
            agg.pending)
          refl

    stored-quorum :
        (st : Stakes)
        → quorum_met st epoch v.brain_id (hex root) (stored signature) ≡ true
        → quorum_met st epoch v.brain_id (hex (normalize_root (hex root))) (stored signature) ≡ true
    unfolding quorum_met backing_stake normalize_root
    stored-quorum st h = rw lower-lower h

    -- The commitment that completes a quorum is proposed: once the service has taken it from a
    -- validator of its registry whose signatures recover, the epoch and the Brain are recorded as
    -- proposed, where the epoch has ended, nothing was proposed for them before, the signers of the
    -- root then hold the quorum, every root that has an entry is hexadecimal after its first two
    -- characters, and the chain takes what is submitted.
    pub commitment_payload-proposed :
        (st : Stakes) (propose : Propose) (current : Option (Result ℤ)) (repr : Json → Str)
        → is_completed epoch current ≡ ok true
        → Accepts propose epoch v.brain_id
        → contains (epoch, v.brain_id) agg.proposed ≡ false
        → quorum_met st epoch v.brain_id (hex root) (stored signature) ≡ true
        → All IsReadable (roots_of epoch v.brain_id (stored signature).pending)
        → contains
            (epoch, v.brain_id)
            (commitments w st propose current repr
              (ok (commitment_payload v epoch root signature))
              agg).1.proposed
          ≡ true
    commitment_payload-proposed st propose current repr completed accepts new quorum readable =
        rw (commitments-commitment_payload st propose current repr) (
          after_commit-proposed w st propose current
            (record {
              epoch = epoch;
              brain_id = v.brain_id;
              root = root;
              signer = v.account.address;
              signature = with_0x signature;
            })
            (stored signature) (normalize_root (hex root)) completed accepts new
            (stored-HasEntry st) (stored-quorum st quorum) readable)
