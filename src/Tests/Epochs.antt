-- ===== src/Tests/Epochs.antt =====
-- The theorems on the end of an epoch, at concrete scores.
use based_ai.Prelude.{
  ◌≡◌, ◌/◌, ◌+◌, ◌*◌, refl, [], ◌∷◌, some, none, true, leb, All, sum, if◌then◌else◌, ◌%◌, length,
  contains, drop, Option,
}
use based_ai.Prelude.Eq.{nat_eq, list_eq, int_eq, pair_eq}
use based_ai.Prelude.Int.{pos}
use based_ai.Prelude.Result.{ok}
use based_ai.Prelude.Text.{Str, Bytes, codes, from_hex, lower}
use based_ai.Web3.{Web3}
use based_ai.Prelude.Json.{Json}
use based_ai.Aggregator.{Aggregator, Propose, quorum_met, roots_of}
use based_ai.Scoring.{score_miners}
use based_ai.Validator.{Validator, commitment_payload}
use based_ai.Prelude.Dict.{put, lookup}
use based_ai.Commitment.{normalize_root, hex, sign_commitment}
use based_ai.Aggregator.Quorate.{IsReadable}
use based_ai.Service.{commitments}
use based_ai.Validator.Commitments.{stored, commitment_payload-proposed}
use based_ai.Tests.World.{stakes, world, ann, account_of, world-HasRecovery}
use based_ai.Validator.Posting.{Aggregation, end_epoch}
use based_ai.Tests.Validators.{millionths, validator}

abbrev service : Aggregator
service = record {
  chain_id = pos 1;
  scoring_registry = codes "0xc3";
  min_quorum_bps = 5001;
  pending = [];
  proposed = [];
}

abbrev root_text : Str
root_text = codes "0x0102030405060708010203040506070801020304050607080102030405060708"

-- The aggregator has the root at the second question.
abbrev aggregation : Aggregation
aggregation = record {
  posted = λ body. ok none;
  asked = λ left. ok (if leb 59 left then none else some root_text);
}

abbrev no_text : Json → Str
no_text v = []

-- The same world with digests of 32 bytes, so that a root can be signed.
abbrev wide : Web3
wide = record world {
  keccak = λ b.
      sum b % 251
      ∷ 0
      ∷ 0
      ∷ 0
      ∷ 0
      ∷ 0
      ∷ 0
      ∷ 0
      ∷ 0
      ∷ 0
      ∷ 0
      ∷ 0
      ∷ 0
      ∷ 0
      ∷ 0
      ∷ 0
      ∷ 0
      ∷ 0
      ∷ 0
      ∷ 0
      ∷ 0
      ∷ 0
      ∷ 0
      ∷ 0
      ∷ 0
      ∷ 0
      ∷ 0
      ∷ 0
      ∷ 0
      ∷ 0
      ∷ 0
      ∷ 0
      ∷ [];
}

-- The candidate and the commitment are posted.
both_posted : length (end_epoch millionths wide (some aggregation) validator (pos 3)).0 ≡ 2
unfolding end_epoch score_miners based_ai.Prelude.Sort.sorted put lookup
    based_ai.Prelude.Choose.choose based_ai.Validator.leaves_of based_ai.Merkle.build_merkle_root
    based_ai.Merkle.leaf_hash based_ai.Merkle.reduce based_ai.Merkle.next_layer sign_commitment
    based_ai.Commitment.commitment_digest based_ai.Merkle.pair_hash
    based_ai.Validator.Posting.await_root from_hex
both_posted = refl

-- Ann alone holds the quorum.
ann_signs :
    sign_commitment world (pos 1) (codes "0xc3") (pos 3) (pos 7) (hex root_text) (account_of ann)
    ≡ ok ann
unfolding sign_commitment based_ai.Commitment.commitment_digest from_hex
ann_signs = refl

abbrev send : Propose
send epoch brain root signers signatures = ok (codes "0xdd")

abbrev after : Aggregator
after = stored world validator (pos 3) root_text service ann

quorum_after : quorum_met stakes (pos 3) (pos 7) (hex root_text) after ≡ true
unfolding quorum_met based_ai.Quorum.needed based_ai.Aggregator.backing_stake
    based_ai.Prelude.Dict.lookup based_ai.Prelude.Dict.put based_ai.Commitment.normalize_root
    based_ai.Prelude.Text.lower
quorum_after = refl

abbrev value_of : Option Bytes → Bytes
value_of none = []
value_of (some b) = b

after-IsReadable : All IsReadable (roots_of (pos 3) (pos 7) after.pending)
unfolding roots_of put lookup from_hex normalize_root lower
after-IsReadable = ((value_of (from_hex (drop 2 root_text)), refl), tt)

commitment_payload-proposed_example :
    contains
      (pos 3, pos 7)
      (commitments world stakes send
        (some (ok (pos 4)))
        no_text
        (ok (commitment_payload validator (pos 3) root_text ann))
        service).1.proposed
    ≡ true
commitment_payload-proposed_example =
    commitment_payload-proposed world validator (pos 3) root_text service world-HasRecovery refl
      refl refl {signature = ann} ann_signs stakes send (some (ok (pos 4))) no_text refl
      (λ root signers signatures. (codes "0xdd", refl)) refl quorum_after after-IsReadable
