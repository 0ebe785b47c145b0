-- ===== src/Validator/Candidates.antt =====
-- `_submit_candidate` of runtime.py against `POST /candidates` of service.py.
use based_ai.Prelude.{◌≡◌, refl, ap, List, [], ◌∷◌, All, map, length, get_elem?, arith}
use based_ai.Prelude.Eq.{nat_eq, list_eq, beq_refl}
use based_ai.Prelude.Int.{ℤ}
use based_ai.Prelude.Result.{
  Result, ok, index_error, or_raise, ◌>>=◌, >>=-eq-ok, ok-injective, traverse,
}
use based_ai.Prelude.Text.{Str, Bytes, lower, with_0x}
use based_ai.Prelude.Json.{Json, str, items_of, get_item, to_int, to_str, to_list}
use based_ai.Prelude.Early.{go}
use based_ai.Web3.{Web3, HasRecovery, HasAddresses, uint256}
use based_ai.Merkle.{ScoreLeaf, leaf_hash, sorted_hashes, bytes_le, reduce, build_merkle_root}
use based_ai.Prelude.Sort.{sorted}
use based_ai.Commitment.{raw, sign_commitment}
use based_ai.Scoring.{MinerScore}
use based_ai.Service.{text_item, int_item}
use based_ai.Service.Candidacy.{leaf_of_row, parse_candidate, admit_candidate}
use based_ai.Validator.{Validator, rows_json, leaf_with, checked_leaf, leaves_of, candidate_payload}
use based_ai.Validator.Commitments.{recover-with_0x}

-- Leaves with the same hashes have the same root.
build_merkle_root-hashes :
    (w : Web3) (l r : List ScoreLeaf)
    → traverse (leaf_hash w) l ≡ traverse (leaf_hash w) r
    → length l ≡ length r
    → build_merkle_root w l ≡ build_merkle_root w r
unfolding build_merkle_root sorted_hashes
build_merkle_root-hashes w [] [] same count = refl
build_merkle_root-hashes w [] (y ∷ r) same count = absurd (omega (arith, count))
build_merkle_root-hashes w (x ∷ l) [] same count = absurd (omega (arith, count))
build_merkle_root-hashes w (x ∷ l) (y ∷ r) same count = ap finish same
  where
    finish : Result (List Bytes) → Result (Bytes × List Bytes)
    finish hashes = do
      hashed ← (do given ← hashes; ok (sorted bytes_le given))
      root ← or_raise index_error (get_elem? (reduce w (length hashed) hashed) 0)
      ok (root, hashed)

module _ {F : Type 0} (w : Web3) where
  -- The miners are written in small letters, as the gateway lists them.
  abbrev pub IsLower : MinerScore F → Type 0
  IsLower s = lower s.miner ≡ s.miner

  -- The leaves that the service reads, with the miners as they are written.
  abbrev plain_leaf : ℤ → MinerScore F → ScoreLeaf
  plain_leaf brain_id s = leaf_with brain_id s s.miner

  leaves_of-rows_json :
      (repr : Json → Str) (brain_id : ℤ) (scores : List (MinerScore F))
      → traverse (leaf_of_row repr brain_id) (items_of (rows_json scores))
        ≡ ok (map (plain_leaf brain_id) scores)
  unfolding leaf_of_row text_item int_item get_item to_str to_int
  leaves_of-rows_json repr brain_id [] = refl
  leaves_of-rows_json repr brain_id (s ∷ scores) = rw (leaves_of-rows_json repr brain_id scores)

  module _ (addresses : HasAddresses w) (brain_id : ℤ) where
    -- They hash as the leaves that the validator made of checksum addresses.
    hashes_of-plain_leaf :
        (scores : List (MinerScore F)) {leaves : List ScoreLeaf}
        → All IsLower scores
        → leaves_of w brain_id scores ≡ ok leaves
        → (traverse (leaf_hash w) (map (plain_leaf brain_id) scores)
            ≡ traverse (leaf_hash w) leaves)
          × (length (map (plain_leaf brain_id) scores) ≡ length leaves)
    unfolding leaves_of leaf_hash
    hashes_of-plain_leaf [] {leaves} small read = rw (← ok-injective [] leaves read) (refl, refl)
    hashes_of-plain_leaf (s ∷ scores) {leaves} (small, rest) read =
        let (leaf, first, later) =
          >>=-eq-ok (checked_leaf w brain_id s)
            (λ leaf. do others ← leaves_of w brain_id scores; ok (leaf ∷ others)) read in
        let (others, more, last) =
          >>=-eq-ok (leaves_of w brain_id scores) (λ others. ok (leaf ∷ others)) later in
        let (miner, checksum, made) =
          >>=-eq-ok (w.to_checksum_address (str s.miner)) (λ miner. ok (leaf_with brain_id s miner))
            first in
        let (hashes, counts) = hashes_of-plain_leaf scores rest more in
        rw
          (
            ← ok-injective (leaf ∷ others) leaves last,
            ← ok-injective (leaf_with brain_id s miner) leaf made,
          )
          (
            rw
                (
                  addresses.encodes (uint256 brain_id ∷ []) (uint256 s.score_fp ∷ []) s.miner miner
                      small checksum,
                  hashes,
                )
                refl,
            omega (arith, counts),
          )

  module _ (v : Validator) (epoch : ℤ) (repr : Json → Str) (scores : List (MinerScore F))
      (recovery : HasRecovery w v.account) (addresses : HasAddresses w)
      (small : All IsLower scores) where
    -- What the service reads of the candidate that the validator posts, with the root of its leaves.
    pub admit_candidate-candidate_payload :
        {leaves : List ScoreLeaf} {root : Bytes} {hashes : List Bytes} {signature : Str}
        → leaves_of w v.brain_id scores ≡ ok leaves
        → build_merkle_root w leaves ≡ ok (root, hashes)
        → sign_commitment w v.chain_id v.scoring_registry epoch v.brain_id (raw root) v.account
          ≡ ok signature
        → admit_candidate w v.chain_id v.scoring_registry repr
            (ok (candidate_payload v epoch scores signature))
          ≡ go (record {
            epoch = epoch;
            brain_id = v.brain_id;
            signer = v.account.address;
            scores = items_of (rows_json scores);
            signature = with_0x signature;
            own_root = root;
          })
    unfolding admit_candidate parse_candidate candidate_payload int_item text_item get_item to_int
        to_str to_list
    admit_candidate-candidate_payload {leaves} {root = root} read hashed signs =
        let (hashes, counts) = hashes_of-plain_leaf addresses v.brain_id scores small read in
        let rooted =
          build_merkle_root-hashes w (map (plain_leaf v.brain_id) scores) leaves hashes counts in
        rw (leaves_of-rows_json repr v.brain_id scores) (
          rw rooted (
            rw hashed (
              rw (recover-with_0x w v epoch (raw root) recovery signs)
                (rw (beq_refl (lower v.account.address))))))
