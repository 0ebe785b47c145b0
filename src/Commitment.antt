-- ===== src/Commitment.antt =====
-- validator/src/basedai_validator/commitment.py: the digest that validators sign for an epoch, and
-- `_normalize_root` of aggregator.py, which makes one dictionary key of a root's two forms.
pub mod Agreement
use based_ai.Prelude.{ℕ, List, [], ◌∷◌, ◌++◌, if◌then◌else◌, length, nat_beq, drop}
use based_ai.Prelude.Int.{ℤ}
use based_ai.Prelude.Result.{Result, ok, raise, value_error, ◌>>=◌, or_raise}
use based_ai.Prelude.Text.{Str, Bytes, codes, has_0x, to_hex, from_hex, lower}
use based_ai.Prelude.Json.{Json}
use based_ai.Web3.{Web3, Account, uint256, uint64, address, bytes32}

-- `root: bytes | str`
pub data Root : Type 0 where
  raw : Bytes → Root
  hex : Str → Root

-- `"0x" + root.hex()`
abbrev pub hex_root : Bytes → Str
hex_root root = codes "0x" ++ to_hex root

unfoldable pub normalize_root : Root → Str
normalize_root (raw root) = lower (hex_root root)
normalize_root (hex root) = lower root

abbrev check_width : Bytes → Result Bytes
check_width root = if nat_beq (length root) 32 then ok root else raise value_error

unfoldable pub as_root_bytes : Root → Result Bytes
as_root_bytes (raw root) = check_width root
as_root_bytes (hex root) = do
  bytes ← or_raise value_error (from_hex (if has_0x root then drop 2 root else root))
  check_width bytes

module _ (w : Web3) where
  unfoldable pub domain_tag : Bytes
  domain_tag = w.keccak_text (codes "BasedAI:ScoringRegistry:v2")

  module _ (chain_id : ℤ) (scoring_registry : Str) (epoch brain_id : ℤ) (root : Root) where
    unfoldable pub commitment_digest : Result Bytes
    unfolding domain_tag as_root_bytes
    commitment_digest = do
      registry ← w.to_checksum_address (Json.str scoring_registry)
      root_bytes ← as_root_bytes root
      encoded ← w.abi_encode (
          bytes32 domain_tag
          ∷ uint256 chain_id
          ∷ address registry
          ∷ uint64 epoch
          ∷ uint256 brain_id
          ∷ bytes32 root_bytes
          ∷ [])
      ok (w.keccak encoded)

    unfoldable pub sign_commitment : Account → Result Str
    sign_commitment account = do digest ← commitment_digest; ok (account.sign_message digest)

    unfoldable pub recover_commitment_signer : Json → Result Str
    recover_commitment_signer signature = do
      digest ← commitment_digest
      w.recover_message digest signature
