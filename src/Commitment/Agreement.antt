-- ===== src/Commitment/Agreement.antt =====
-- The signer and the aggregator agree on the digest, whichever form of the root each has.
use based_ai.Prelude.{◌≡◌, All, length}
use based_ai.Prelude.Int.{ℤ}
use based_ai.Prelude.Result.{ok, >>=-eq-ok}
use based_ai.Prelude.Text.{Str, Bytes, IsByte, from_hex-to_hex}
use based_ai.Prelude.Json.{Json}
use based_ai.Web3.{Web3, Account, HasRecovery}
use based_ai.Commitment.{
  Root, raw, hex, hex_root, as_root_bytes, commitment_digest, sign_commitment,
  recover_commitment_signer,
}

-- The two forms of a root of 32 bytes are one root.
pub as_root_bytes-hex_root :
    (root : Bytes)
    → All IsByte root
    → length root ≡ 32
    → (as_root_bytes (hex (hex_root root)) ≡ ok root) × (as_root_bytes (raw root) ≡ ok root)
unfolding as_root_bytes
as_root_bytes-hex_root root bytes width =
    (rw (from_hex-to_hex root bytes, as_root_bytes) (rw width), rw width)

module _ (w : Web3) (chain_id : ℤ) (registry : Str) (epoch brain_id : ℤ) where
  -- The digest of a root of 32 bytes is the same from its bytes and from its hexadecimal form.
  pub commitment_digest-hex_root :
      (root : Bytes)
      → All IsByte root
      → length root ≡ 32
      → commitment_digest w chain_id registry epoch brain_id (hex (hex_root root))
        ≡ commitment_digest w chain_id registry epoch brain_id (raw root)
  unfolding commitment_digest
  commitment_digest-hex_root root bytes width =
      let (text, plain) = as_root_bytes-hex_root root bytes width in rw (text, plain)

  -- A signature that an account makes recovers to that account's address, for the same fields.
  pub recover-sign_commitment :
      (a : Account) (root : Root) {signature : Str}
      → HasRecovery w a
      → sign_commitment w chain_id registry epoch brain_id root a ≡ ok signature
      → recover_commitment_signer w chain_id registry epoch brain_id root (Json.str signature)
        ≡ ok a.address
  unfolding sign_commitment recover_commitment_signer
  recover-sign_commitment a root recovery h =
      let (d, digest, signed) =
        >>=-eq-ok (commitment_digest w chain_id registry epoch brain_id root)
          (λ d. ok (a.sign_message d)) h in
      rw (digest, recover_commitment_signer) (cc (recovery.recovers d))
