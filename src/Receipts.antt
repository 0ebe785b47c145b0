-- ===== src/Receipts.antt =====
-- miner/src/basedai_miner/receipts.py: the receipt, its digest, and the batch of receipts that wait
-- for redemption. The two hashes of a receipt come from the request as they are, so they may be
-- any JSON value.
pub mod Batch
use based_ai.Prelude.{
  ℕ, Bool, true, false, not, ◌&&◌, List, [], ◌∷◌, ◌++◌, leb, length, drop, select, if◌then◌else◌,
}
use based_ai.Prelude.Eq.{◌==◌, nat_eq, int_eq, list_eq}
use based_ai.Prelude.Int.{ℤ}
use based_ai.Prelude.Result.{Result, ok, raise, value_error, type_error, other, ◌>>=◌, or_raise}
use based_ai.Prelude.Text.{Str, Bytes, codes, to_hex, from_hex, lower}
use based_ai.Prelude.Json.{Json, str}
use based_ai.Web3.{Web3, AbiValue, uint256, uint64, address, bytes32}

pub record Receipt : Type 0 where
  pub user : Str
  pub miner : Str
  pub brain_id : ℤ
  pub prompt_hash : Json
  pub response_hash : Json
  pub amount : ℤ
  pub expiry : ℤ
  pub nonce : ℤ

-- `bytes.fromhex(h[2:])`
unfoldable pub hash_bytes : Json → Result Bytes
hash_bytes (str h) = or_raise value_error (from_hex (drop 2 h))
hash_bytes _ = raise type_error

-- `h.lower()`; AttributeError on what is no text
unfoldable pub lower_of : Json → Result Str
lower_of (str h) = ok (lower h)
lower_of _ = raise other

-- The arguments of the digest, in the order of the on-chain encoding.
unfoldable pub digest_fields : Str → ℤ → Receipt → Bytes → Bytes → List AbiValue
digest_fields market chain_id r prompt_hash response_hash =
    address market
    ∷ uint256 chain_id
    ∷ address r.user
    ∷ address r.miner
    ∷ uint256 r.brain_id
    ∷ bytes32 prompt_hash
    ∷ bytes32 response_hash
    ∷ uint256 r.amount
    ∷ uint64 r.expiry
    ∷ uint256 r.nonce
    ∷ []

module _ (w : Web3) (market : Str) (chain_id : ℤ) where
  unfoldable pub receipt_digest : Receipt → Result Bytes
  receipt_digest r = do
    prompt_hash ← hash_bytes r.prompt_hash
    response_hash ← hash_bytes r.response_hash
    encoded ← w.abi_encode (digest_fields market chain_id r prompt_hash response_hash)
    ok (w.keccak encoded)

  unfoldable pub verify_user_signature : Receipt → Json → Result Bool
  verify_user_signature r signature = do
    digest ← receipt_digest r
    recovered ← w.recover_message digest signature
    ok (lower recovered == lower r.user)

-- A receipt with the user's signature.
abbrev pub Signed : Type 0
Signed = Receipt × Json

pub record Batcher : Type 0 where
  pub batch_size : ℕ
  pub pending : List Signed

unfoldable pub add : Receipt → Json → Batcher → Batcher
add r signature b = record b { pending = b.pending ++ (r, signature) ∷ [] }

-- `r.user.lower() == receipt.user.lower() and r.nonce == receipt.nonce`
unfoldable pub same_slot : Receipt → Receipt → Bool
same_slot a b = lower a.user == lower b.user && a.nonce == b.nonce

unfoldable pub add_or_replace : Receipt → Json → Batcher → Batcher
unfolding same_slot
add_or_replace r signature b = record b {
  pending = select (λ p. not (same_slot p.0 r)) b.pending ++ (r, signature) ∷ [];
}

unfoldable pub should_flush : Batcher → Bool
should_flush b = leb b.batch_size (length b.pending)

-- Redeeming one receipt, on the node as it then is: the hash of the transaction that was sent, or what
-- building, signing or sending it raised; and the node after it, which may have taken the
-- transaction even where sending it raised.
abbrev pub Redeem : Type 0 → Type 0
Redeem S = Signed → S → Result Str × S

-- The loop of `flush`, in the order of the batch. It gives the hashes and what is kept, and the node
-- after it.
unfoldable pub flush_loop : {S : Type 0} → Redeem S → List Signed → S → (List Str × List Signed) × S
flush_loop redeem [] s = (([], []), s)
flush_loop redeem (p ∷ pending) s =
    let here = redeem p s in
    let rest = flush_loop redeem pending here.1 in
    (
      elim here.0 [ ok hash ↦ (hash ∷ rest.0.0, rest.0.1) | raise e ↦ (rest.0.0, p ∷ rest.0.1) ],
      rest.1,
    )

unfoldable pub flush : {S : Type 0} → Redeem S → S → Batcher → (List Str × Batcher) × S
unfolding flush_loop
flush redeem s b =
    let done = flush_loop redeem b.pending s in
    ((done.0.0, record b { pending = done.0.1 }), done.1)
