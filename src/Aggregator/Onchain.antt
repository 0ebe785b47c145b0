-- ===== src/Aggregator/Onchain.antt =====
-- `from_chain` of validator/src/basedai_validator/aggregator.py: the stakes that are read from the chain,
-- and the transaction that submits a root.
use based_ai.Prelude.{ℕ, ◌≡◌, true, List, drop, if◌then◌else◌}
use based_ai.Prelude.Int.{ℤ}
use based_ai.Prelude.Result.{
  Result, ok, raise, value_error, or_raise, traverse, >>=-eq-ok, ok-injective,
}
use based_ai.Prelude.Result
use based_ai.Prelude.Text.{Str, Bytes, has_0x, from_hex}
use based_ai.Prelude.Json.{str}
use based_ai.Web3.{Web3, Account}
use based_ai.Transactions.{
  Transaction, propose_epoch, Io, Node, ◌>>=◌, ask, lift, transact, IsLedger, Adds, Submitted,
  transact-Submitted,
}

-- The view of the vault is read for the checksum address.
unfoldable pub chain_stake_of : Web3 → (ℤ → Str → Result ℕ) → ℤ → Str → Result ℕ
chain_stake_of w validator_stake brain_id addr =
    Result.◌>>=◌ (w.to_checksum_address (str addr)) (λ checksum. validator_stake brain_id checksum)

-- `bytes.fromhex(s[2:] if s.startswith("0x") else s)`
abbrev pub signature_bytes : Str → Result Bytes
signature_bytes s = or_raise value_error (from_hex (if has_0x s then drop 2 s else s))

module _ {S : Type 0} (node : Node S) (account : Account) (scoring : Str) (epoch brain_id : ℤ)
    (root_bytes : Bytes) (signers sigs : List Str) where
  unfoldable pub propose_fn : Io S Str
  propose_fn = do
    sig_bytes ← lift (traverse signature_bytes sigs)
    nonce ← ask (node.transaction_count true account.address)
    transact node (record {
      to = scoring;
      sender = account.address;
      nonce = nonce;
      call = propose_epoch epoch brain_id root_bytes signers sig_bytes;
    })

  -- The submission sends one transaction at most: that of the root with its signers and, in the same
  -- order, the bytes of their signatures, under the account's next nonce.
  pub propose_fn-Submitted :
      (sent : S → List Transaction) (s : S) {sig_bytes : List Bytes} {n : ℕ}
      → IsLedger node sent
      → traverse signature_bytes sigs ≡ ok sig_bytes
      → node.transaction_count true account.address s ≡ ok n
      → Adds sent s (propose_fn s) (
          Submitted (record {
            to = scoring;
            sender = account.address;
            nonce = n;
            call = propose_epoch epoch brain_id root_bytes signers sig_bytes;
          }))
  unfolding propose_fn
  propose_fn-Submitted sent s ledger decoded count =
      rw (decoded, count) (transact-Submitted node sent _ s ledger)
