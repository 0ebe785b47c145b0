-- ===== src/Client/Requests.antt =====
-- A request for inference, from the client's `infer` of client/python/basedai_client/client.py to
-- the miner's `_handle_infer` of miner/src/basedai_miner/runtime.py.
use mathlib.Core.Path.{ap, sym}
use based_ai.Prelude.{inl, inr, [], ◌∷◌, ℕ, ◌≡◌, refl, true, false, some, arith, ltb, length}
use based_ai.Prelude.Eq.{nat_eq, list_eq, beq_refl}
use based_ai.Prelude.Int.{ℤ, pos, ◌≤ℤ◌, leb_ℤ}
use based_ai.Prelude.Result.{Result, ok, ◌>>=◌, >>=-eq-ok, ok-injective, Result-cases}
use based_ai.Prelude.Text.{Str, Bytes, lower}
use based_ai.Prelude.Json.{str, get_item, get, to_int}
use based_ai.Web3.{Web3, Account, HasRecovery, HasAddresses, address, uint256, uint64, bytes32}
use based_ai.Receipts.{
  Receipt, digest_fields, hash_bytes, receipt_digest, lower_of, verify_user_signature,
}
use based_ai.Miner.{
  Miner, Chain, max_payload_bytes, max_prompt_chars, text_hash, parse_receipt, prompt_text,
  budget_of,
}
use based_ai.Miner.Flow.{go}
use based_ai.Miner.Handlers.{admit}
use based_ai.Miner.Eligibility.{IsEligible, check_eligibility_iff}
use based_ai.Client.{
  Request, preauth_of, sign_receipt, serialize_receipt, infer_body, hash_text, expiry_of,
}
use based_ai.Client.Payment.{reservation_of-le}

-- The miner reads back the receipt that a client serialized, with its own checksum address.
pub parse_receipt-serialize_receipt :
    (w : Web3) (r : Receipt) (miner : Str)
    → w.to_checksum_address (str r.user) ≡ ok r.user
    → w.to_checksum_address (str r.miner) ≡ ok miner
    → parse_receipt w (serialize_receipt r) ≡ ok (record r { miner = miner })
unfolding parse_receipt serialize_receipt get_item to_int
parse_receipt-serialize_receipt w r miner user checksum = rw user (rw checksum)

-- A receipt has the digest of the one that names the miner by its checksum address.
pub receipt_digest-checksum :
    (w : Web3) (market : Str) (chain_id : ℤ) (r : Receipt) (miner : Str)
    → HasAddresses w
    → lower r.miner ≡ r.miner
    → w.to_checksum_address (str r.miner) ≡ ok miner
    → receipt_digest w market chain_id (record r { miner = miner })
      ≡ receipt_digest w market chain_id r
unfolding receipt_digest digest_fields
receipt_digest-checksum w market chain_id r miner addresses small checksum =
    elim (Result-cases (hash_bytes r.prompt_hash)) [
      | inr (e, raised) ↦ rw raised
      | inl (prompt_hash, prompt) ↦ elim (Result-cases (hash_bytes r.response_hash)) [
        | inr (e, raised) ↦ rw prompt (rw raised)
        | inl (response_hash, response) ↦
            let same =
              addresses.encodes (address market ∷ uint256 chain_id ∷ address r.user ∷ [])
                (uint256 r.brain_id
                  ∷ bytes32 prompt_hash
                  ∷ bytes32 response_hash
                  ∷ uint256 r.amount
                  ∷ uint64 r.expiry
                  ∷ uint256 r.nonce
                  ∷ [])
                r.miner miner small checksum in
            rw prompt (rw response (ap digest_of (sym same)))
      ]
    ]
  where
    digest_of : Result Bytes → Result Bytes
    digest_of encoding = do encoded ← encoding; ok (w.keccak encoded)

-- The miner verifies what the client signed, where it reads a receipt with the same digest.
pub verify-sign_receipt :
    (w : Web3) (account : Account) (market : Str) (chain_id : ℤ) (r read : Receipt)
    (signature : Str)
    → HasRecovery w account
    → read.user ≡ account.address
    → receipt_digest w market chain_id read ≡ receipt_digest w market chain_id r
    → sign_receipt w account market chain_id r ≡ ok signature
    → verify_user_signature w market chain_id read (str signature) ≡ ok true
unfolding sign_receipt verify_user_signature
verify-sign_receipt w account market chain_id r read signature recovery user digests signs =
    let (d, digest, same) =
      >>=-eq-ok (receipt_digest w market chain_id r) (λ d. ok (account.sign_message d)) signs in
    let recovered : w.recover_message d (str signature) ≡ ok account.address =
      rw (← ok-injective (account.sign_message d) signature same) (recovery.recovers d) in
    rw digests (rw digest (rw recovered (rw user (rw (beq_refl (lower account.address))))))

budget_of-infer_body :
    (req : Request) (preauth : Receipt) (signature : Str)
    → preauth.amount ≤ℤ req.budget
    → budget_of (infer_body req preauth signature) preauth.amount ≡ ok req.budget
unfolding budget_of infer_body get to_int
budget_of-infer_body req preauth signature within = ground arith

module _ (w : Web3) (account : Account) (chain : Chain) (now : ℕ) (m : Miner) (listed : Str)
    (sent_at : ℤ) (nonce : ℕ) (req : Request) where
  -- The preauthorization that the client signs for the miner, under the address that is listed.
  abbrev pub preauth_for : Receipt
  preauth_for = preauth_of w account sent_at nonce listed req

  -- The same as the miner reads it.
  abbrev pub read_for : Receipt
  read_for = record preauth_for { miner = m.account.address }

  -- The state of the market in which the miner serves the request: the account's deposit covers the
  -- budget, the nonce is new and the receipt has not expired. The gateway lists the miner in small letters.
  pub record IsServable : Type 0 where
    pub brain : req.brain_id ≡ m.brain_id
    pub user : w.to_checksum_address (str account.address) ≡ ok account.address
    pub small : lower listed ≡ listed
    pub miner : w.to_checksum_address (str listed) ≡ ok m.account.address
    pub unexpired : leb_ℤ (expiry_of sent_at req.expiry) (pos now) ≡ false
    pub unused : chain.used_nonce account.address (pos nonce) ≡ ok false
    pub balance : ℕ
    pub funded : chain.balance_of account.address ≡ ok balance
    pub covered : req.budget ≤ℤ pos balance
    pub short : ltb max_prompt_chars (length req.prompt) ≡ false

  pub read_for-IsEligible : IsServable → IsEligible w chain now m read_for req.budget
  unfolding preauth_of
  read_for-IsEligible s = record {
    brain = s.brain;
    miner = refl;
    unexpired = s.unexpired;
    user = account.address;
    checksum = s.user;
    unused = s.unused;
    balance = s.balance;
    funded = s.funded;
    covered = s.covered;
  }

  pub preauth_hash : lower_of preauth_for.prompt_hash ≡ ok (lower (text_hash w req.prompt))
  unfolding preauth_of hash_text text_hash lower_of
  preauth_hash = refl

  -- The miner takes up a request that a client sends it, with the client's receipt and budget:
  -- where the account's deposit covers the budget, the nonce is new, the receipt has not expired,
  -- and the body and the prompt are within the bounds.
  pub admit-infer_body :
      (size : ℕ) (signature : Str)
      → HasRecovery w account
      → HasAddresses w
      → IsServable
      → ltb max_payload_bytes size ≡ false
      → sign_receipt w account m.market m.chain_id preauth_for ≡ ok signature
      → admit w chain now m
          (record { size = size; parsed = ok (infer_body req preauth_for signature) })
        ≡ go (record {
          receipt = read_for;
          signature = str signature;
          prompt = req.prompt;
          budget = req.budget;
        })
  unfolding admit infer_body get_item prompt_text lower_of
  admit-infer_body size signature recovery addresses s small signs =
      let miner : w.to_checksum_address (str preauth_for.miner) ≡ ok m.account.address =
        unfold preauth_of in s.miner in
      let read =
        parse_receipt-serialize_receipt w preauth_for m.account.address
          (unfold preauth_of in s.user) miner in
      let digest =
        receipt_digest-checksum w m.market m.chain_id preauth_for m.account.address addresses
          (unfold preauth_of in s.small) miner in
      let valid =
        verify-sign_receipt w account m.market m.chain_id preauth_for read_for signature recovery
          (unfold preauth_of in refl) digest signs in
      let eligible =
        (check_eligibility_iff w chain now m read_for (some req.budget)).1
          (read_for-IsEligible s) in
      let budget =
        budget_of-infer_body req preauth_for signature
          (unfold preauth_of in reservation_of-le req) in
      rw small (
        rw s.short (
          rw read (
            rw preauth_hash (
              rw (beq_refl (lower (text_hash w req.prompt)))
                (rw valid (rw budget (rw eligible)))))))
