-- ===== src/Client/Delivery.antt =====
-- An inference from end to end: `infer` of client/python/basedai_client/client.py with the miner's
-- `_handle_infer` and `_handle_settle` of miner/src/basedai_miner/runtime.py.
use mathlib.Core.List.{append-nil}
use mathlib.Core.Path.{ap}
use based_ai.Prelude.{
  ℕ, ◌≡◌, refl, Bool, true, false, not, some, none, [], ◌∷◌, ◌++◌, select, select-append, arith,
  ltb,
}
use based_ai.Prelude.Eq.{nat_eq, int_eq, list_eq, beq_refl}
use based_ai.Prelude.Int.{ℤ, pos}
use based_ai.Prelude.Result.{ok}
use based_ai.Prelude.Text.{Str, lower}
use based_ai.Prelude.Json.{Json, str, int, get_item}
use based_ai.Web3.{Web3, Account, HasRecovery, HasAddresses, HasChecksum}
use based_ai.Receipts.{Receipt, add, add_or_replace, same_slot}
use based_ai.Miner.Flow.{go}
use based_ai.Miner.Eligibility.{IsEligible, check_eligibility_iff}
use based_ai.Miner.{
  Miner, Chain, Payload, Engine, Admitted, text_hash, count_words, quote, sign_response,
  max_payload_bytes,
}
use based_ai.Miner.Handlers.{
  final_receipt, infer_json, receipt_json, charge_of, handle_infer, handle_settle, serve, bill,
  is_zero_hash, admit_settle, queued, worked,
}
use based_ai.Client.{Request, sign_receipt, infer_body, settle_body, preauth_of, read_answer}
use based_ai.Client.Outcomes.{infer, settle_answer, countersign}
use based_ai.Client.Requests.{
  preauth_for, preauth_hash, IsServable, admit-infer_body, parse_receipt-serialize_receipt,
  verify-sign_receipt, read_for-IsEligible, read_for,
}
use based_ai.Client.Answers.{
  read_answer-infer_json, response_of-infer_json, accept_final-infer_json,
}

-- A client with an open gateway to an honest miner, whose market sells at the price that the client
-- reads, where the engine answers and the miner can sign.
module _ (w : Web3) (float_true : ℤ → Str → Bool) (account : Account) (chain : Chain) (now : ℕ)
    (m : Miner) (listed : Str) (engine : Engine) (sent_at : ℤ) (nonce : ℕ) (req : Request)
    (size : Str → ℕ) where
  abbrev preauth : Receipt
  preauth = preauth_for w account chain now m listed sent_at nonce req

  -- The same as the miner reads and keeps it.
  abbrev kept : Receipt
  kept = read_for w account chain now m listed sent_at nonce req

  -- The payload that reaches the miner, and what the miner does with it.
  abbrev payload_of : Str → Payload
  payload_of signature = record {
    size = size signature;
    parsed = ok (infer_body req preauth signature);
  }

  abbrev pub handled : Str → Json × Miner
  handled signature = handle_infer w chain engine now m (payload_of signature)

  pub record IsOpen (price : ℕ × ℕ) (text : Str) (q : ℕ) : Type 0 where
    pub servable : IsServable w account chain now m listed sent_at nonce req
    pub small : (signature : Str) → ltb max_payload_bytes (size signature) ≡ false
    pub per_byte : chain.price_per_byte ≡ ok price.0
    pub per_request : chain.price_per_request ≡ ok price.1
    pub answers : engine (record { prompt = req.prompt; seed = none }) ≡ ok text
    pub quoted : quote chain req.prompt text ≡ ok q
    pub signature : Str
    pub signs : sign_response w m (text_hash w req.prompt) (text_hash w text) ≡ ok signature

  -- The receipt that the two agree on.
  abbrev pub final_for : Str → ℕ → Receipt
  final_for text q = final_receipt w kept text (charge_of q req.budget)

  module _ (recovery : HasRecovery w account) (addresses : HasAddresses w)
      (checksums : HasChecksum w) {price : ℕ × ℕ} {text : Str} {q : ℕ}
      (served : IsOpen price text q) {preauth_signature final_signature : Str}
      (first : sign_receipt w account m.market m.chain_id preauth ≡ ok preauth_signature)
      (last : sign_receipt w account m.market m.chain_id (final_for text q)
        ≡ ok final_signature) where
    abbrev admitted : Admitted
    admitted = record {
      receipt = kept;
      signature = str preauth_signature;
      prompt = req.prompt;
      budget = req.budget;
    }

    handle_infer-infer_body : handled preauth_signature ≡ (
      infer_json w admitted text (charge_of q req.budget) served.signature,
      queued admitted (worked req.prompt m),
    )
    unfolding handle_infer serve bill
    handle_infer-infer_body =
        let went =
          admit-infer_body w account chain now m listed sent_at nonce req (size preauth_signature)
            preauth_signature recovery addresses served.servable (served.small preauth_signature)
            first in
        rw (went, handle_infer)
          (rw (served.answers, serve) (rw (served.quoted, bill) (rw (served.signs, bill))))

    -- An inference goes through where the miner's handler is what answers the client, the user's
    -- signatures recover, the deposit covers the budget, the nonce is new, nothing has expired, the
    -- prompt and the body are within the bounds, the market has the price that the client reads, and
    -- the engine answers: the client signs the preauthorization and the final receipt, and returns the
    -- engine's text with the miner's hashes, token counts and signature; the amount is the quote, or
    -- the budget where that is less.
    pub infer-served :
        infer w float_true price
          (sign_receipt w account m.market m.chain_id)
          req
          preauth
          (λ signature. ok (handled signature).0)
        ≡ record {
          signed = (preauth, preauth_signature) ∷ (final_for text q, final_signature) ∷ [];
          returned = ok (record {
            text = text;
            miner = listed;
            prompt_hash = str (text_hash w req.prompt);
            response_hash = str (text_hash w text);
            tokens_in = int (pos (count_words false req.prompt));
            tokens_out = int (pos (count_words false text));
            amount = charge_of q req.budget;
            miner_signature = str served.signature;
          });
        }
    unfolding infer settle_answer countersign final_receipt preauth_of
    infer-served =
        let taken =
          accept_final-infer_json w float_true req preauth kept text refl
            (unfold preauth_of in checksums.keeps listed m.account.address served.servable.miner)
            price chain served.per_byte served.per_request
            (preauth_hash w account chain now m listed sent_at nonce req) served.quoted in
        let read : read_answer w float_true (ok (handled preauth_signature).0)
            ≡ ok (text, some (receipt_json (final_for text q))) =
          rw handle_infer-infer_body (
            read_answer-infer_json w float_true admitted text (charge_of q req.budget)
              served.signature) in
        let rest =
          response_of-infer_json w float_true admitted text (charge_of q req.budget)
            served.signature preauth.miner (charge_of q req.budget) in
        rw (first, infer)
          (rw (read, settle_answer)
            (rw taken (rw (last, countersign) (rw handle_infer-infer_body (rw rest refl)))))

    -- The receipts of one deal take each other's place in the batch.
    same_slot-final : same_slot kept (final_for text q) ≡ true
    unfolding same_slot final_receipt
    same_slot-final = rw (beq_refl (lower kept.user)) (rw (beq_refl kept.nonce))

    -- The preauthorization that was queued is replaced by the final receipt.
    replaced :
        add_or_replace
          (final_for text q)
          (str final_signature)
          (add kept (str preauth_signature) m.batcher)
        ≡ add_or_replace (final_for text q) (str final_signature) m.batcher
    unfolding add add_or_replace
    replaced =
        ap (λ l. record m.batcher { pending = l ++ (final_for text q, str final_signature) ∷ [] })
          (rw
            (select-append (λ p. not (same_slot p.0 (final_for text q))) m.batcher.pending
              ((kept, str preauth_signature) ∷ []))
            (rw same_slot-final (
              append-nil (select (λ p. not (same_slot p.0 (final_for text q))) m.batcher.pending))))

    -- The final receipt is eligible where the preauthorization was.
    final-IsEligible :
        (chain' : Chain) (now' : ℕ)
        → IsEligible w chain' now' m kept req.budget
        → IsEligible w chain' now'
            (queued admitted (worked req.prompt m))
            (final_for text q)
            (final_for text q).amount
    unfolding final_receipt
    final-IsEligible chain' now' e = record {
      brain = e.brain;
      miner = e.miner;
      unexpired = e.unexpired;
      user = e.user;
      checksum = e.checksum;
      unused = e.unused;
      balance = e.balance;
      funded = e.funded;
      covered = ground (arith, e.covered);
    }

    module _ (chain' : Chain) (now' : ℕ) (size' : ℕ)
        (later : IsServable w account chain' now' m listed sent_at nonce req)
        (own : w.to_checksum_address (str m.account.address) ≡ ok m.account.address)
        (delivered : is_zero_hash (str (text_hash w text)) ≡ false) where
      admit_settle-settle_body :
          admit_settle w chain' now'
            (handled preauth_signature).1
            (record { size = size'; parsed = ok (settle_body (final_for text q, final_signature)) })
          ≡ go (final_for text q, str final_signature)
      unfolding admit_settle settle_body get_item final_receipt
      admit_settle-settle_body =
          let read =
            parse_receipt-serialize_receipt w (final_for text q) m.account.address
              (unfold preauth_of in later.user) own in
          let valid =
            verify-sign_receipt w account m.market m.chain_id (final_for text q) (final_for text q)
              final_signature recovery (unfold preauth_of in refl) refl last in
          let eligible =
            (check_eligibility_iff w chain' now' (queued admitted (worked req.prompt m))
                (final_for text q) none).1
              (final-IsEligible chain' now'
                (read_for-IsEligible w account chain' now' m listed sent_at nonce req later)) in
          rw handle_infer-infer_body (rw read (rw delivered (rw valid (rw eligible))))

      -- The settlement that the client posts after such an inference goes through too, where the same
      -- holds of the market by then and the hash of the text is not zero: the miner's batch is then the
      -- one before, with the final receipt in place of any receipt of the same user and nonce.
      pub handle_settle-served :
          (handle_settle w chain' now' (handled preauth_signature).1 (record {
            size = size';
            parsed = ok (settle_body (final_for text q, final_signature));
          })).1.batcher
          ≡ add_or_replace (final_for text q) (str final_signature) m.batcher
      unfolding handle_settle
      handle_settle-served =
          rw (admit_settle-settle_body, handle_settle) (rw handle_infer-infer_body replaced)
