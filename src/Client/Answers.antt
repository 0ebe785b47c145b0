-- ===== src/Client/Answers.antt =====
-- The miner's answer as the client reads it: `infer` of client/python/basedai_client/client.py with
-- `_handle_infer` and `_quote` of miner/src/basedai_miner/runtime.py.
use mathlib.Core.Path.{ap, sym}
use based_ai.Prelude.{ℕ, ◌≡◌, refl, Bool, true, false, ◌&&◌, some, arith, leb, Bool-cases, inl, inr}
use based_ai.Prelude.Eq.{◌==◌, nat_eq, int_eq, list_eq, beq_refl}
use based_ai.Prelude.Int.{ℤ, pos, ltb_ℤ, min_ℤ, int_beq_iff}
use based_ai.Prelude.Result.{ok, ok-injective, raise≢ok}
use based_ai.Prelude.Text.{Str, lower}
use based_ai.Prelude.Json.{str, int, get_item, get, to_int}
use based_ai.Client.Outcomes.{response_of}
use based_ai.Web3.{Web3}
use based_ai.Receipts.{Receipt, lower_of}
use based_ai.Miner.{Chain, Admitted, text_hash, count_words, quote}
use based_ai.Miner.Handlers.{final_receipt, infer_json, receipt_json, charge_of}
use based_ai.Client.{
  Request, parse_final, assert_identity, expected_charge, delivered, accept_final, read_answer,
  is_true, hash_text,
}

module _ (w : Web3) (float_true : ℤ → Str → Bool) where
  -- What the client reads of a miner's answer: the text, and the final receipt as it was proposed.
  pub read_answer-infer_json :
      (a : Admitted) (text : Str) (charge : ℤ) (signature : Str)
      → read_answer w float_true (ok (infer_json w a text charge signature))
        ≡ ok (text, some (receipt_json (final_receipt w a.receipt text charge)))
  unfolding read_answer infer_json get delivered get_item lower_of receipt_json is_true hash_text
      text_hash
  read_answer-infer_json a text charge signature = rw (beq_refl (lower (hash_text w text)))

  -- What the client reads at the end: every part is there.
  pub response_of-infer_json :
      (a : Admitted) (text : Str) (charge : ℤ) (signature miner : Str) (amount : ℤ)
      → response_of (ok (infer_json w a text charge signature)) text miner amount
        ≡ ok (record {
          text = text;
          miner = miner;
          prompt_hash = str (text_hash w a.prompt);
          response_hash = str (text_hash w text);
          tokens_in = int (pos (count_words false a.prompt));
          tokens_out = int (pos (count_words false text));
          amount = amount;
          miner_signature = str signature;
        })
  unfolding response_of infer_json get_item
  response_of-infer_json a text charge signature miner amount = refl

  pub parse_final-receipt_json : (r : Receipt) → parse_final (receipt_json r) ≡ ok r
  unfolding parse_final receipt_json get_item to_int
  parse_final-receipt_json r = refl

  module _ (req : Request) (preauth r : Receipt) (text : Str)
      (same : r ≡ record preauth { miner = r.miner })
      (miner : lower r.miner ≡ lower preauth.miner) where
    -- A miner that changes only the response's hash and the amount keeps the deal.
    assert_identity-final_receipt :
        (charge : ℤ) {prompt : Str}
        → lower_of preauth.prompt_hash ≡ ok prompt
        → assert_identity preauth (final_receipt w r text charge) ≡ ok tt
    unfolding assert_identity final_receipt
    assert_identity-final_receipt charge {prompt} hash = rw same (
        rw (beq_refl (lower preauth.user)) (
          rw miner (
            rw (beq_refl (lower preauth.miner)) (
              rw (beq_refl preauth.brain_id) (
                rw hash (
                  rw (beq_refl prompt)
                    (rw (beq_refl preauth.expiry) (rw (beq_refl preauth.nonce)))))))))

    module _ (price : ℕ × ℕ) (chain : Chain) (per_byte : chain.price_per_byte ≡ ok price.0)
        (per_request : chain.price_per_request ≡ ok price.1) where
      -- The miner's quote is what the client meters, and there is one only where a price is set.
      quote-expected_charge :
          {q : ℕ}
          → quote chain req.prompt text ≡ ok q
          → (charge_of q req.budget ≡ expected_charge price req text)
            × ((leb price.0 0 && leb price.1 0) ≡ false)
      unfolding quote expected_charge
      quote-expected_charge {q} quoted = elim (Bool-cases (leb price.0 0 && leb price.1 0)) [
        | inl free ↦ absurd (raise≢ok (rw (per_byte, per_request, free) at quoted))
        | inr priced ↦ (
          ap (λ n. min_ℤ (pos n) req.budget)
              (sym (ok-injective _ q (rw (per_byte, per_request, priced) at quoted))),
          priced,
        )
      ]

      -- What the miner charges is within the budget.
      charge_of-within : (q : ℕ) → ltb_ℤ req.budget (charge_of q req.budget) ≡ false
      charge_of-within q = ground arith

      pub accept_final-infer_json :
          {q : ℕ} {prompt : Str}
          → lower_of preauth.prompt_hash ≡ ok prompt
          → quote chain req.prompt text ≡ ok q
          → accept_final w price req preauth text
              (receipt_json (final_receipt w r text (charge_of q req.budget)))
            ≡ ok (final_receipt w r text (charge_of q req.budget))
      unfolding accept_final
      accept_final-infer_json {q} hash quoted =
          let charge = charge_of q req.budget in
          let final = final_receipt w r text charge in
          let (metered, priced) = quote-expected_charge quoted in
          let paid : (final.amount == expected_charge price req text) ≡ true =
            unfold final_receipt in
            (int_beq_iff charge (expected_charge price req text)).1 metered in
          let bound : lower_of final.response_hash ≡ ok (lower (hash_text w text)) =
            unfold final_receipt hash_text text_hash lower_of in refl in
          let within : ltb_ℤ req.budget final.amount ≡ false =
            unfold final_receipt in charge_of-within q in
          rw (parse_final-receipt_json final) (
            rw (assert_identity-final_receipt charge hash) (
              rw within
                (rw priced (rw paid (rw bound (rw (beq_refl (lower (hash_text w text)))))))))
