-- ===== src/Miner/Answers.antt =====
-- What the handlers of miner/src/basedai_miner/runtime.py leave behind: the work that the engine
-- was given, the batch that waits for redemption, and the charge that a reply proposes.
use based_ai.Prelude.{ℕ, ◌≡◌, ◌⊎◌, inl, inr, refl, none, arith, String, Bool-cases}
use based_ai.Prelude.Int.{ℤ, pos, ◌≤ℤ◌, ltb_ℤ}
use based_ai.Prelude.Result.{ok, Result-cases, Exn}
use based_ai.Prelude.Text.{Str}
use based_ai.Prelude.Json.{Json}
use based_ai.Web3.{Web3}
use based_ai.Miner.Flow.{Early-cases}
use based_ai.Miner.{
  Miner, Chain, Engine, Payload, Admitted, err, err_of, quote, sign_response, text_hash,
}
use based_ai.Miner.Handlers.{
  admit, handle_infer, serve, bill, worked, queued, charge_of, infer_json, malformed_request,
}
use based_ai.Miner.Admission.{IsAdmitted, admit-IsAdmitted}

-- What a request for inference does to the miner.
pub data InferStep (w : Web3) (chain : Chain) (now : ℕ) (m : Miner) (payload : Payload)
    : Miner → Type 0 where
  refused : InferStep w chain now m payload m
  unanswered :
      (a : Admitted)
      → IsAdmitted w chain now m payload a
      → InferStep w chain now m payload (worked a.prompt m)
  answered :
      (a : Admitted)
      → IsAdmitted w chain now m payload a
      → InferStep w chain now m payload (queued a (worked a.prompt m))

-- Whatever a payload holds, the miner stays as it was unless the request passed every check; then
-- one prompt is given to the engine, and where that answers, the preauthorization is queued.
pub handle_infer-InferStep :
    (w : Web3) (chain : Chain) (engine : Engine) (now : ℕ) (m : Miner) (payload : Payload)
    → InferStep w chain now m payload (handle_infer w chain engine now m payload).1
unfolding handle_infer serve
handle_infer-InferStep w chain engine now m payload =
    elim (Early-cases (admit w chain now m payload)) [
      | inl (a, admitted) ↦
          let checked = admit-IsAdmitted w chain now m payload admitted in
          elim (Result-cases (engine (record { prompt = a.prompt; seed = none }))) [
            | inl (text, answer) ↦
                rw (admitted, handle_infer) (rw (answer, serve) (answered a checked))
            | inr (e, raised) ↦
                rw (admitted, handle_infer) (rw (raised, serve) (unanswered a checked))
          ]
      | inr (inl (message, stopped)) ↦ rw (stopped, handle_infer) refused
      | inr (inr (e, failed)) ↦ rw (failed, handle_infer) refused
    ]

-- The reply to a request for inference: an error, or an answer with a charge that both the quote
-- and the budget that was verified bound.
pub data IsReply (w : Web3) (chain : Chain) (now : ℕ) (m : Miner) (engine : Engine)
    (payload : Payload) : Json → Type 0 where
  refusal : (message : String) → IsReply w chain now m engine payload (err message)
  failure : (e : Exn) → IsReply w chain now m engine payload (err_of malformed_request e)
  answer :
      (a : Admitted) (text signature : Str) (q : ℕ) (charge : ℤ)
      → IsAdmitted w chain now m payload a
      → engine (record { prompt = a.prompt; seed = none }) ≡ ok text
      → quote chain a.prompt text ≡ ok q
      → charge ≤ℤ pos q
      → charge ≤ℤ a.budget
      → (charge ≡ pos q) ⊎ (charge ≡ a.budget)
      → IsReply w chain now m engine payload (infer_json w a text charge signature)

charge_of-bounds :
    (q : ℕ) (budget : ℤ)
    → (charge_of q budget ≤ℤ pos q)
      × (charge_of q budget ≤ℤ budget)
      × ((charge_of q budget ≡ pos q) ⊎ (charge_of q budget ≡ budget))
charge_of-bounds q budget = elim (Bool-cases (ltb_ℤ budget (pos q))) [
  | inl below ↦ rw below (ground arith, ground arith, inr refl)
  | inr above ↦ rw above (ground arith, ground arith, inl refl)
]

module _ (w : Web3) (chain : Chain) (engine : Engine) (now : ℕ) (m : Miner)
    (payload : Payload) where
  bill-IsReply :
      (a : Admitted) (text : Str)
      → IsAdmitted w chain now m payload a
      → engine (record { prompt = a.prompt; seed = none }) ≡ ok text
      → IsReply w chain now m engine payload (bill w chain m a text)
  unfolding bill
  bill-IsReply a text checked response = elim (Result-cases (quote chain a.prompt text)) [
    | inr (e, raised) ↦ rw (raised, bill) (failure e)
    | inl (q, quoted) ↦
        elim (Result-cases (sign_response w m (text_hash w a.prompt) (text_hash w text))) [
          | inr (e, raised) ↦ rw (quoted, bill) (rw (raised, bill) (failure e))
          | inl (signature, signed) ↦
              let (of_quote, of_budget, either) = charge_of-bounds q a.budget in
              rw (quoted, bill)
                (rw (signed, bill)
                  (answer a text signature q (charge_of q a.budget) checked response quoted of_quote
                    of_budget either))
        ]
  ]

  -- Every reply to a request for inference is an error, or an answer to a request that passed
  -- every check, whose charge is the quote or the budget, and above neither. The request passed:
  -- the payload is within its size, the signature, the prompt, the receipt and the budget are those
  -- in it, the user signed the receipt, which binds the prompt, the prompt is within its length, the
  -- budget covers the receipt's amount, and the receipt is eligible for the budget.
  pub handle_infer-IsReply :
      IsReply w chain now m engine payload (handle_infer w chain engine now m payload).0
  unfolding handle_infer serve
  handle_infer-IsReply = elim (Early-cases (admit w chain now m payload)) [
    | inr (inl (message, stopped)) ↦ rw (stopped, handle_infer) (refusal message)
    | inr (inr (e, failed)) ↦ rw (failed, handle_infer) (failure e)
    | inl (a, admitted) ↦
        let checked = admit-IsAdmitted w chain now m payload admitted in
        elim (Result-cases (engine (record { prompt = a.prompt; seed = none }))) [
          | inr (e, raised) ↦ rw (admitted, handle_infer) (rw (raised, serve) (failure e))
          | inl (text, response) ↦
              rw (admitted, handle_infer)
                (rw (response, serve) (bill-IsReply a text checked response))
        ]
  ]
