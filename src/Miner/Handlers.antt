-- ===== src/Miner/Handlers.antt =====
-- `_handle_infer`, `_handle_settle` and `_handle_challenge` of miner/src/basedai_miner/runtime.py.
-- A handler returns its reply and the miner that it leaves.
use based_ai.Prelude.{
  ℕ, zero, suc, Bool, true, false, not, Option, none, some, String, [], ◌∷◌, ◌++◌, ltb,
}
use based_ai.Prelude.Eq.{◌==◌, nat_eq, list_eq}
use based_ai.Prelude.Int.{ℤ, pos, min_ℤ}
use based_ai.Prelude.Result.{Result, ok, raise}
use based_ai.Prelude.Text.{Str, codes, lower}
use based_ai.Prelude.Json.{Json, bool, int, str, obj, field, end, get_item}
use based_ai.Web3.{Web3}
use based_ai.Receipts.{Receipt, add, add_or_replace, lower_of, verify_user_signature}
use based_ai.Miner.Flow.{Stage, go, stop, fail, ◌>>=◌, ◌>>◌, lift, refuse_if, stop_if}
use based_ai.Miner.{
  Miner, Chain, Engine, Payload, Admitted, max_payload_bytes, err, err_of, text_hash, count_words,
  quote, check_eligibility, parse_receipt, prompt_text, budget_of, challenge_digest, sign_response,
  seed_of,
}

-- `r.response_hash == "0x" + "00" * 32`
abbrev zeros : ℕ → Str
zeros zero = []
zeros (suc n) = 48 ∷ zeros n

unfoldable pub is_zero_hash : Json → Bool
is_zero_hash (str h) = h == codes "0x" ++ zeros 64
is_zero_hash _ = false

-- The `try` around `isValidator`.
abbrev pub judge_validator : Result Bool → Option String
judge_validator (raise e) = some "validator check failed"
judge_validator (ok false) = some "not a registered validator"
judge_validator (ok true) = none

module _ (w : Web3) (chain : Chain) (now : ℕ) (m : Miner) where
  -- `_handle_infer`, up to the call of the engine.
  unfoldable pub admit : Payload → Stage Admitted
  admit payload = do
    refuse_if (ltb max_payload_bytes payload.size) "payload too large"
    request ← lift payload.parsed
    signature ← lift (get_item request "user_signature")
    receipt_data ← lift (get_item request "receipt")
    prompt_value ← lift (get_item request "prompt")
    prompt ← prompt_text prompt_value
    r ← lift (parse_receipt w receipt_data)
    given_hash ← lift (lower_of r.prompt_hash)
    refuse_if (not (given_hash == lower (text_hash w prompt))) "prompt hash mismatch"
    valid ← lift (verify_user_signature w m.market m.chain_id r signature)
    refuse_if (not valid) "bad signature"
    budget ← lift (budget_of request r.amount)
    stop_if (check_eligibility w chain now m r (some budget))
    go (record { receipt = r; signature = signature; prompt = prompt; budget = budget })

  -- `_handle_settle`, up to the call of the batcher.
  unfoldable pub admit_settle : Payload → Stage (Receipt × Json)
  admit_settle payload = do
    request ← lift payload.parsed
    receipt_data ← lift (get_item request "receipt")
    signature ← lift (get_item request "user_signature")
    r ← lift (parse_receipt w receipt_data)
    refuse_if (is_zero_hash r.response_hash) "final receipt must bind a delivered response"
    valid ← lift (verify_user_signature w m.market m.chain_id r signature)
    refuse_if (not valid) "bad signature"
    stop_if (check_eligibility w chain now m r none)
    go (r, signature)

  -- `_handle_challenge`, up to the call of the engine: the prompt and the seed.
  unfoldable pub admit_challenge : Payload → Stage (Str × ℤ)
  admit_challenge payload = do
    refuse_if (ltb max_payload_bytes payload.size) "payload too large"
    request ← lift payload.parsed
    prompt_value ← lift (get_item request "prompt")
    validator_value ← lift (get_item request "validator")
    validator ← lift (w.to_checksum_address validator_value)
    signature ← lift (get_item request "validator_signature")
    seed ← lift (seed_of request)
    prompt ← prompt_text prompt_value
    digest ← lift (challenge_digest w m.brain_id prompt seed)
    recovered ← lift (w.recover_message digest signature)
    refuse_if (not (lower recovered == lower validator)) "bad validator signature"
    stop_if (judge_validator (chain.is_validator m.brain_id validator))
    go (prompt, seed)

-- `receipt` as a dict
unfoldable pub receipt_json : Receipt → Json
receipt_json r = obj (
    field "user" (str r.user) (
      field "miner" (str r.miner) (
        field "brain_id" (int r.brain_id) (
          field "prompt_hash" r.prompt_hash (
            field "response_hash" r.response_hash (
              field "amount" (int r.amount)
                (field "expiry" (int r.expiry) (field "nonce" (int r.nonce) end))))))))

-- The final receipt that the miner proposes: the delivered output and the charge.
unfoldable pub final_receipt : Web3 → Receipt → Str → ℤ → Receipt
final_receipt w r text charge = record r { response_hash = str (text_hash w text); amount = charge }

unfoldable pub infer_json : Web3 → Admitted → Str → ℤ → Str → Json
unfolding receipt_json final_receipt count_words
infer_json w a text charge signature = obj (
    field "text" (str text) (
      field "prompt_hash" (str (text_hash w a.prompt)) (
        field "response_hash" (str (text_hash w text)) (
          field "tokens_in" (int (pos (count_words false a.prompt))) (
            field "tokens_out" (int (pos (count_words false text))) (
              field "final_receipt" (receipt_json (final_receipt w a.receipt text charge))
                (field "miner_signature" (str signature) end)))))))

abbrev pub malformed_request : String
malformed_request = "malformed request"

-- The engine is asked for a completion.
abbrev pub worked : Str → Miner → Miner
worked prompt m = record m { work = m.work ++ prompt ∷ [] }

-- The signed preauthorization is queued once the engine has answered.
abbrev pub queued : Admitted → Miner → Miner
queued a m = record m { batcher = add a.receipt a.signature m.batcher }

abbrev pub charge_of : ℕ → ℤ → ℤ
charge_of q budget = min_ℤ (pos q) budget

module _ (w : Web3) (chain : Chain) where
  -- What follows the queueing: the charge, the signature and the reply.
  unfoldable pub bill : Miner → Admitted → Str → Json
  bill m a text = elim (quote chain a.prompt text) [
    | raise e ↦ err_of malformed_request e
    | ok q ↦ elim (sign_response w m (text_hash w a.prompt) (text_hash w text)) [
      | raise e ↦ err_of malformed_request e
      | ok signature ↦ infer_json w a text (charge_of q a.budget) signature
    ]
  ]

  unfoldable pub serve : Engine → Miner → Admitted → Json × Miner
  unfolding bill
  serve engine m a =
      let asked = worked a.prompt m in
      elim (engine (record { prompt = a.prompt; seed = none })) [
        | raise e ↦ (err_of malformed_request e, asked)
        | ok text ↦ (bill m a text, queued a asked)
      ]

  unfoldable pub handle_infer : Engine → ℕ → Miner → Payload → Json × Miner
  handle_infer engine now m payload = elim (admit w chain now m payload) [
    | stop message ↦ (err message, m)
    | fail e ↦ (err_of malformed_request e, m)
    | go a ↦ serve engine m a
  ]

  unfoldable pub handle_settle : ℕ → Miner → Payload → Json × Miner
  handle_settle now m payload = elim (admit_settle w chain now m payload) [
    | stop message ↦ (err message, m)
    | fail e ↦ (err_of "malformed settle" e, m)
    | go (r, signature) ↦ (
      obj (field "ok" (bool true) end),
      record m { batcher = add_or_replace r signature m.batcher },
    )
  ]

  unfoldable pub challenge_json : Miner → Str → Str → Json
  challenge_json m prompt text = elim (sign_response w m (text_hash w prompt) (text_hash w text)) [
    | raise e ↦ err_of "malformed challenge" e
    | ok signature ↦ obj (
        field "text" (str text) (
          field "response_hash" (str (text_hash w text))
            (field "miner_signature" (str signature) end)))
  ]

  unfoldable pub handle_challenge : Engine → ℕ → Miner → Payload → Json × Miner
  unfolding challenge_json
  handle_challenge engine now m payload = elim (admit_challenge w chain now m payload) [
    | stop message ↦ (err message, m)
    | fail e ↦ (err_of "malformed challenge" e, m)
    | go (prompt, seed) ↦ elim (engine (record { prompt = prompt; seed = some seed })) [
      | raise e ↦ (err_of "malformed challenge" e, worked prompt m)
      | ok text ↦ (challenge_json m prompt text, worked prompt m)
    ]
  ]
