-- ===== src/Client/Outcomes.antt =====
-- `infer` of client/python/basedai_client/client.py: what one call signs, and what it reports.
use based_ai.Prelude.{ℕ, Bool, none, some, List, [], ◌∷◌, ◌++◌}
use based_ai.Prelude.Eq.{nat_eq, int_eq, list_eq}
use based_ai.Prelude.Int.{ℤ}
use based_ai.Prelude.Result.{Result, ok, raise, ◌>>=◌}
use based_ai.Prelude.Text.{Str}
use based_ai.Prelude.Json.{Json, get_item}
use based_ai.Web3.{Web3}
use based_ai.Receipts.{Receipt}
use based_ai.Client.{Request, read_answer, accept_final}

-- `InferenceResponse`
pub record Response : Type 0 where
  pub text : Str
  pub miner : Str
  pub prompt_hash : Json
  pub response_hash : Json
  pub tokens_in : Json
  pub tokens_out : Json
  pub amount : ℤ
  pub miner_signature : Json

-- What a call of `infer` has signed, and what it returns or raised.
pub record Outcome : Type 0 where
  pub signed : List (Receipt × Str)
  pub returned : Result Response

-- The end of `infer`: the rest of the miner's answer is read, KeyError where a part is missing.
unfoldable pub response_of : Result Json → Str → Str → ℤ → Result Response
response_of answer text miner amount = do
  response ← answer
  prompt_hash ← get_item response "prompt_hash"
  response_hash ← get_item response "response_hash"
  tokens_in ← get_item response "tokens_in"
  tokens_out ← get_item response "tokens_out"
  miner_signature ← get_item response "miner_signature"
  ok (record {
    text = text;
    miner = miner;
    prompt_hash = prompt_hash;
    response_hash = response_hash;
    tokens_in = tokens_in;
    tokens_out = tokens_out;
    amount = amount;
    miner_signature = miner_signature;
  })

-- Signing the final receipt, and what is returned for its amount.
unfoldable pub countersign :
    (Receipt → Result Str) → List (Receipt × Str) → (ℤ → Result Response) → Receipt → Outcome
countersign sign before respond final = elim (sign final) [
  | raise e ↦ record { signed = before; returned = raise e }
  | ok signature ↦ record {
    signed = before ++ (final, signature) ∷ [];
    returned = respond final.amount;
  }
]

-- `infer` from the miner's answer on. The settlement is best effort: it changes nothing here.
unfoldable pub settle_answer :
    Web3
    → (ℤ → Str → Bool)
    → ℕ × ℕ
    → (Receipt → Result Str)
    → Request
    → Receipt
    → List (Receipt × Str)
    → Result Json
    → Outcome
unfolding countersign response_of
settle_answer w float_true price sign req preauth before answer =
    elim (read_answer w float_true answer) [
      | raise e ↦ record { signed = before; returned = raise e }
      | ok (text, none) ↦ record {
        signed = before;
        returned = response_of answer text preauth.miner preauth.amount;
      }
      | ok (text, some proposed) ↦ elim (accept_final w price req preauth text proposed) [
        | raise e ↦ record { signed = before; returned = raise e }
        | ok final ↦ countersign sign before (response_of answer text preauth.miner) final
      ]
    ]

-- `infer`, for the miner that was chosen. `post` is the gateway's answer to the body with the
-- signed preauthorization.
unfoldable pub infer :
    Web3
    → (ℤ → Str → Bool)
    → ℕ × ℕ
    → (Receipt → Result Str)
    → Request
    → Receipt
    → (Str → Result Json)
    → Outcome
unfolding settle_answer
infer w float_true price sign req preauth post = elim (sign preauth) [
  | raise e ↦ record { signed = []; returned = raise e }
  | ok signature ↦
      settle_answer w float_true price sign req preauth ((preauth, signature) ∷ []) (post signature)
]
