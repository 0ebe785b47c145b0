-- ===== src/Miner.antt =====
-- miner/src/basedai_miner/runtime.py: the three request handlers, and what they need of
-- inference.py. A payload is given by its size and by what `json.loads` made of it; replies are
-- JSON values, whose error texts stand without the exception's own words.
pub mod Flow
pub mod Handlers
pub mod Eligibility
pub mod Admission
pub mod Answers
pub mod Batch
pub mod Transport
use based_ai.Prelude.{
  ℕ, ◌+◌, ◌*◌, Bool, true, false, not, ◌&&◌, ◌||◌, Option, none, some, String, List, [], ◌∷◌, ◌++◌,
  ltb, leb, nat_beq, length, if◌then◌else◌,
}
use based_ai.Prelude.Eq.{◌==◌, nat_eq, int_eq, list_eq}
use based_ai.Prelude.Int.{ℤ, pos, leb_ℤ, ltb_ℤ, min_ℤ}
use based_ai.Prelude.Result.{
  Exn, key_error, value_error, type_error, index_error, other, Result, ok, raise, ◌>>=◌,
}
use based_ai.Prelude.Text.{Str, Bytes, codes, to_hex, lower, utf8_length, is_blank}
use based_ai.Prelude.Json.{Json, int, str, obj, field, end, get_item, get, to_int}
use based_ai.Miner.Flow.{Stage, go, stop, fail}
use based_ai.Web3.{Web3, Account, uint256, bytes32}
use based_ai.Receipts.{
  Receipt, Batcher, add, add_or_replace, hash_bytes, lower_of, verify_user_signature,
}

abbrev pub max_payload_bytes : ℕ
max_payload_bytes = 256 * 1024

abbrev pub max_prompt_chars : ℕ
max_prompt_chars = 32 * 1024

-- What the contracts answer while a request is handled; a call may raise.
pub record Chain : Type 0 where
  pub price_per_byte : Result ℕ
  pub price_per_request : Result ℕ
  pub used_nonce : Str → ℤ → Result Bool
  pub balance_of : Str → Result ℕ
  pub is_validator : ℤ → Str → Result Bool

-- The miner's fields that the handlers read, and the batch that they change. `work` lists the
-- prompts that the engine was asked to complete.
pub record Miner : Type 0 where
  pub brain_id : ℤ
  pub market : Str
  pub chain_id : ℤ
  pub account : Account
  pub batcher : Batcher
  pub work : List Str

-- `InferenceRequest`, as the handlers fill it: a challenge has a seed and temperature 0.
pub record InferenceRequest : Type 0 where
  pub prompt : Str
  pub seed : Option ℤ

-- The text that the model gives; the call may raise.
abbrev pub Engine : Type 0
Engine = InferenceRequest → Result Str

pub record Payload : Type 0 where
  pub size : ℕ
  pub parsed : Result Json

unfoldable pub err : String → Json
err message = obj (field "error" (str (codes message)) end)

-- The `except` clauses of a handler.
unfoldable pub err_of : String → Exn → Json
unfolding err
err_of malformed key_error = err malformed
err_of malformed value_error = err malformed
err_of malformed type_error = err malformed
err_of malformed _ = err "internal error"

-- `_h`
unfoldable pub text_hash : Web3 → Str → Str
text_hash w s = codes "0x" ++ to_hex (w.keccak_text s)

-- `len(s.split())`
unfoldable pub count_words : Bool → Str → ℕ
count_words inside [] = 0
count_words inside (c ∷ s) =
    let outside = count_words false s in
    let word = count_words true s in
    if is_blank c then outside else if inside then word else 1 + word

-- `_quote`
unfoldable pub quote : Chain → Str → Str → Result ℕ
quote chain prompt response = elim chain.price_per_byte [
  | raise e ↦ raise other
  | ok ppt ↦ elim chain.price_per_request [
    | raise e ↦ raise other
    | ok ppr ↦
        if leb ppt 0 && leb ppr 0
        then raise other
        else ok (ppr + ppt * (utf8_length prompt + utf8_length response))
  ]
]

abbrev pub required_balance : Option ℤ → Receipt → ℤ
required_balance none r = r.amount
required_balance (some b) r = b

-- The calls inside the `try` of `_check_eligibility`: whether the nonce is used, and the balance.
unfoldable pub account_state : Web3 → Chain → Receipt → Result (Bool × Option ℕ)
account_state w chain r = do
  used ← (do user ← w.to_checksum_address (str r.user); chain.used_nonce user r.nonce)
  if used then ok (true, none) else do
    user ← w.to_checksum_address (str r.user)
    balance ← chain.balance_of user
    ok (false, some balance)

abbrev pub judge_balance : ℤ → Result (Bool × Option ℕ) → Option String
judge_balance required (raise e) = some "eligibility check failed"
judge_balance required (ok (true, balance)) = some "nonce used"
judge_balance required (ok (false, none)) = some "nonce used"
judge_balance required (ok (false, some balance)) =
    if ltb_ℤ (pos balance) required then some "insufficient user balance" else none

-- `_check_eligibility`: the error text, if there is one
unfoldable pub check_eligibility : Web3 → Chain → ℕ → Miner → Receipt → Option ℤ → Option String
check_eligibility w chain now m r min_balance =
    if not (r.brain_id == m.brain_id)
    then some "wrong brain"
    else if not (lower r.miner == lower m.account.address)
    then some "wrong miner"
    else if leb_ℤ r.expiry (pos now)
    then some "expired"
    else judge_balance (required_balance min_balance r) (account_state w chain r)

-- `Receipt(...)` from the request's dict
unfoldable pub parse_receipt : Web3 → Json → Result Receipt
parse_receipt w d = do
  user ← (do v ← get_item d "user"; w.to_checksum_address v)
  miner ← (do v ← get_item d "miner"; w.to_checksum_address v)
  brain_id ← (do v ← get_item d "brain_id"; to_int v)
  prompt_hash ← get_item d "prompt_hash"
  response_hash ← get_item d "response_hash"
  amount ← (do v ← get_item d "amount"; to_int v)
  expiry ← (do v ← get_item d "expiry"; to_int v)
  nonce ← (do v ← get_item d "nonce"; to_int v)
  ok (record {
    user = user;
    miner = miner;
    brain_id = brain_id;
    prompt_hash = prompt_hash;
    response_hash = response_hash;
    amount = amount;
    expiry = expiry;
    nonce = nonce;
  })

-- `isinstance(prompt, str)` and the bound on its length
unfoldable pub prompt_text : Json → Stage Str
prompt_text (str p) =
    if ltb max_prompt_chars (length p) then stop "invalid or oversized prompt" else go p
prompt_text _ = stop "invalid or oversized prompt"

-- `int(req_data.get("budget", r.amount))`, and not below the reservation
abbrev budget_or : ℤ → Option Json → Result ℤ
budget_or amount none = ok amount
budget_or amount (some v) = to_int v

unfoldable pub budget_of : Json → ℤ → Result ℤ
budget_of request amount = do
  given ← get request "budget"
  budget ← budget_or amount given
  ok (if ltb_ℤ budget amount then amount else budget)

-- What `_handle_infer` has checked before it spends any work.
pub record Admitted : Type 0 where
  pub receipt : Receipt
  pub signature : Json
  pub prompt : Str
  pub budget : ℤ

-- What a validator signs for a challenge: (brain_id, keccak(prompt), seed).
unfoldable pub challenge_digest : Web3 → ℤ → Str → ℤ → Result Bytes
challenge_digest w brain_id prompt seed = do
  encoded ← w.abi_encode (uint256 brain_id ∷ bytes32 (w.keccak_text prompt) ∷ uint256 seed ∷ [])
  ok (w.keccak encoded)

-- `_sign_response`
unfoldable pub sign_response : Web3 → Miner → Str → Str → Result Str
sign_response w m prompt_hash response_hash = do
  prompt_bytes ← hash_bytes (str prompt_hash)
  response_bytes ← hash_bytes (str response_hash)
  encoded ← w.abi_encode (uint256 m.brain_id ∷ bytes32 prompt_bytes ∷ bytes32 response_bytes ∷ [])
  ok (m.account.sign_message (w.keccak encoded))

-- The seed of a challenge: `int(data.get("seed", 0))`
abbrev seed_or_zero : Option Json → Result ℤ
seed_or_zero none = ok (pos 0)
seed_or_zero (some v) = to_int v

unfoldable pub seed_of : Json → Result ℤ
seed_of request = do given ← get request "seed"; seed_or_zero given
