-- ===== src/Client.antt =====
-- client/python/basedai_client/client.py: the receipts that a user signs for an inference. A check
-- that fails raises; which exception it raises is not kept.
pub mod Outcomes
pub mod Payment
pub mod Choice
pub mod Requests
pub mod Answers
pub mod Delivery
pub mod Routing
pub mod Funds
use based_ai.Prelude.{
  ℕ, zero, suc, ◌+◌, ◌*◌, ◌/◌, ◌%◌, ◌^◌, Bool, true, false, not, ◌&&◌, ◌||◌, Option, none, some,
  List, [], ◌∷◌, ◌++◌, leb, if◌then◌else◌,
}
use based_ai.Prelude.Eq.{◌==◌, nat_eq, int_eq, list_eq}
use based_ai.Prelude.Int.{ℤ, pos, ltb_ℤ, min_ℤ, ◌+ℤ◌}
use based_ai.Prelude.Result.{Result, ok, raise, other, ◌>>=◌, ◌>>◌}
use based_ai.Prelude.Text.{Str, Bytes, codes, to_hex, lower, utf8_length}
use based_ai.Prelude.Json.{Json, nil, cons, obj, end, field, str, int, get_item, get, to_int}
use based_ai.Web3.{Web3, Account}
use based_ai.Receipts.{Receipt, receipt_digest, lower_of}

abbrev pub default_reservation : ℤ
default_reservation = pos (10 ^ 16)

-- `InferenceRequest`
pub record Request : Type 0 where
  pub brain_id : ℤ
  pub prompt : Str
  pub max_tokens : ℤ
  pub temperature : Json
  pub budget : ℤ
  pub expiry : Option ℤ
  pub reservation : ℤ

-- `req.expiry or (int(time.time()) + 3600)`
unfoldable pub expiry_of : ℤ → Option ℤ → ℤ
expiry_of now none = now +ℤ pos 3600
expiry_of now (some e) = if e == pos 0 then now +ℤ pos 3600 else e

unfoldable pub reservation_of : Request → ℤ
reservation_of req =
    let wanted =
      if req.reservation == pos 0 then min_ℤ req.budget default_reservation else req.reservation in
    if ltb_ℤ req.budget wanted then req.budget else wanted

-- `format(nonce, "064x")`, as bytes
be_bytes : ℕ → ℕ → Bytes
be_bytes zero n = []
be_bytes (suc k) n = be_bytes k (n / 256) ++ (n % 256) ∷ []

-- `"0x" + Web3.keccak(text=...).hex()`
unfoldable pub hash_text : Web3 → Str → Str
hash_text w s = codes "0x" ++ to_hex (w.keccak_text s)

unfoldable pub preauth_of : Web3 → Account → ℤ → ℕ → Str → Request → Receipt
unfolding hash_text be_bytes
preauth_of w account now nonce miner req = record {
  user = account.address;
  miner = miner;
  brain_id = req.brain_id;
  prompt_hash = str (hash_text w req.prompt);
  response_hash =
      str (codes "0x" ++ to_hex (w.keccak (w.keccak_text req.prompt ++ be_bytes 32 nonce)));
  amount = reservation_of req;
  expiry = expiry_of now req.expiry;
  nonce = pos nonce;
}

unfoldable pub sign_receipt : Web3 → Account → Str → ℤ → Receipt → Result Str
sign_receipt w account market chain_id r = do
  digest ← receipt_digest w market chain_id r
  ok (account.sign_message digest)

-- `_serialize_receipt`
unfoldable pub serialize_receipt : Receipt → Json
serialize_receipt r = obj (
    field "user" (str r.user) (
      field "miner" (str r.miner) (
        field "brain_id" (int r.brain_id) (
          field "prompt_hash" r.prompt_hash (
            field "response_hash" r.response_hash (
              field "amount" (int r.amount)
                (field "expiry" (int r.expiry) (field "nonce" (int r.nonce) end))))))))

-- The body of the request for inference.
unfoldable pub infer_body : Request → Receipt → Str → Json
unfolding serialize_receipt
infer_body req preauth signature = obj (
    field "prompt" (str req.prompt) (
      field "max_tokens" (int req.max_tokens) (
        field "temperature" req.temperature (
          field "budget" (int req.budget) (
            field "receipt" (serialize_receipt preauth) (
              field "user_signature" (str signature)
                (field "target_miner" (str preauth.miner) end)))))))

-- The body of the settlement.
unfoldable pub settle_body : Receipt × Str → Json
unfolding serialize_receipt
settle_body (final, signature) =
    obj (field "receipt" (serialize_receipt final) (field "user_signature" (str signature) end))

-- `if not test: raise`
abbrev pub demand : Bool → Result (Unit {0})
demand true = ok tt
demand false = raise other

-- A text; `.lower()` and `keccak(text=...)` raise on anything else.
abbrev pub as_text : Json → Result Str
as_text (str s) = ok s
as_text _ = raise other

unfoldable pub parse_final : Json → Result Receipt
parse_final d = do
  user ← (do v ← get_item d "user"; as_text v)
  miner ← (do v ← get_item d "miner"; as_text v)
  brain_id ← (do v ← get_item d "brain_id"; to_int v)
  prompt_hash ← get_item d "prompt_hash"
  response_hash ← get_item d "response_hash"
  amount ← (do v ← get_item d "amount"; to_int v)
  expiry ← (do v ← get_item d "expiry"; to_int v)
  nonce ← (do v ← get_item d "nonce"; to_int v)
  ok (record {
    user = user;
    miner = miner;
    brain_id = brain_id;
    prompt_hash = prompt_hash;
    response_hash = response_hash;
    amount = amount;
    expiry = expiry;
    nonce = nonce;
  })

-- `_assert_final_receipt_identity`
unfoldable pub assert_identity : Receipt → Receipt → Result (Unit {0})
assert_identity preauth final = do
  demand (lower final.user == lower preauth.user)
  demand (lower final.miner == lower preauth.miner)
  demand (final.brain_id == preauth.brain_id)
  given ← lower_of final.prompt_hash
  wanted ← lower_of preauth.prompt_hash
  demand (given == wanted)
  demand (final.expiry == preauth.expiry)
  demand (final.nonce == preauth.nonce)

-- `_read_pricing`: the price of a byte and of a request, zero where a call raises.
unfoldable pub read_pricing : Result ℕ → Result ℕ → ℕ × ℕ
read_pricing (ok per_byte) (ok per_request) = (per_byte, per_request)
read_pricing _ _ = (0, 0)

-- The metered charge that the client works out on its own.
unfoldable pub expected_charge : ℕ × ℕ → Request → Str → ℤ
expected_charge price req text =
    min_ℤ (pos (price.1 + price.0 * (utf8_length req.prompt + utf8_length text))) req.budget

-- `data["text"]`, where it matches `data["response_hash"]`
unfoldable pub delivered : Web3 → Json → Result Str
delivered w response = do
  text ← (do v ← get_item response "text"; as_text v)
  given ← (do v ← get_item response "response_hash"; lower_of v)
  demand (given == lower (hash_text w text))
  ok text

-- The checks of `infer` before it signs a final receipt.
unfoldable pub accept_final : Web3 → ℕ × ℕ → Request → Receipt → Str → Json → Result Receipt
accept_final w price req preauth text proposed = do
  final ← parse_final proposed
  assert_identity preauth final
  demand (not (ltb_ℤ req.budget final.amount))
  demand (not (leb price.0 0 && leb price.1 0))
  demand (final.amount == expected_charge price req text)
  given ← lower_of final.response_hash
  demand (given == lower (hash_text w text))
  ok final

-- `if final`: what counts as true. The truth of a float, which the model does not keep, is a
-- parameter.
unfoldable pub is_true : (ℤ → Str → Bool) → Json → Bool
is_true float_true Json.null = false
is_true float_true (Json.bool b) = b
is_true float_true (Json.int n) = not (n == pos 0)
is_true float_true (Json.real n text) = float_true n text
is_true float_true (str []) = false
is_true float_true (str (c ∷ s)) = true
is_true float_true (Json.arr nil) = false
is_true float_true (Json.arr (cons v vs)) = true
is_true float_true (Json.obj end) = false
is_true float_true (Json.obj (field k v fs)) = true

abbrev pub present : (ℤ → Str → Bool) → Option Json → Option Json
present float_true none = none
present float_true (some v) = if is_true float_true v then some v else none

-- `if "error" in data: raise`
abbrev no_error : Option Json → Result (Unit {0})
no_error none = ok tt
no_error (some v) = raise other

-- What `infer` reads of the miner's answer before it looks at the final receipt: the text that was
-- delivered, and the final receipt that is proposed, if any.
unfoldable pub read_answer : Web3 → (ℤ → Str → Bool) → Result Json → Result (Str × Option Json)
read_answer w float_true answer = do
  response ← answer
  error ← get response "error"
  no_error error
  text ← delivered w response
  final ← get response "final_receipt"
  ok (text, present float_true final)
