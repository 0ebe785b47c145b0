-- ===== src/Tests/Requests.antt =====
-- The theorems on receipts and on the miner's handlers, at concrete requests.
use mathlib.Core.List.{map}
use based_ai.Prelude.{
  ℕ, zero, suc, ◌≡◌, ◌↔◌, refl, List, [], ◌∷◌, some, none, true, false, not, select,
}
use based_ai.Prelude.Eq.{int_eq}
use based_ai.Prelude.Int.{pos}
use based_ai.Prelude.Result.{Result, ok, raise, other}
use based_ai.Prelude.Text.{Str, codes}
use based_ai.Prelude.Json.{obj, field, end, int, str}
use based_ai.Receipts.{Receipt, Signed, Batcher, flush}
use based_ai.Receipts.Batch.{succeeds, hash_of, attempts, flush_lem}
use based_ai.Miner.{Miner, Chain, Engine, Payload, check_eligibility, required_balance, text_hash}
use based_ai.Miner.Handlers.{handle_infer}
use based_ai.Miner.Eligibility.{IsEligible, check_eligibility_iff}
use based_ai.Miner.Answers.{IsReply, handle_infer-IsReply}
use based_ai.Miner.Batch.{Event, infer, settle, redeem, handle_all, AllSigned, handle_all-AllSigned}
use based_ai.Tests.World.{world, ann, bob, account_of}

abbrev prompt : Str
prompt = codes "hello"

-- A receipt of Ann's for Bob's work.
abbrev receipt : ℕ → ℕ → Receipt
receipt amount nonce = record {
  user = ann;
  miner = bob;
  brain_id = pos 7;
  prompt_hash = str (text_hash world prompt);
  response_hash = str (codes "0x12");
  amount = pos amount;
  expiry = pos 1000;
  nonce = pos nonce;
}

abbrev batch : Batcher
batch = record { batch_size = 2; pending = (receipt 5 1, str ann) ∷ (receipt 6 2, str ann) ∷ [] }

-- The node redeems at most so many receipts, and fails after those.
abbrev calls : Signed → ℕ → Result Str × ℕ
calls p zero = (raise other, 0)
calls p (suc left) = (ok (codes "0xdd"), left)

flush_lem_example :
    (map (λ a. a.0) (attempts calls batch.pending 1) ≡ batch.pending)
    × ((flush calls 1 batch).0.1.pending
        ≡ map (λ a. a.0) (select (λ a. not (succeeds a.1)) (attempts calls batch.pending 1)))
    × ((flush calls 1 batch).0.0
        ≡ map (λ a. hash_of a.1) (select (λ a. succeeds a.1) (attempts calls batch.pending 1)))
flush_lem_example = flush_lem calls 1 batch

abbrev chain : Chain
chain = record {
  price_per_byte = ok 1;
  price_per_request = ok 2;
  used_nonce = λ user nonce. ok false;
  balance_of = λ user. ok 100;
  is_validator = λ brain a. ok true;
}

abbrev miner : Miner
miner = record {
  brain_id = pos 7;
  market = codes "0xee";
  chain_id = pos 1;
  account = account_of bob;
  batcher = record { batch_size = 2; pending = [] };
  work = [];
}

abbrev engine : Engine
engine request = ok (codes "world")

abbrev request : Payload
request = record {
  size = 200;
  parsed = ok (
      obj (
        field "user_signature" (str ann) (
          field "prompt" (str prompt) (
            field "budget" (int (pos 8)) (
              field "receipt"
                (obj (
                  field "user" (str ann) (
                    field "miner" (str bob) (
                      field "brain_id" (int (pos 7)) (
                        field "prompt_hash" (str (text_hash world prompt)) (
                          field "response_hash" (str (codes "0x12")) (
                            field "amount" (int (pos 5)) (
                              field "expiry" (int (pos 1000))
                                (field "nonce" (int (pos 1)) end)))))))))
                end)))));
}

check_eligibility_iff_example :
    (check_eligibility world chain 10 miner (receipt 5 1) (some (pos 8)) ≡ none)
    ↔ IsEligible world chain 10 miner (receipt 5 1) (required_balance (some (pos 8)) (receipt 5 1))
check_eligibility_iff_example =
    check_eligibility_iff world chain 10 miner (receipt 5 1) (some (pos 8))

handle_infer-IsReply_example :
    IsReply world chain 10 miner engine request (handle_infer world chain engine 10 miner request).0
handle_infer-IsReply_example = handle_infer-IsReply world chain engine 10 miner request

abbrev events : List (Event ℕ)
events = infer chain 10 request ∷ settle chain 11 request ∷ redeem calls 1 ∷ []

fresh-AllSigned : AllSigned world (codes "0xee") (pos 1) miner
fresh-AllSigned = record { same_market = refl; same_chain = refl; signed = tt }

handle_all-AllSigned_example :
    AllSigned world (codes "0xee") (pos 1) (handle_all world engine events miner)
handle_all-AllSigned_example =
    handle_all-AllSigned world (codes "0xee") (pos 1) engine events miner fresh-AllSigned
