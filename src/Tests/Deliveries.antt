-- ===== src/Tests/Deliveries.antt =====
-- The theorems on an inference from end to end, at a concrete request.
use based_ai.Prelude.{ℕ, ◌≡◌, refl, List, [], ◌∷◌, Option, some, none, true, Bool, false, arith}
use based_ai.Prelude.Int.{ℤ, pos}
use based_ai.Prelude.Result.{ok}
use based_ai.Prelude.Text.{Str, codes}
use based_ai.Prelude.Json.{int, str}
use based_ai.Receipts.{Receipt, add_or_replace}
use based_ai.Miner.{Miner, Chain, Engine, text_hash, count_words}
use based_ai.Miner.Handlers.{handle_settle, charge_of}
use based_ai.Client.{Request, sign_receipt, settle_body}
use based_ai.Client.Outcomes.{infer}
use based_ai.Client.Requests.{preauth_for, IsServable}
use based_ai.Client.Delivery.{IsOpen, handled, final_for, infer-served, handle_settle-served}
use based_ai.Tests.World.{
  world, ann, bob, account_of, world-HasRecovery, world-HasAddresses, world-HasChecksum,
}

abbrev request : Request
request = record {
  brain_id = pos 7;
  prompt = codes "hi";
  max_tokens = pos 64;
  temperature = int (pos 0);
  budget = pos 8;
  expiry = none;
  reservation = pos 5;
}

abbrev pub chain : Chain
chain = record {
  price_per_byte = ok 1;
  price_per_request = ok 2;
  used_nonce = λ user nonce. ok false;
  balance_of = λ user. ok 100;
  is_validator = λ brain a. ok true;
}

abbrev pub miner : Miner
miner = record {
  brain_id = pos 7;
  market = codes "0xee";
  chain_id = pos 1;
  account = account_of bob;
  batcher = record { batch_size = 2; pending = [] };
  work = [];
}

abbrev engine : Engine
engine _ = ok (codes "yo")

abbrev small_size : Str → ℕ
small_size signature = 500

abbrev float_true : ℤ → Str → Bool
float_true n text = true

abbrev preauth : Receipt
preauth = preauth_for world (account_of ann) chain 200 miner bob (pos 100) 9 request

request-IsServable : IsServable world (account_of ann) chain 200 miner bob (pos 100) 9 request
unfolding based_ai.Client.expiry_of based_ai.Prelude.Int.◌+ℤ◌ based_ai.Prelude.Text.lower
request-IsServable = record {
  brain = refl;
  user = refl;
  small = refl;
  miner = refl;
  unexpired = refl;
  unused = refl;
  balance = 100;
  funded = refl;
  covered = omega arith;
  short = refl;
}

market-IsOpen :
    IsOpen world float_true
      (account_of ann)
      chain
      200
      miner
      bob
      engine
      (pos 100)
      9
      request
      small_size
      (1, 2)
      (codes "yo")
      6
unfolding based_ai.Miner.quote based_ai.Prelude.Text.utf8_length based_ai.Miner.sign_response
    based_ai.Receipts.hash_bytes based_ai.Prelude.Text.from_hex based_ai.Miner.text_hash
    based_ai.Prelude.Text.to_hex
market-IsOpen = record {
  servable = request-IsServable;
  small = λ s. refl;
  per_byte = refl;
  per_request = refl;
  answers = refl;
  quoted = refl;
  signature = bob;
  signs = refl;
}

abbrev final : Receipt
final =
    final_for world float_true (account_of ann) chain 200 miner bob engine (pos 100) 9 request
      small_size (codes "yo") 6

preauth_signed : sign_receipt world (account_of ann) (codes "0xee") (pos 1) preauth ≡ ok ann
unfolding sign_receipt based_ai.Receipts.receipt_digest based_ai.Receipts.hash_bytes
    based_ai.Client.preauth_of based_ai.Prelude.Text.from_hex based_ai.Prelude.Text.to_hex
preauth_signed = refl

final_signed : sign_receipt world (account_of ann) (codes "0xee") (pos 1) final ≡ ok ann
unfolding sign_receipt based_ai.Receipts.receipt_digest based_ai.Receipts.hash_bytes
    based_ai.Miner.Handlers.final_receipt based_ai.Client.preauth_of based_ai.Prelude.Text.from_hex
    based_ai.Prelude.Text.to_hex based_ai.Miner.text_hash
final_signed = refl

infer-served_example :
    infer world float_true
      (1, 2)
      (sign_receipt world (account_of ann) (codes "0xee") (pos 1))
      request
      preauth
      (λ signature.
        ok
          (handled world float_true
            (account_of ann)
            chain
            200
            miner
            bob
            engine
            (pos 100)
            9
            request
            small_size
            signature).0)
    ≡ record {
      signed = (preauth, ann) ∷ (final, ann) ∷ [];
      returned = ok (record {
        text = codes "yo";
        miner = bob;
        prompt_hash = str (text_hash world (codes "hi"));
        response_hash = str (text_hash world (codes "yo"));
        tokens_in = int (pos (count_words false (codes "hi")));
        tokens_out = int (pos (count_words false (codes "yo")));
        amount = charge_of 6 (pos 8);
        miner_signature = str market-IsOpen.signature;
      });
    }
infer-served_example =
    infer-served world float_true (account_of ann) chain 200 miner bob engine (pos 100) 9 request
      small_size world-HasRecovery world-HasAddresses world-HasChecksum market-IsOpen preauth_signed
      final_signed

handle_settle-served_example :
    (handle_settle world chain 200
      (handled world float_true
        (account_of ann)
        chain
        200
        miner
        bob
        engine
        (pos 100)
        9
        request
        small_size
        ann).1
      (record { size = 400; parsed = ok (settle_body (final, ann)) })).1.batcher
    ≡ add_or_replace final (str ann) miner.batcher
unfolding based_ai.Miner.Handlers.is_zero_hash based_ai.Miner.text_hash based_ai.Prelude.Text.to_hex
handle_settle-served_example =
    handle_settle-served world float_true (account_of ann) chain 200 miner bob engine (pos 100) 9
      request small_size world-HasRecovery world-HasAddresses world-HasChecksum market-IsOpen
      preauth_signed final_signed chain 200 400 request-IsServable refl refl
