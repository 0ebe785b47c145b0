-- ===== src/Tests/Payments.antt =====
-- The theorems on the client's payments, at concrete requests.
use based_ai.Prelude.{ℕ, ◌≡◌, refl, List, [], ◌∷◌, Option, some, none, true, Bool, All}
use based_ai.Prelude.Int.{ℤ, pos}
use based_ai.Prelude.Result.{Result, ok}
use based_ai.Prelude.Text.{Str, codes}
use based_ai.Prelude.Json.{Json, obj, field, end, int, str}
use based_ai.Receipts.{Receipt}
use based_ai.Client.{Request, preauth_of, accept_final, sign_receipt, hash_text, expected_charge}
use based_ai.Client.Payment.{IsFair, accept_final-IsFair}
use based_ai.Tests.World.{world, ann, bob, account_of}

abbrev request : Request
request = record {
  brain_id = pos 7;
  prompt = codes "hi";
  max_tokens = pos 64;
  temperature = int (pos 0);
  budget = pos 8;
  expiry = none;
  reservation = pos 5;
}

abbrev preauth : Receipt
preauth = preauth_of world (account_of ann) (pos 100) 9 bob request

abbrev proposed : Json
proposed = obj (
    field "user" (str ann) (
      field "miner" (str bob) (
        field "brain_id" (int (pos 7)) (
          field "prompt_hash" (str (hash_text world (codes "hi"))) (
            field "response_hash" (str (hash_text world (codes "yo"))) (
              field "amount" (int (pos 6))
                (field "expiry" (int (pos 3700)) (field "nonce" (int (pos 9)) end))))))))

abbrev final : Receipt
final = record {
  user = ann;
  miner = bob;
  brain_id = pos 7;
  prompt_hash = str (hash_text world (codes "hi"));
  response_hash = str (hash_text world (codes "yo"));
  amount = pos 6;
  expiry = pos 3700;
  nonce = pos 9;
}

accepted : accept_final world (1, 2) request preauth (codes "yo") proposed ≡ ok final
unfolding accept_final based_ai.Client.parse_final based_ai.Prelude.Json.get_item
    based_ai.Prelude.Json.to_int based_ai.Client.assert_identity based_ai.Prelude.Text.lower
    preauth_of based_ai.Receipts.lower_of based_ai.Prelude.Text.to_hex based_ai.Client.expiry_of
    based_ai.Prelude.Int.◌+ℤ◌ expected_charge based_ai.Prelude.Text.utf8_length
accepted = refl

accept_final-IsFair_example : IsFair world (1, 2) request preauth (codes "yo") final
accept_final-IsFair_example =
    accept_final-IsFair world (1, 2) request preauth (codes "yo") proposed {final = final} accepted

abbrev float_true : ℤ → Str → Bool
float_true n text = true

abbrev post : Str → Result Json
post signature = ok (
    obj (
      field "text" (str (codes "yo")) (
        field "response_hash" (str (hash_text world (codes "yo")))
          (field "final_receipt" proposed end))))

abbrev sign : Receipt → Result Str
sign = sign_receipt world (account_of ann) (codes "0xee") (pos 1)
