-- ===== src/Tests/Routings.antt =====
-- The theorems on where the gateway passes a client's requests, with two miners.
use mathlib.Core.Bool.{false≢true}
use based_ai.Prelude.Eq.{int_eq, nat_eq, list_beq_iff}
use based_ai.Prelude.{ℕ, ◌≡◌, ◌≢◌, refl, Option, some, none, Bool, true, String, [], ◌∷◌}
use based_ai.Prelude.Int.{ℤ, pos}
use based_ai.Prelude.Result.{ok}
use based_ai.Prelude.Text.{Str, codes, lower}
use based_ai.Prelude.Json.{int, str}
use based_ai.Prelude.Early.{go}
use based_ai.Receipts.{Receipt}
use based_ai.Miner.Handlers.{handle_settle}
use based_ai.Prelude.Dict.{lookup}
use based_ai.Gateway.{MemberIndex, Listed, miners}
use based_ai.Gateway.Proxy.{dial}
use based_ai.Client.{Request, settle_body}
use based_ai.Client.Routing.{settle_body-astray}
use based_ai.Tests.World.{world, ann, bob, world-HasChecksum}
use based_ai.Tests.Deliveries.{chain, miner}

-- Bob has the better score.
abbrev index : MemberIndex
index = record {
  miners = (pos 7, ann ∷ bob ∷ []) ∷ [];
  validators = [];
  endpoints =
      ((pos 7, ann), record { url = codes "http://a"; score = pos 3; ts = pos 100 })
      ∷ ((pos 7, bob), record { url = codes "http://b"; score = pos 5; ts = pos 100 })
      ∷ [];
  ttl = pos 600;
}

abbrev first : Listed
first = record { address = bob; url = codes "http://b"; score = pos 5 }

abbrev second : Listed
second = record { address = ann; url = codes "http://a"; score = pos 3 }

index_listing : miners (pos 7) (some (pos 200)) index ≡ first ∷ second ∷ []
unfolding miners based_ai.Prelude.Sort.sorted based_ai.Prelude.Dict.lookup based_ai.Gateway.is_stale
    based_ai.Prelude.Int.◌-ℤ◌
index_listing = refl

bob_small : lower bob ≡ bob
unfolding lower
bob_small = refl

bob_other : bob ≢ lower ann
unfolding lower
bob_other h = false≢true ((list_beq_iff bob ann).1 h)

abbrev float_true : ℤ → Str → Bool
float_true n text = true

abbrev open_guard : Str → Option String
open_guard u = none

abbrev request : Request
request = record {
  brain_id = pos 7;
  prompt = codes "hi";
  max_tokens = pos 64;
  temperature = int (pos 0);
  budget = pos 8;
  expiry = none;
  reservation = pos 5;
}

abbrev final : Receipt
final = record {
  user = bob;
  miner = ann;
  brain_id = pos 7;
  prompt_hash = str (codes "0x01");
  response_hash = str (codes "0x02");
  amount = pos 6;
  expiry = pos 900;
  nonce = pos 9;
}

-- The receipt names Ann, and the settlement reaches Bob.
settle_body-astray_example :
    (dial float_true open_guard 64 0 (pos 7) (pos 200) index (ok (settle_body (final, bob)))
      ≡ go (codes "http://b"))
    × ((handle_settle world chain 200 miner
          (record { size = 500; parsed = ok (settle_body (final, bob)) })).1
        ≡ miner)
settle_body-astray_example =
    settle_body-astray float_true open_guard 64 0 (pos 7) (pos 200) index first (second ∷ [])
      index_listing refl refl world chain 200 500 miner final bob world-HasChecksum bob_small
      bob_other
