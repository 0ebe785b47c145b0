-- ===== src/Tests/Gateways.antt =====
-- The theorems on the gateway, at concrete requests.
use based_ai.Prelude.{
  ℕ, ◌≤◌, ◌≡◌, ◌-◌, ◌&&◌, refl, List, [], ◌∷◌, Option, some, none, true, false, Bool, String, any,
  contains, select, arith, if◌then◌else◌,
}
use based_ai.Prelude.Eq.{◌==◌, list_eq, nat_eq, int_eq, pair_eq}
use based_ai.Prelude.Int.{ℤ, pos}
use based_ai.Prelude.Result.{Result, ok}
use based_ai.Prelude.Text.{Str, codes, lower}
use based_ai.Prelude.Json.{Json, obj, field, end, int, str, arr, cons, nil}
use based_ai.Prelude.Sort.{IsSorted}
use based_ai.Prelude.Dict.{lookup}
use based_ai.Prelude.Early.{go}
use based_ai.Gateway.{
  MemberIndex, Endpoint, Event, Listed, members_of, is_miner, is_validator, replace_membership,
  best_first, miners,
}
use based_ai.Gateway.Membership.{concerns, last_says, replace_membership-last}
use based_ai.Gateway.Listing.{says, offers, miners-says}
use based_ai.Gateway.Server.{Hits, handle_announce, slot_of}
use based_ai.Gateway.Announce.{AnnounceStep, handle_announce-AnnounceStep}
use based_ai.Gateway.Rate.{Request, passed, passed-le}
use based_ai.Gateway.Ranking.{ScoreVerifier, submit_scores, Rescored, submit_scores-Rescored}
use based_ai.Gateway.Proxy.{
  Calls, Step, begin, finish, Reaches, here, later, IsBounded, dial, reaches-IsBounded,
}
use based_ai.Tests.World.{world, ann, bob}

abbrev url : Str
url = codes "http://a"

-- Ann is a miner with an endpoint.
abbrev index : MemberIndex
index = record {
  miners = (pos 7, ann ∷ []) ∷ [];
  validators = [];
  endpoints = ((pos 7, ann), record { url = url; score = pos 3; ts = pos 100 }) ∷ [];
  ttl = pos 600;
}

abbrev event : String → Str → ℕ → Event
event name a block = record {
  name = name;
  brain_id = pos 7;
  address = a;
  block_number = block;
  log_index = 0;
}

abbrev events : List Event
events =
    event "MinerRegistered" bob 1
    ∷ event "MinerDeregistered" bob 2
    ∷ event "MinerRegistered" ann 3
    ∷ []

replace_membership-last_example :
    (is_miner (pos 7) bob (replace_membership events index)
      ≡ last_says "MinerRegistered" false
          (select (concerns "MinerRegistered" "MinerDeregistered" (pos 7) (lower bob)) events))
    × (is_validator (pos 7) bob (replace_membership events index)
        ≡ last_says "ValidatorRegistered" false (
            select
              (concerns "ValidatorRegistered" "ValidatorDeregistered" (pos 7) (lower bob))
              events))
replace_membership-last_example = replace_membership-last events (pos 7) bob index

miners-says_example :
    (any (says ann url (pos 3)) (miners (pos 7) (some (pos 200)) index) ≡ (
      contains ann (members_of (pos 7) index.miners)
      && offers index (pos 7) (some (pos 200)) url (pos 3) (lookup (pos 7, ann) index.endpoints)))
    × IsSorted best_first (miners (pos 7) (some (pos 200)) index)
miners-says_example = miners-says index (pos 7) (some (pos 200)) ann url (pos 3)

abbrev open_guard : Str → Option String
open_guard u = none

abbrev repr : Json → Str
repr v = []

abbrev announcement : Result Json
announcement = ok (
    obj (
      field "address" (str ann) (
        field "url" (str (codes "http://b"))
          (field "ts" (int (pos 150)) (field "signature" (str ann) end)))))

handle_announce-AnnounceStep_example :
    AnnounceStep world open_guard
      (pos 7)
      (pos 200)
      index
      (handle_announce world repr open_guard (pos 7) (pos 200) announcement index).1
handle_announce-AnnounceStep_example =
    handle_announce-AnnounceStep world open_guard (pos 7) (pos 200) index repr announcement

-- Ann has one request left in her window; Bob's requests are none of hers.
abbrev hits : Hits
hits = (ann, (pos 60, 2)) ∷ []

abbrev requests : List Request
requests = (ann, pos 70) ∷ (bob, pos 75) ∷ (ann, pos 80) ∷ []

ann_slot : slot_of ann hits ≡ (pos 60, 2)
unfolding slot_of lookup
ann_slot = refl

passed-le_example : passed (pos 60) 3 ann requests hits ≤ 3 - 2
unfolding based_ai.Prelude.Int.◌-ℤ◌
passed-le_example =
    passed-le (pos 60) 3 ann requests hits (pos 60) 2 ann_slot (refl, (refl, (refl, tt)))

abbrev verify : ScoreVerifier
verify epoch brain miner score proof = ok (score == pos 9)

abbrev submission : Result Json
submission = ok (
    obj (
      field "epoch" (int (pos 3)) (
        field "entries"
          (arr (cons (obj (field "miner" (str ann) (field "score" (int (pos 9)) end))) nil)) end)))

submit_scores-Rescored_example :
    Rescored verify
      (pos 7)
      (pos 7, ann)
      (lookup (pos 7, ann) index.endpoints)
      (lookup (pos 7, ann) (submit_scores world (some verify) (pos 7) submission index).1.endpoints)
submit_scores-Rescored_example =
    submit_scores-Rescored verify (pos 7) (pos 7, ann) world submission index

abbrev float_true : ℤ → Str → Bool
float_true n text = true

abbrev idle : Calls
idle = record { inflight = 0; pending = [] }

abbrev wanted : Result Json
wanted = ok (obj (field "target_miner" (str ann) end))

dials : dial float_true open_guard 2 0 (pos 7) (pos 200) index wanted ≡ go url
unfolding dial based_ai.Prelude.Json.get based_ai.Gateway.Proxy.target_url
    based_ai.Gateway.endpoint_of lookup lower
dials = refl

overlap : Reaches float_true 2 idle (record { inflight = 1; pending = url ∷ [] })
overlap = later here (begin idle open_guard (pos 7) (pos 200) index wanted url dials)

idle-IsBounded : IsBounded float_true 2 idle
idle-IsBounded = record { counted = refl; bounded = ground arith }

reaches-IsBounded_example : IsBounded float_true 2 (record { inflight = 1; pending = url ∷ [] })
reaches-IsBounded_example = reaches-IsBounded float_true 2 overlap idle-IsBounded
