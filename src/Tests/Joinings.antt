-- ===== src/Tests/Joinings.antt =====
-- The theorems on what a miner needs to be found, at a concrete miner.
use based_ai.Prelude.{
  ℕ, ◌<◌, inr, arith, ◌≡◌, ◌↔◌, refl, Bool, true, false, List, [], ◌∷◌, Option, some, none, String,
  any, map, nat_beq, ltb, if◌then◌else◌,
}
use based_ai.Prelude.Int.{ℤ, pos, ◌-ℤ◌, nat_abs}
use based_ai.Prelude.Result.{Result, ok}
use based_ai.Prelude.Text.{Str, codes, lower}
use based_ai.Prelude.Json.{Json}
use based_ai.Miner.Transport.{announce_once, announce_payload, sign_announce}
use based_ai.Gateway.{MemberIndex, is_miner, is_stale, miners}
use based_ai.Gateway.Listing.{says}
use based_ai.Gateway.Server.{Reply, handle_announce, limited, over_limit, slot_of}
use based_ai.Gateway.Joining.{status_of, announce_once-listed}
use based_ai.Gateway.Guard.{
  Address, Parsed, Resolver, IsUnflagged, public_url_guard, public_url_guard_iff,
}
use based_ai.Tests.World.{world, ann, bob, account_of, world-HasRecovery}

abbrev url : Str
url = codes "http://a"

-- Ann and Bob are registered, and Bob has an endpoint.
abbrev index : MemberIndex
index = record {
  miners = (pos 7, ann ∷ bob ∷ []) ∷ [];
  validators = [];
  endpoints = ((pos 7, bob), record { url = url; score = pos 3; ts = pos 100 }) ∷ [];
  ttl = pos 600;
}

abbrev no_text : Json → Str
no_text v = []

abbrev open_guard : Str → Option String
open_guard u = none

signed : sign_announce world (account_of ann) (pos 7) url (pos 100) ≡ ok ann
unfolding sign_announce
signed = refl

near : ltb 600 (nat_abs (pos 150 -ℤ pos 100)) ≡ false
unfolding ◌-ℤ◌
near = refl

registered : is_miner (pos 7) ann index ≡ true
unfolding is_miner based_ai.Prelude.Dict.lookup lower
registered = refl

fresh : is_stale (pos 600) (some (pos 200)) (pos 100) ≡ false
unfolding is_stale based_ai.Prelude.Int.◌-ℤ◌
fresh = refl

abbrev behind : Result Json → Result Reply × MemberIndex
behind request =
    (limited (pos 60) 240 ann (pos 150) [] (ok over_limit, index)
      (handle_announce world no_text open_guard (pos 7) (pos 150) request index)).0

no_hits : (slot_of ann []).1 < 240
unfolding slot_of based_ai.Prelude.Dict.lookup
no_hits = omega arith

announce_once-listed_example :
    (announce_once world
        (account_of ann)
        (pos 7)
        url
        (pos 100)
        (λ payload. status_of (behind (ok payload)).0)
      ≡ ok true)
    × (any (says (lower ann) url (pos 0)) (
          miners
            (pos 7)
            (some (pos 200))
            (behind (ok (announce_payload (account_of ann) url (pos 100) ann))).1)
        ≡ true)
announce_once-listed_example =
    announce_once-listed world (account_of ann) no_text open_guard (pos 7) (pos 100) (pos 150) url
      index world-HasRecovery refl near refl registered (pos 60) 240 ann [] (pos 200) signed fresh
      (inr no_hits)

abbrev address_of : Bool → Address
address_of local = record {
  is_private = local;
  is_loopback = false;
  is_link_local = false;
  is_multicast = false;
  is_reserved = false;
  is_unspecified = false;
}

-- The host has a public and a private address.
abbrev resolver : Resolver
resolver host port = ok (some (address_of false ∷ address_of true ∷ []))

abbrev parsed : Parsed
parsed = record { scheme = codes "http"; hostname = some (codes "a"); port = ok none }

public_url_guard_iff_example :
    (public_url_guard resolver parsed ≡ ok none) ↔ IsUnflagged resolver parsed
public_url_guard_iff_example = public_url_guard_iff resolver parsed
