-- ===== src/Gateway.antt =====
-- gateway/src/basedai_gateway/indexer.py: who is a miner or a validator of a Brain, from registry
-- events, and which URL and score each miner has. A Python set is a list without repetitions, in
-- the order in which it gives its elements. A score is the integer that `float()` is applied to.
pub mod Membership
pub mod Listing
pub mod Small
pub mod Server
pub mod Announce
pub mod Rate
pub mod Proxy
pub mod Ranking
pub mod Poller
pub mod Guard
pub mod Joining
use based_ai.Prelude.{
  ℕ, Bool, true, false, not, ◌&&◌, Option, none, some, String, List, [], ◌∷◌, ◌++◌, select,
  contains, if◌then◌else◌,
}
use based_ai.Prelude.Eq.{◌==◌, nat_eq, int_eq, list_eq, pair_eq, string_eq}
use based_ai.Prelude.Int.{ℤ, pos, ◌-ℤ◌, ltb_ℤ, leb_ℤ}
use based_ai.Prelude.Text.{Str, lower}
use based_ai.Prelude.Sort.{sorted}
use based_ai.Prelude.Dict.{Dict, lookup, put, remove}

pub record Endpoint : Type 0 where
  pub url : Str
  pub score : ℤ
  pub ts : ℤ

abbrev pub Members : Type 0
Members = Dict ℤ (List Str)

pub record MemberIndex : Type 0 where
  pub miners : Members
  pub validators : Members
  pub endpoints : Dict (ℤ × Str) Endpoint
  pub ttl : ℤ

-- A registry event, as the poller records it.
pub record Event : Type 0 where
  pub name : String
  pub brain_id : ℤ
  pub address : Str
  pub block_number : ℕ
  pub log_index : ℕ

abbrev pub or_empty : Option (List Str) → List Str
or_empty none = []
or_empty (some l) = l

-- `self._miners.get(brain_id, set())`
unfoldable pub members_of : ℤ → Members → List Str
members_of brain_id m = or_empty (lookup brain_id m)

-- `s.add(a)` and `s.discard(a)`
unfoldable pub add : Str → List Str → List Str
add a s = if contains a s then s else s ++ a ∷ []

unfoldable pub discard : Str → List Str → List Str
discard a s = select (λ b. not (b == a)) s

-- The same on the set of a Brain: the `defaultdict` makes the set where there is none.
unfoldable pub join : ℤ → Str → Members → Members
unfolding members_of add
join brain_id a m = put brain_id (add a (members_of brain_id m)) m

unfoldable pub leave : ℤ → Str → Members → Members
unfolding members_of discard
leave brain_id a m = put brain_id (discard a (members_of brain_id m)) m

unfoldable pub apply_event : String → ℤ → Str → MemberIndex → MemberIndex
apply_event name brain_id address x =
    let addr = lower address in
    if name == "MinerRegistered"
    then record x { miners = join brain_id addr x.miners }
    else if name == "MinerDeregistered"
    then (record x {
      miners = leave brain_id addr x.miners;
      endpoints = remove (brain_id, addr) x.endpoints;
    })
    else if name == "ValidatorRegistered"
    then record x { validators = join brain_id addr x.validators }
    else if name == "ValidatorDeregistered"
    then record x { validators = leave brain_id addr x.validators }
    else x

unfoldable pub apply_events : List Event → MemberIndex → MemberIndex
apply_events [] x = x
apply_events (e ∷ events) x = apply_events events (apply_event e.name e.brain_id e.address x)

unfoldable pub replace_membership : List Event → MemberIndex → MemberIndex
replace_membership events x = apply_events events (record x { miners = []; validators = [] })

unfoldable pub is_miner : ℤ → Str → MemberIndex → Bool
unfolding members_of
is_miner brain_id address x = contains (lower address) (members_of brain_id x.miners)

unfoldable pub is_validator : ℤ → Str → MemberIndex → Bool
unfolding members_of
is_validator brain_id address x = contains (lower address) (members_of brain_id x.validators)

unfoldable pub announce : ℤ → Str → Str → ℤ → MemberIndex → MemberIndex
announce brain_id address url ts x = record x {
  endpoints =
      put (brain_id, lower address) (record { url = url; score = pos 0; ts = ts }) x.endpoints;
}

abbrev rescored : ℤ → Str → ℤ → MemberIndex → Option Endpoint → MemberIndex
rescored brain_id addr score x none = x
rescored brain_id addr score x (some ep) = record x {
  endpoints = put (brain_id, addr) (record ep { score = score }) x.endpoints;
}

unfoldable pub set_score : ℤ → Str → ℤ → MemberIndex → MemberIndex
set_score brain_id address score x =
    let addr = lower address in rescored brain_id addr score x (lookup (brain_id, addr) x.endpoints)

-- A miner as `miners` lists it.
pub record Listed : Type 0 where
  pub address : Str
  pub url : Str
  pub score : ℤ

-- `now is not None and self._ttl and now - ep["ts"] > self._ttl`
unfoldable pub is_stale : ℤ → Option ℤ → ℤ → Bool
is_stale ttl none ts = false
is_stale ttl (some now) ts = not (ttl == pos 0) && ltb_ℤ ttl (now -ℤ ts)

abbrev pub list_one : ℤ → Option ℤ → Str → Option Endpoint → List Listed → List Listed
list_one ttl now addr none rest = rest
list_one ttl now addr (some ep) rest =
    if is_stale ttl now ep.ts
    then rest
    else record { address = addr; url = ep.url; score = ep.score } ∷ rest

-- The loop of `miners`.
unfoldable pub list_loop : MemberIndex → ℤ → Option ℤ → List Str → List Listed
list_loop x brain_id now [] = []
list_loop x brain_id now (addr ∷ addrs) =
    list_one x.ttl now addr (lookup (brain_id, addr) x.endpoints) (list_loop x brain_id now addrs)

abbrev pub best_first : Listed → Listed → Bool
best_first a b = leb_ℤ b.score a.score

unfoldable pub miners : ℤ → Option ℤ → MemberIndex → List Listed
unfolding list_loop members_of
miners brain_id now x = sorted best_first (list_loop x brain_id now (members_of brain_id x.miners))

abbrev url_of : Option Endpoint → Option Str
url_of none = none
url_of (some ep) = some ep.url

unfoldable pub endpoint_of : ℤ → Str → MemberIndex → Option Str
endpoint_of brain_id address x = url_of (lookup (brain_id, lower address) x.endpoints)
