-- ===== src/Gateway/Small.antt =====
-- The addresses of the index of gateway/src/basedai_gateway/indexer.py are kept in small letters.
use based_ai.Prelude.{
  ◌≡◌, not, Option, String, List, [], ◌∷◌, All, All-append, All-select, contains, Bool-cases,
  Option-cases, inl, inr,
}
use based_ai.Prelude.Eq.{◌==◌, nat_eq, int_eq, list_eq, pair_eq, string_eq}
use based_ai.Prelude.Int.{ℤ}
use based_ai.Prelude.Text.{Str, lower, lower-lower}
use based_ai.Prelude.Dict.{lookup, put, lookup-put}
use based_ai.Prelude.Sort.{All-sorted}
use based_ai.Gateway.{
  MemberIndex, Members, Event, Listed, members_of, add, discard, join, leave, apply_event,
  apply_events, replace_membership, is_stale, list_loop, best_first, miners,
}

abbrev pub IsSmall : Str → Type 0
IsSmall a = lower a ≡ a

-- Every member of every Brain is in small letters.
pub record AreSmall (m : Members) : Type 0 where
  pub at : (brain_id : ℤ) → All IsSmall (members_of brain_id m)

empty-AreSmall : AreSmall []
unfolding members_of lookup
empty-AreSmall = record { at = λ b. tt }

put-AreSmall :
    (brain_id : ℤ) (s : List Str) (m : Members)
    → All IsSmall s
    → AreSmall m
    → AreSmall (put brain_id s m)
unfolding members_of
put-AreSmall brain_id s m new h = record {
  at = λ b. rw (lookup-put brain_id b s m) (elim (Bool-cases (brain_id == b)) [
    | inl same ↦ rw same new
    | inr other ↦ rw other (h.at b)
  ]);
}

add-All : (a : Str) (s : List Str) → IsSmall a → All IsSmall s → All IsSmall (add a s)
unfolding add
add-All a s small h = elim (Bool-cases (contains a s)) [
  | inl there ↦ rw there h
  | inr new ↦ rw new (All-append IsSmall s (a ∷ []) h (small, tt))
]

join-AreSmall : (b : ℤ) (a : Str) (m : Members) → AreSmall m → AreSmall (join b (lower a) m)
unfolding join
join-AreSmall b a m h =
    put-AreSmall b _ m (add-All (lower a) (members_of b m) (lower-lower a) (h.at b)) h

leave-AreSmall : (b : ℤ) (a : Str) (m : Members) → AreSmall m → AreSmall (leave b a m)
unfolding leave discard
leave-AreSmall b a m h =
    put-AreSmall b _ m (All-select IsSmall (λ c. not (c == a)) (members_of b m) (h.at b)) h

apply_event-AreSmall :
    (name : String) (b : ℤ) (a : Str) (x : MemberIndex)
    → AreSmall x.miners
    → AreSmall (apply_event name b a x).miners
unfolding apply_event
apply_event-AreSmall name b a x h = elim (Bool-cases (name == "MinerRegistered")) [
  | inl e ↦ rw e (join-AreSmall b a x.miners h)
  | inr e ↦ elim (Bool-cases (name == "MinerDeregistered")) [
    | inl f ↦ rw (e, f) (leave-AreSmall b (lower a) x.miners h)
    | inr f ↦ elim (Bool-cases (name == "ValidatorRegistered")) [
      | inl g ↦ rw (e, f) (rw g h)
      | inr g ↦ elim (Bool-cases (name == "ValidatorDeregistered")) [
        | inl i ↦ rw (e, f) (rw (g, i) h)
        | inr i ↦ rw (e, f) (rw (g, i) h)
      ]
    ]
  ]
]

apply_events-AreSmall :
    (events : List Event) (x : MemberIndex)
    → AreSmall x.miners
    → AreSmall (apply_events events x).miners
unfolding apply_events
apply_events-AreSmall [] x h = h
apply_events-AreSmall (e ∷ events) x h =
    apply_events-AreSmall events (apply_event e.name e.brain_id e.address x)
      (apply_event-AreSmall e.name e.brain_id e.address x h)

pub replace_membership-AreSmall :
    (events : List Event) (x : MemberIndex) → AreSmall (replace_membership events x).miners
unfolding replace_membership
replace_membership-AreSmall events x = apply_events-AreSmall events _ empty-AreSmall

abbrev pub IsListedSmall : Listed → Type 0
IsListedSmall l = IsSmall l.address

list_loop-AreSmall :
    (x : MemberIndex) (b : ℤ) (now : Option ℤ) (addrs : List Str)
    → All IsSmall addrs
    → All IsListedSmall (list_loop x b now addrs)
unfolding list_loop
list_loop-AreSmall x b now [] h = tt
list_loop-AreSmall x b now (a ∷ addrs) (p, h) =
    let rest = list_loop-AreSmall x b now addrs h in
    elim (Option-cases (lookup (b, a) x.endpoints)) [
      | inl absent ↦ rw absent rest
      | inr (ep, there) ↦ elim (Bool-cases (is_stale x.ttl now ep.ts)) [
        | inl stale ↦ rw there (rw stale rest)
        | inr fresh ↦ rw there (rw fresh (p, rest))
      ]
    ]

-- An index whose members are in small letters lists its miners in small letters.
pub miners-AreSmall :
    (x : MemberIndex) (b : ℤ) (now : Option ℤ)
    → AreSmall x.miners
    → All IsListedSmall (miners b now x)
unfolding miners
miners-AreSmall x b now h =
    All-sorted best_first IsListedSmall (list_loop x b now (members_of b x.miners))
      (list_loop-AreSmall x b now (members_of b x.miners) (h.at b))
