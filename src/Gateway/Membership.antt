-- ===== src/Gateway/Membership.antt =====
-- What the membership of an index is after a rebuild: `replace_membership` of
-- gateway/src/basedai_gateway/indexer.py.
use based_ai.Prelude.{
  ◌≡◌, refl, Bool, false, not, ◌&&◌, ◌||◌, String, List, [], ◌∷◌, ◌++◌, arith, inl, inr, select,
  contains, Bool-cases, if◌then◌else◌,
}
use based_ai.Prelude.Eq.{◌==◌, nat_eq, int_eq, list_eq, pair_eq, string_eq, list_beq_iff}
use text.Mathlib.TextEquality.{eq_iff}
use based_ai.Prelude.Int.{ℤ, int_beq_iff}
use based_ai.Prelude.Text.{Str, lower}
use based_ai.Prelude.Dict.{lookup, put, lookup-put}
use based_ai.Gateway.{
  MemberIndex, Members, Event, members_of, add, discard, join, leave, apply_event, apply_events,
  replace_membership, is_miner, is_validator,
}

contains-append : (c : Str) (s t : List Str) → contains c (s ++ t) ≡ (contains c s || contains c t)
contains-append c [] t = refl
contains-append c (x ∷ s) t = ground (arith, contains-append c s t)

contains-add : (a c : Str) (s : List Str) → contains c (add a s) ≡ (a == c || contains c s)
unfolding add
contains-add a c s = ground (arith, contains-append c s (a ∷ []), list_beq_iff a c)

contains-discard :
    (a c : Str) (s : List Str) → contains c (discard a s) ≡ (not (a == c) && contains c s)
unfolding discard
contains-discard a c [] = ground arith
contains-discard a c (x ∷ s) =
    ground (arith, contains-discard a c s, list_beq_iff x a, list_beq_iff x c, list_beq_iff a c)

members_of-put :
    (b c : ℤ) (s : List Str) (m : Members)
    → members_of c (put b s m) ≡ (if b == c then s else members_of c m)
unfolding members_of
members_of-put b c s m = ground (arith, lookup-put b c s m)

contains-join :
    (b c : ℤ) (a d : Str) (m : Members)
    → contains d (members_of c (join b a m)) ≡ (b == c && a == d || contains d (members_of c m))
unfolding join
contains-join b c a d m = ground (
  arith,
  members_of-put b c (add a (members_of b m)) m,
  contains-add a d (members_of b m),
  int_beq_iff b c,
)

contains-leave :
    (b c : ℤ) (a d : Str) (m : Members)
    → contains d (members_of c (leave b a m))
      ≡ (not (b == c && a == d) && contains d (members_of c m))
unfolding leave
contains-leave b c a d m = ground (
  arith,
  members_of-put b c (discard a (members_of b m)) m,
  contains-discard a d (members_of b m),
  int_beq_iff b c,
)

-- The event says whether this address is a member of this Brain, in one of the two roles.
unfoldable pub concerns : String → String → ℤ → Str → Event → Bool
concerns joined left brain_id addr e =
    e.brain_id == brain_id && lower e.address == addr && (e.name == joined || e.name == left)

-- What the last of the events says.
abbrev pub last_says : String → Bool → List Event → Bool
last_says joined before [] = before
last_says joined before (e ∷ events) = last_says joined (e.name == joined) events

is_miner-apply_event :
    (e : Event) (b : ℤ) (a : Str) (x : MemberIndex)
    → is_miner b a (apply_event e.name e.brain_id e.address x) ≡ (
        if concerns "MinerRegistered" "MinerDeregistered" b (lower a) e
        then e.name == "MinerRegistered"
        else is_miner b a x)
unfolding is_miner apply_event concerns
is_miner-apply_event e b a x = ground (
  arith,
  contains-join e.brain_id b (lower e.address) (lower a) x.miners,
  contains-leave e.brain_id b (lower e.address) (lower a) x.miners,
)

is_miner-apply_events :
    (events : List Event) (b : ℤ) (a : Str) (x : MemberIndex)
    → is_miner b a (apply_events events x)
      ≡ last_says "MinerRegistered"
          (is_miner b a x)
          (select (concerns "MinerRegistered" "MinerDeregistered" b (lower a)) events)
unfolding apply_events
is_miner-apply_events [] b a x = refl
is_miner-apply_events (e ∷ events) b a x = ground (
  arith,
  is_miner-apply_events events b a (apply_event e.name e.brain_id e.address x),
  is_miner-apply_event e b a x,
)

is_validator-apply_event :
    (e : Event) (b : ℤ) (a : Str) (x : MemberIndex)
    → is_validator b a (apply_event e.name e.brain_id e.address x) ≡ (
        if concerns "ValidatorRegistered" "ValidatorDeregistered" b (lower a) e
        then e.name == "ValidatorRegistered"
        else is_validator b a x)
unfolding is_validator apply_event concerns
is_validator-apply_event e b a x = elim (Bool-cases (e.name == "MinerRegistered")) [
  | inl same ↦ rw ((eq_iff e.name "MinerRegistered").0 same) (ground arith)
  | inr first ↦ elim (Bool-cases (e.name == "MinerDeregistered")) [
    | inl same ↦ rw ((eq_iff e.name "MinerDeregistered").0 same) (ground arith)
    | inr second ↦ ground (
      arith,
      contains-join e.brain_id b (lower e.address) (lower a) x.validators,
      contains-leave e.brain_id b (lower e.address) (lower a) x.validators,
    )
  ]
]

is_validator-apply_events :
    (events : List Event) (b : ℤ) (a : Str) (x : MemberIndex)
    → is_validator b a (apply_events events x)
      ≡ last_says "ValidatorRegistered"
          (is_validator b a x)
          (select (concerns "ValidatorRegistered" "ValidatorDeregistered" b (lower a)) events)
unfolding apply_events
is_validator-apply_events [] b a x = refl
is_validator-apply_events (e ∷ events) b a x = ground (
  arith,
  is_validator-apply_events events b a (apply_event e.name e.brain_id e.address x),
  is_validator-apply_event e b a x,
)

-- After a rebuild an address is a miner, or a validator, of a Brain exactly when the last of the
-- events on that role, Brain and address, in any case of letters, is a registration. What the
-- index held before has no part in it.
pub replace_membership-last :
    (events : List Event) (b : ℤ) (a : Str) (x : MemberIndex)
    → (is_miner b a (replace_membership events x)
        ≡ last_says "MinerRegistered" false
            (select (concerns "MinerRegistered" "MinerDeregistered" b (lower a)) events))
      × (is_validator b a (replace_membership events x)
          ≡ last_says "ValidatorRegistered" false
              (select (concerns "ValidatorRegistered" "ValidatorDeregistered" b (lower a)) events))
unfolding replace_membership is_miner is_validator members_of lookup
replace_membership-last events b a x =
    let cleared = record x { miners = []; validators = [] } in
    (is_miner-apply_events events b a cleared, is_validator-apply_events events b a cleared)
