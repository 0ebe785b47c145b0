-- ===== src/Tests/Pollers.antt =====
-- The theorems on the gateway's poller, at a chain whose last two blocks were replaced.
use based_ai.Prelude.{
  ℕ, suc, ◌-◌, ◌≤◌, ◌≡◌, refl, List, [], ◌∷◌, some, true, false, String, arith, inl, inr, nat_beq,
  select, map, Bool-cases, if◌then◌else◌, ltb,
}
use based_ai.Prelude.Eq.{◌==◌, string_eq}
use based_ai.Prelude.Int.{pos}
use based_ai.Prelude.Result.{ok, raise, other}
use based_ai.Prelude.Text.{Str}
use based_ai.Prelude.Dict.{Dict, lookup}
use based_ai.Gateway.{Event, MemberIndex, replace_membership}
use based_ai.Gateway.Poller.{
  Poller, View, Cursor, LogEntry, event_of, poll_once, is_before, cursor_of,
}
use based_ai.Gateway.Poller.Logs.{Chain, IsChain, range}
use based_ai.Gateway.Poller.Rewind.{Binds}
use based_ai.Gateway.Poller.Canonical.{Serves, Tracks, poll_once-Tracks}
use based_ai.Gateway.Poller.Restart.{
  restarted, resume_point, Interrupted, poll_once-restarted, poll_once-raise,
}
use based_ai.Tests.World.{ann, bob}

abbrev joined : Str → Event
joined a = record {
  name = "MinerRegistered";
  brain_id = pos 7;
  address = a;
  block_number = 2;
  log_index = 0;
}

-- In block 2 Ann registers, or, once it is replaced, Bob.
abbrev chain_of : Str → ℕ → Chain
chain_of a tag = record {
  hash = λ n. if ltb n 2 then n ∷ [] else n ∷ tag ∷ [];
  events = λ n. if nat_beq n 2 then joined a ∷ [] else [];
}

chain_of-IsChain : (a : Str) (tag : ℕ) → IsChain (chain_of a tag)
chain_of-IsChain a tag = record {
  tagged =
      λ n. elim (Bool-cases (nat_beq n 2)) [ inl e ↦ rw e (ground arith, tt) | inr e ↦ rw e tt ];
  named = λ n. elim (Bool-cases (nat_beq n 2)) [ inl e ↦ rw e (refl, tt) | inr e ↦ rw e tt ];
  ordered = λ n. elim (Bool-cases (nat_beq n 2)) [ inl e ↦ rw e (tt, tt) | inr e ↦ rw e tt ];
}

abbrev before : Chain
before = chain_of ann 8

abbrev after : Chain
after = chain_of bob 9

reorganised : Binds before after
reorganised = record {
  hashes = λ n m same low. elim (Bool-cases (ltb n 2)) [
    | inl e ↦ let under : ltb m 2 ≡ true = ground arith in rw under refl
    | inr e ↦ absurd (tags_differ n (rw e at same))
  ];
  events = λ n m same low. elim (Bool-cases (ltb n 2)) [
    | inl e ↦ let under : nat_beq m 2 ≡ false = ground arith in rw under refl
    | inr e ↦ absurd (tags_differ n (rw e at same))
  ];
}
  where
    tags_differ : (n : ℕ) → ◌≡◌ {A = Str} (n ∷ 8 ∷ []) (n ∷ 9 ∷ []) → ⊥
    tags_differ n h = cc

-- A node that answers from one chain.
abbrev entry_of : Event → LogEntry
entry_of e = record {
  brain_id = e.brain_id;
  member = e.address;
  block_number = e.block_number;
  log_index = e.log_index;
}

abbrev node : Chain → ℕ → View
node c number = record {
  block_number = ok number;
  block_hash = λ n. ok (c.hash n);
  get_logs = λ name from head.
      ok (map entry_of (select (λ e. e.name == name) (range c from (suc head - from))));
  written = ok tt;
}

read_back :
    (name : String) (l : List Event)
    → map (event_of name) (map entry_of (select (λ e. e.name == name) l))
      ≡ select (λ e. e.name == name) l
read_back name [] = refl
read_back name (e ∷ l) = elim (Bool-cases (e.name == name)) [
  | inl same ↦ rw same (cc ((string_eq.beq_iff e.name name).0 same, read_back name l))
  | inr differs ↦ rw differs (read_back name l)
]

node-Serves : (c : Chain) (number : ℕ) → Serves (node c number) c
node-Serves c number = record {
  blocks = λ n. refl;
  logs = λ name from head. (
    map entry_of (select (λ e. e.name == name) (range c from (suc head - from))),
    refl,
    read_back name _,
  );
}

abbrev empty_index : MemberIndex
empty_index = record { miners = []; validators = []; endpoints = []; ttl = pos 600 }

-- A poller that has read the blocks 0 to 3 of the old chain.
abbrev held : Dict ℕ Str
held = (0, 0 ∷ []) ∷ (1, 1 ∷ []) ∷ (2, 2 ∷ 8 ∷ []) ∷ (3, 3 ∷ 8 ∷ []) ∷ []

abbrev saved : Cursor
saved = record { next_block = 4; events = joined ann ∷ []; hashes = held }

abbrev poller : Poller
poller = record {
  index = empty_index;
  confirmations = 1;
  reorg_buffer = 1;
  events = joined ann ∷ [];
  hashes = held;
  next_block = 4;
  store = some (some saved);
}

poller-Tracks : Tracks 0 before poller
unfolding range lookup
poller-Tracks = record { base = omega arith; events = refl; holds = λ n. ground arith }

poll_once-Tracks_example :
    (count : ℕ) × (base : ℕ) × ((poll_once (node after 6) poller).0 ≡ ok count)
    × (base ≤ 0)
    × ((poll_once (node after 6) poller).1.next_block ≡ 6)
    × Tracks base after (poll_once (node after 6) poller).1
    × ((poll_once (node after 6) poller).1.index
        ≡ replace_membership (range after base (6 - base)) empty_index)
poll_once-Tracks_example =
    poll_once-Tracks before after (chain_of-IsChain ann 8) (chain_of-IsChain bob 9) reorganised 0
      poller poller-Tracks (node after 6) 6 (node-Serves after 6) refl (omega arith)

poll_once-restarted_example :
    (cursor_of (restarted 0 empty_index poller (poll_once (node after 6) poller).1.store)
      ≡ resume_point poller (poll_once (node after 6) poller))
    × ((restarted 0 empty_index poller (poll_once (node after 6) poller).1.store).index
        ≡ replace_membership
            (resume_point poller (poll_once (node after 6) poller)).events
            empty_index)
    × ((restarted 0 empty_index poller (poll_once (node after 6) poller).1.store).store
        ≡ some (
            some (
              cursor_of
                (restarted 0 empty_index poller (poll_once (node after 6) poller).1.store))))
poll_once-restarted_example = poll_once-restarted (node after 6) poller 0 empty_index refl

-- A node that fails once the logs are asked for.
abbrev failing : View
failing = record {
  block_number = ok 6;
  block_hash = λ n. ok (after.hash n);
  get_logs = λ name from head. raise other;
  written = ok tt;
}

raised : poll_once failing poller ≡ (raise other, record poller { events = [] })
unfolding poll_once based_ai.Gateway.Poller.sync based_ai.Gateway.Poller.plan lookup
    based_ai.Gateway.Poller.rescan based_ai.Gateway.Poller.gather
raised = refl

poll_once-raise_example :
    Interrupted failing poller other (record poller { events = [] }) × (poller.store ≡ poller.store)
poll_once-raise_example =
    poll_once-raise failing poller {e = other} {after = record poller { events = [] }} raised
