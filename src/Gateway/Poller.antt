-- ===== src/Gateway/Poller.antt =====
-- `ChainPoller` and `CursorStore` of gateway/src/basedai_gateway/server.py: the registry's events,
-- read again from the common ancestor where the chain was reorganised. What the node answers is a
-- parameter, and each call may raise. The keys of the stored hashes are block numbers, which the
-- source writes as decimal texts. Writing the cursor's file may raise too.
pub mod Logs
pub mod Rewind
pub mod Canonical
pub mod Restart
use based_ai.Prelude.{
  ℕ, zero, suc, ◌+◌, ◌-◌, Bool, true, false, ◌&&◌, ◌||◌, Option, none, some, String, List, [], ◌∷◌,
  ◌++◌, map, ltb, leb, nat_beq, length, select, if◌then◌else◌,
}
use based_ai.Prelude.Eq.{◌==◌, nat_eq, list_eq}
use based_ai.Prelude.Int.{ℤ}
use based_ai.Prelude.Result.{Result, ok, raise, ◌>>=◌}
use based_ai.Prelude.Text.{Str}
use based_ai.Prelude.Sort.{sorted}
use based_ai.Prelude.Dict.{Dict, lookup, put}
use based_ai.Gateway.{Event, MemberIndex, replace_membership}

-- A decoded log of one of the four events: its member is the argument that the ABI names `miner`
-- or `validator`.
pub record LogEntry : Type 0 where
  pub brain_id : ℤ
  pub member : Str
  pub block_number : ℕ
  pub log_index : ℕ

-- What the node answers during one poll, and whether the cursor's file can be written at its end.
pub record View : Type 0 where
  pub block_number : Result ℕ
  pub block_hash : ℕ → Result Str
  pub get_logs : String → ℕ → ℕ → Result (List LogEntry)
  pub written : Result (Unit {0})

-- What `CursorStore` keeps on disk; a save replaces it as a whole.
pub record Cursor : Type 0 where
  pub next_block : ℕ
  pub events : List Event
  pub hashes : Dict ℕ Str

-- The poller with the index that it keeps and the file of its store, if it has one: `none` inside
-- is a file that is missing or cannot be read.
pub record Poller : Type 0 where
  pub index : MemberIndex
  pub confirmations : ℕ
  pub reorg_buffer : ℕ
  pub events : List Event
  pub hashes : Dict ℕ Str
  pub next_block : ℕ
  pub store : Option (Option Cursor)

abbrev pub event_names : List String
event_names =
    "MinerRegistered" ∷ "MinerDeregistered" ∷ "ValidatorRegistered" ∷ "ValidatorDeregistered" ∷ []

abbrev pub event_of : String → LogEntry → Event
event_of name entry = record {
  name = name;
  brain_id = entry.brain_id;
  address = entry.member;
  block_number = entry.block_number;
  log_index = entry.log_index;
}

-- The order of the pairs (block_number, log_index).
unfoldable pub event_le : Event → Event → Bool
event_le a b =
    ltb a.block_number b.block_number
    || nat_beq a.block_number b.block_number && leb a.log_index b.log_index

-- The walk back to the common ancestor; it goes from `probe + 1`, and gives the first block to read.
unfoldable pub rewind : (ℕ → Result Str) → Dict ℕ Str → ℕ → Result ℕ
rewind block_hash hashes zero = ok zero
rewind block_hash hashes (suc probe) = elim (lookup probe hashes) [
  | none ↦ ok (suc probe)
  | some held ↦ do
    canonical ← block_hash probe
    elim (canonical == held) [ true ↦ ok (suc probe) | false ↦ rewind block_hash hashes probe ]
]

-- `canonical_hashes`, over a number of blocks
unfoldable pub hash_range : (ℕ → Result Str) → ℕ → ℕ → Result (Dict ℕ Str)
hash_range block_hash from zero = ok []
hash_range block_hash from (suc count) = do
  hash ← block_hash from
  rest ← hash_range block_hash (from + 1) count
  ok ((from, hash) ∷ rest)

-- The loop over the names of the events.
unfoldable pub gather :
    (String → ℕ → ℕ → Result (List LogEntry)) → ℕ → ℕ → List String → Result (List Event)
gather get_logs from head [] = ok []
gather get_logs from head (name ∷ names) = do
  entries ← get_logs name from head
  rest ← gather get_logs from head names
  ok (map (event_of name) entries ++ rest)

-- `d.update(e)`
unfoldable pub update : Dict ℕ Str → Dict ℕ Str → Dict ℕ Str
update d [] = d
update d ((k, v) ∷ e) = update (put k v d) e

abbrev pub is_before : ℕ → Event → Bool
is_before from e = ltb e.block_number from

abbrev pub hash_before : ℕ → ℕ × Str → Bool
hash_before from h = ltb h.0 from

-- What is saved of a poller.
abbrev pub cursor_of : Poller → Cursor
cursor_of p = record { next_block = p.next_block; events = p.events; hashes = p.hashes }

-- What saving raises: nothing without a store.
abbrev pub save_result : Result (Unit {0}) → Option (Option Cursor) → Result (Unit {0})
save_result written none = ok tt
save_result written (some file) = written

-- `save_state`, where there is a store: the file is replaced at the end, or stays as it was.
abbrev pub save_state : Result (Unit {0}) → Cursor → Option (Option Cursor) → Option (Option Cursor)
save_state written cursor none = none
save_state (ok _) cursor (some file) = some (some cursor)
save_state (raise e) cursor (some file) = some file

-- From the extension of `self._events` to the next block: nothing here can raise.
unfoldable pub advance : ℕ → ℕ → Dict ℕ Str → List Event → Poller → Poller
advance head from canonical applied p =
    let events = p.events ++ applied in
    record p {
      index = replace_membership events p.index;
      events = events;
      hashes = update (select (hash_before from) p.hashes) canonical;
      next_block = suc head;
    }

-- The rest of the poll: the poller has advanced before the cursor is saved.
unfoldable pub adopt :
    Result (Unit {0}) → ℕ → ℕ → Dict ℕ Str → List Event → Poller → Result ℕ × Poller
unfolding advance
adopt written head from canonical applied p =
    let after = advance head from canonical applied p in
    (
      save_result written p.store >>= λ done. ok (length applied),
      record after { store = save_state written (cursor_of after) p.store },
    )

-- The events of before `from` are all that is kept when the logs are asked for.
unfoldable pub rescan : View → ℕ → ℕ → Dict ℕ Str → Poller → Result ℕ × Poller
unfolding adopt event_le
rescan view head from canonical p =
    let kept = record p { events = select (is_before from) p.events } in
    elim (gather view.get_logs from head event_names) [
      | raise e ↦ (raise e, kept)
      | ok logs ↦ adopt view.written head from canonical (sorted event_le logs) kept
    ]

-- The calls before the first assignment: where to read from, and the hashes from there on.
unfoldable pub plan : View → ℕ → Poller → Result (ℕ × Dict ℕ Str)
unfolding rewind hash_range
plan view head p = do
  from ← rewind view.block_hash p.hashes (p.next_block - p.reorg_buffer)
  canonical ← hash_range view.block_hash from (suc head - from)
  ok (from, canonical)

unfoldable pub sync : View → ℕ → Poller → Result ℕ × Poller
sync view head p = elim (plan view head p) [
  | raise e ↦ (raise e, p)
  | ok (from, canonical) ↦ rescan view head from canonical p
]

-- `head < self._next_block` is tested without the difference, which may be negative.
unfoldable pub poll_once : View → Poller → Result ℕ × Poller
poll_once view p = elim view.block_number [
  | raise e ↦ (raise e, p)
  | ok number ↦
      if ltb number (p.next_block + p.confirmations)
      then (ok 0, p)
      else sync view (number - p.confirmations) p
]

abbrev or_start : ℕ → Option Cursor → Cursor
or_start start none = record { next_block = start; events = []; hashes = [] }
or_start start (some cursor) = cursor

abbrev pub load_state : Option (Option Cursor) → Option Cursor
load_state none = none
load_state (some file) = file

-- `ChainPoller(...)`, with the index that it is given
unfoldable pub start_poller : ℕ → ℕ → ℕ → Option (Option Cursor) → MemberIndex → Poller
start_poller start confirmations reorg_buffer store index =
    let cursor = or_start start (load_state store) in
    record {
      index = replace_membership cursor.events index;
      confirmations = confirmations;
      reorg_buffer = reorg_buffer;
      events = cursor.events;
      hashes = cursor.hashes;
      next_block = cursor.next_block;
      store = store;
    }
