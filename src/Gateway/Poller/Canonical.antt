-- ===== src/Gateway/Poller/Canonical.antt =====
-- A poll leaves the poller with the chain's own events, whatever was reorganised since the last one.
use based_ai.Prelude.Lists.{select-append, select-all, select-none, All-map}
use based_ai.Prelude.{
  ℕ, zero, suc, ◌+◌, ◌-◌, ◌≤◌, ◌≡◌, refl, ap, ◌∙◌, false, ◌&&◌, some, String, List, [], ◌∷◌, ◌++◌,
  map, arith, inl, inr, ltb, leb, select, length, Bool-cases, if◌then◌else◌,
}
use based_ai.Prelude.Eq.{◌==◌, nat_eq, string_eq}
use based_ai.Prelude.Result.{Result, ok, ◌>>=◌}
use based_ai.Prelude.Text.{Str}
use based_ai.Prelude.Dict.{Dict, lookup}
use based_ai.Gateway.{replace_membership}
use based_ai.Gateway.Poller.{
  Poller, View, LogEntry, event_of, event_names, gather, plan, sync, rescan, adopt, advance,
  save_result, poll_once, is_before, update, hash_before,
}
use based_ai.Gateway.Poller.Logs.{
  Chain, IsChain, range, by_name, sorted-range, range-append, range-from,
}
use based_ai.Gateway.Poller.Rewind.{
  Binds, Holds, Agree, rewind-Agree, hash_range-update, lookup-select,
}

-- The node answers a poll, and all its answers are of one chain.
pub record Serves (view : View) (c : Chain) : Type 0 where
  pub blocks : (n : ℕ) → view.block_hash n ≡ ok (c.hash n)
  pub logs :
      (name : String) (from head : ℕ)
      → (entries : List LogEntry) × (view.get_logs name from head ≡ ok entries)
        × (map (event_of name) entries
            ≡ select (λ e. e.name == name) (range c from (suc head - from)))

-- The poller holds the events and the hashes of this chain, from block `b` up to its next block.
pub record Tracks (b : ℕ) (c : Chain) (p : Poller) : Type 0 where
  pub base : b ≤ p.next_block
  pub events : p.events ≡ range c b (p.next_block - b)
  pub holds : Holds c b p.next_block p.hashes

gather-by_name :
    (view : View) (c : Chain) (from head : ℕ) (names : List String)
    → Serves view c
    → gather view.get_logs from head names ≡ ok (by_name names (range c from (suc head - from)))
unfolding gather by_name
gather-by_name view c from head [] serves = refl
gather-by_name view c from head (name ∷ names) serves =
    let (entries, read, same) = serves.logs name from head in
    rw (read, gather-by_name view c from head names serves) (rw same refl)

-- The events that a poll keeps.
select-range :
    (c : Chain) (m b k : ℕ)
    → IsChain c
    → m ≤ b + k
    → select (is_before m) (range c b k) ≡ range c b (m - b)
unfolding range
select-range c m b zero chain h = let e : m - b ≡ 0 = omega arith in rw e refl
select-range c m b (suc k) chain h = elim (Bool-cases (ltb b m)) [
  | inl under ↦
      let e : m - b ≡ suc (m - (b + 1)) = ground arith in
      let here =
        select-all (is_before m) (c.events b)
          (All-map _ _ (c.events b) (λ x t. ground arith) (chain.tagged b)) in
      rw (select-append (is_before m) (c.events b) (range c (b + 1) k), e)
        (rw (here, select-range c m (b + 1) k chain (omega arith)) refl)
  | inr over ↦
      let e : m - b ≡ 0 = ground arith in
      rw e (
        select-none (is_before m) (range c b (suc k)) (
          All-map (λ x. b ≤ x.block_number) _ (range c b (suc k)) (λ x t. ground arith)
            (range-from c chain b (suc k))))
]

-- Chains that agree have the same events there.
range-eq_of_Agree :
    (old new : Chain) (b from : ℕ) (k s : ℕ)
    → Agree old new b from
    → b ≤ s
    → s + k ≤ from
    → range old s k ≡ range new s k
unfolding range
range-eq_of_Agree old new b from zero s agree lo hi = refl
range-eq_of_Agree old new b from (suc k) s agree lo hi =
    rw
      (
        agree.events s lo (omega arith),
        range-eq_of_Agree old new b from k (s + 1) agree (omega arith) (omega arith),
      )
      refl

-- Where the events of a poller begin after it has read from `from` on.
abbrev pub base_of : ℕ → ℕ → ℕ
base_of b from = if leb b from then b else from

range-base_of :
    (c : Chain) (b from head : ℕ)
    → from ≤ head
    → range c b (from - b) ++ range c from (suc head - from)
      ≡ range c (base_of b from) (suc head - base_of b from)
unfolding range
range-base_of c b from head h = elim (Bool-cases (leb b from)) [
  | inr under ↦ let none_left : from - b ≡ 0 = ground arith in rw (under, none_left) refl
  | inl over ↦
      let split : suc head - b ≡ (from - b) + (suc head - from) = ground arith in
      let there : b + (from - b) ≡ from = ground arith in
      rw (over, split) (rw (range-append c b (from - b) (suc head - from), there) refl)
]

module _ (old new : Chain) (old_chain : IsChain old) (new_chain : IsChain new)
    (binds : Binds old new) (b : ℕ) (p : Poller) (tracks : Tracks b old p) where
  -- The events that are kept are the new chain's.
  kept_events :
      (from : ℕ)
      → from ≤ p.next_block
      → Agree old new b from
      → select (is_before from) p.events ≡ range new b (from - b)
  unfolding range
  kept_events from low agree = rw tracks.events (
      select-range old from b (p.next_block - b) old_chain (omega (arith, tracks.base))
      ∙ elim (Bool-cases (leb b from)) [
        | inl over ↦
            range-eq_of_Agree old new b from (from - b) b agree (omega arith) (ground arith)
        | inr under ↦ let none_left : from - b ≡ 0 = ground arith in rw none_left refl
      ])

  Holds-update :
      (from head : ℕ) (canonical : Dict ℕ Str)
      → from ≤ p.next_block
      → from ≤ head
      → Agree old new b from
      → ((n : ℕ) (d : Dict ℕ Str)
          → lookup n (update d canonical) ≡ (
              if leb from n && ltb n (from + (suc head - from))
              then some (new.hash n)
              else lookup n d))
      → Holds new
          (base_of b from)
          (suc head)
          (update (select (hash_before from) p.hashes) canonical)
  Holds-update from head canonical low below agree found n = ground (
    arith,
    found n (select (hash_before from) p.hashes),
    lookup-select from n p.hashes,
    tracks.holds n,
    agree.hashes n,
  )

  -- The end of the poll after the events from `from` on have been read.
  adopted : View → ℕ → ℕ → Dict ℕ Str → Result ℕ × Poller
  adopted view from head canonical =
      adopt view.written head from canonical (range new from (suc head - from))
        (record p { events = select (is_before from) p.events })

  sync-adopted :
      (view : View) (from head : ℕ) (canonical : Dict ℕ Str)
      → Serves view new
      → plan view head p ≡ ok (from, canonical)
      → sync view head p ≡ adopted view from head canonical
  unfolding sync rescan adopted
  sync-adopted view from head canonical serves planned =
      rw (planned, sync)
        (rw (gather-by_name view new from head event_names serves, rescan)
          (rw (sorted-range new new_chain from (suc head - from)) refl))

  adopted-Tracks :
      (view : View) (from head : ℕ) (canonical : Dict ℕ Str)
      → from ≤ p.next_block
      → from ≤ head
      → Agree old new b from
      → ((n : ℕ) (d : Dict ℕ Str)
          → lookup n (update d canonical) ≡ (
              if leb from n && ltb n (from + (suc head - from))
              then some (new.hash n)
              else lookup n d))
      → Tracks (base_of b from) new (adopted view from head canonical).1
        × ((adopted view from head canonical).1.index
            ≡ replace_membership (range new (base_of b from) (suc head - base_of b from)) p.index)
  unfolding adopted adopt advance
  adopted-Tracks view from head canonical low below agree laid =
      let events =
        ap (λ l. l ++ range new from (suc head - from)) (kept_events from low agree)
        ∙ range-base_of new b from head below in
      (
        record {
          base = ground arith;
          events = events;
          holds = Holds-update from head canonical low below agree laid;
        },
        ap (λ l. replace_membership l p.index) events,
      )

  -- Where the poller holds the events and hashes of one chain, an equal hash in two chains means equal
  -- blocks up to it, and the node answers every call from a new chain with enough new blocks, a poll
  -- ends well, but for what writing the cursor's file raises. Either way the poller then holds exactly the new chain's events and hashes up to the head, from a
  -- block at or below the one before, however much of the old chain is gone; and the index is the
  -- one that is rebuilt from those events.
  pub poll_once-Tracks :
      (view : View) (number : ℕ)
      → Serves view new
      → view.block_number ≡ ok number
      → p.next_block + p.confirmations ≤ number
      → (count : ℕ) × (base : ℕ) × ((poll_once view p).0
          ≡ (save_result view.written p.store >>= λ done. ok count))
        × (base ≤ b)
        × ((poll_once view p).1.next_block ≡ suc (number - p.confirmations))
        × Tracks base new (poll_once view p).1
        × ((poll_once view p).1.index
            ≡ replace_membership (range new base (suc (number - p.confirmations) - base)) p.index)
  unfolding poll_once plan adopted adopt advance
  poll_once-Tracks view number serves answered ahead =
      let head : ℕ = number - p.confirmations in
      let (from, found, low, above, agree) =
        rewind-Agree old new binds view.block_hash serves.blocks b p.next_block p.hashes
          tracks.holds (p.next_block - p.reorg_buffer) (omega arith) in
      let (canonical, read, laid) =
        hash_range-update new view.block_hash serves.blocks from (suc head - from) in
      let planned : plan view head p ≡ ok (from, canonical) = rw (found, read) refl in
      let enough : ltb number (p.next_block + p.confirmations) ≡ false = ground arith in
      let polled : poll_once view p ≡ sync view head p = ground arith in
      let (synced, index) =
        adopted-Tracks view from head canonical (omega arith) (omega arith) agree laid in
      let whole = polled ∙ sync-adopted view from head canonical serves planned in
      (
        length (range new from (suc head - from)),
        base_of b from,
        rw whole refl,
        ground arith,
        rw whole refl,
        rw whole synced,
        rw whole index,
      )
