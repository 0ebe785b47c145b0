-- ===== src/Gateway/Poller/Restart.antt =====
-- What a poll that raises leaves, and where a restarted poller resumes.
use based_ai.Prelude.{
  ℕ, ◌+◌, ◌-◌, ◌≡◌, ◌⊎◌, refl, Option, none, some, arith, inl, inr, ltb, select, Bool-cases, List,
  ap, sym, length,
}
use mathlib.Core.Path.{subst}
use based_ai.Prelude.Sort.{sorted}
use based_ai.Prelude.Eq.{nat_eq}
use based_ai.Prelude.Result.{Exn, Result, ok, raise, ◌>>=◌, Result-cases}
use based_ai.Prelude.Text.{Str}
use based_ai.Prelude.Dict.{Dict, lookup}
use based_ai.Gateway.{Event, MemberIndex, replace_membership}
use based_ai.Gateway.Poller.{
  Poller, View, Cursor, poll_once, sync, plan, rescan, adopt, advance, cursor_of, save_result,
  save_state, gather, is_before, event_names, event_le, start_poller,
}
use based_ai.Gateway.Poller.Logs.{Chain, range}
use based_ai.Gateway.Poller.Canonical.{Tracks}

-- Before its first poll a poller that has no stored state tracks every chain, from its start.
pub start_poller-Tracks :
    (c : Chain) (start confirmations reorg_buffer : ℕ) (index : MemberIndex)
    → Tracks start c (start_poller start confirmations reorg_buffer (some none) index)
unfolding start_poller range lookup
start_poller-Tracks c start confirmations reorg_buffer index =
    let nothing : start - start ≡ 0 = omega arith in
    record { base = omega arith; events = rw nothing refl; holds = λ n. ground arith }

-- Where a restart resumes after a poll: where the poll ended, or where it began if it raised.
abbrev pub resume_point : Poller → Result ℕ × Poller → Cursor
resume_point before (ok count, after) = cursor_of after
resume_point before (raise e, after) = cursor_of before

-- The store holds what the restart is to resume from.
abbrev Stores : Poller → Result ℕ × Poller → Type 0
Stores p r = r.1.store ≡ some (some (resume_point p r))

rescan-Stores :
    (view : View) (head from : ℕ) (canonical : Dict ℕ Str) (p : Poller)
    → p.store ≡ some (some (cursor_of p))
    → Stores p (rescan view head from canonical p)
unfolding rescan adopt
rescan-Stores view head from canonical p saved =
    elim (Result-cases (gather view.get_logs from head event_names)) [
      | inl (logs, read) ↦ rw (read, rescan) (ground arith)
      | inr (e, raised) ↦ rw (raised, rescan) saved
    ]

sync-Stores :
    (view : View) (head : ℕ) (p : Poller)
    → p.store ≡ some (some (cursor_of p))
    → Stores p (sync view head p)
unfolding sync
sync-Stores view head p saved = elim (Result-cases (plan view head p)) [
  | inl ((from, canonical), planned) ↦
      rw (planned, sync) (rescan-Stores view head from canonical p saved)
  | inr (e, raised) ↦ rw (raised, sync) saved
]

poll_once-Stores :
    (view : View) (p : Poller) → p.store ≡ some (some (cursor_of p)) → Stores p (poll_once view p)
unfolding poll_once
poll_once-Stores view p saved = elim (Result-cases view.block_number) [
  | inr (e, raised) ↦ simp (raised, poll_once) saved
  | inl (number, answered) ↦ elim (Bool-cases (ltb number (p.next_block + p.confirmations))) [
    | inl behind ↦ simp (answered, poll_once) (rw behind saved)
    | inr ahead ↦
        simp (answered, poll_once) (rw ahead (sync-Stores view (number - p.confirmations) p saved))
  ]
]

-- The poller that a restart makes of the store.
abbrev pub restarted : ℕ → MemberIndex → Poller → Option (Option Cursor) → Poller
restarted start index p store = start_poller start p.confirmations p.reorg_buffer store index

restarted_lem :
    (start : ℕ) (index : MemberIndex) (p : Poller) (cursor : Cursor)
    {store : Option (Option Cursor)}
    → store ≡ some (some cursor)
    → (cursor_of (restarted start index p store) ≡ cursor)
      × ((restarted start index p store).index ≡ replace_membership cursor.events index)
      × ((restarted start index p store).store
          ≡ some (some (cursor_of (restarted start index p store))))
unfolding start_poller
restarted_lem start index p cursor stored = rw stored (refl, refl, refl)

-- Where the store holds what the poller holds before a poll, a poller that is stopped after that poll
-- and started again on its store resumes at the state that the poll left, or at the state before the
-- poll where the poll raised; the index is rebuilt from the events of that state, and the store again
-- holds what the restarted poller holds.
pub poll_once-restarted :
    (view : View) (p : Poller) (start : ℕ) (index : MemberIndex)
    → p.store ≡ some (some (cursor_of p))
    → (cursor_of (restarted start index p (poll_once view p).1.store)
        ≡ resume_point p (poll_once view p))
      × ((restarted start index p (poll_once view p).1.store).index
          ≡ replace_membership (resume_point p (poll_once view p)).events index)
      × ((restarted start index p (poll_once view p).1.store).store
          ≡ some (some (cursor_of (restarted start index p (poll_once view p).1.store))))
poll_once-restarted view p start index saved =
    restarted_lem start index p (resume_point p (poll_once view p)) (poll_once-Stores view p saved)

-- The poller with the events of before a block alone.
abbrev pub shortened : ℕ → Poller → Poller
shortened from p = record p { events = select (is_before from) p.events }

-- How a poll that raises has changed the poller: not at all; by dropping the events of the blocks
-- from some block on, where reading the logs raised; or, where writing the file raised, as a poll
-- does that ends well, but for the store.
pub data Interrupted (view : View) (p : Poller) (e : Exn) : Poller → Type 0 where
  unchanged : Interrupted view p e p
  dropped :
      (head from : ℕ)
      → gather view.get_logs from head event_names ≡ raise e
      → Interrupted view p e (shortened from p)
  unsaved :
      (head from : ℕ) (canonical : Dict ℕ Str) (logs : List Event)
      → plan view head p ≡ ok (from, canonical)
      → gather view.get_logs from head event_names ≡ ok logs
      → view.written ≡ raise e
      → Interrupted view p e (advance head from canonical (sorted event_le logs) (shortened from p))

abbrev Shortened : View → Poller → Result ℕ × Poller → Type 0
Shortened view p (ok count, after) = Unit
Shortened view p (raise e, after) = Interrupted view p e after

-- Saving ends well, or raises what writing raised and leaves the file.
save_cases :
    (written : Result (Unit {0})) (store : Option (Option Cursor)) (cursor : Cursor) (count : ℕ)
    → ((save_result written store >>= λ done. ok count) ≡ ok count)
      ⊎ ((e : Exn) × ((save_result written store >>= λ done. ok count) ≡ raise e)
          × (written ≡ raise e)
          × (save_state written cursor store ≡ store))
save_cases written none cursor count = inl refl
save_cases (ok done) (some file) cursor count = inl refl
save_cases (raise e) (some file) cursor count = inr (e, refl, refl, refl)

Shortened-of :
    (view : View) (p after : Poller) (r : Result ℕ)
    → ((n : ℕ) × (r ≡ ok n)) ⊎ ((e : Exn) × (r ≡ raise e) × Interrupted view p e after)
    → Shortened view p (r, after)
Shortened-of view p after r (inl (n, ended)) = rw ended tt
Shortened-of view p after r (inr (e, raised, how)) = rw raised how

adopt-Shortened :
    (view : View) (head from : ℕ) (canonical : Dict ℕ Str) (logs : List Event) (p : Poller)
    → plan view head p ≡ ok (from, canonical)
    → gather view.get_logs from head event_names ≡ ok logs
    → Shortened view p
        (adopt view.written head from canonical (sorted event_le logs) (shortened from p))
unfolding adopt advance
adopt-Shortened view head from canonical logs p planned read =
    let after = advance head from canonical (sorted event_le logs) (shortened from p) in
    Shortened-of view p _ _
      (elim (save_cases view.written p.store (cursor_of after) (length (sorted event_le logs))) [
        | inl ended ↦ inl (_, ended)
        | inr (e, ended, raised, kept) ↦ inr (
          e,
          ended,
          subst (Interrupted view p e) (ap (λ s. record after { store = s }) (sym kept))
              (unsaved head from canonical logs planned read raised),
        )
      ])

rescan-Shortened :
    (view : View) (head from : ℕ) (canonical : Dict ℕ Str) (p : Poller)
    → plan view head p ≡ ok (from, canonical)
    → Shortened view p (rescan view head from canonical p)
unfolding rescan
rescan-Shortened view head from canonical p planned =
    elim (Result-cases (gather view.get_logs from head event_names)) [
      | inl (logs, read) ↦
          rw (read, rescan) (adopt-Shortened view head from canonical logs p planned read)
      | inr (e, raised) ↦ rw (raised, rescan) (dropped head from raised)
    ]

sync-Shortened : (view : View) (head : ℕ) (p : Poller) → Shortened view p (sync view head p)
unfolding sync
sync-Shortened view head p = elim (Result-cases (plan view head p)) [
  | inl ((from, canonical), planned) ↦
      rw (planned, sync) (rescan-Shortened view head from canonical p planned)
  | inr (e, raised) ↦ rw (raised, sync) unchanged
]

poll_once-Shortened : (view : View) (p : Poller) → Shortened view p (poll_once view p)
unfolding poll_once
poll_once-Shortened view p = elim (Result-cases view.block_number) [
  | inr (e, raised) ↦ simp (raised, poll_once) unchanged
  | inl (number, answered) ↦ elim (Bool-cases (ltb number (p.next_block + p.confirmations))) [
    | inl behind ↦ simp (answered, poll_once) (rw behind tt)
    | inr ahead ↦
        simp (answered, poll_once) (rw ahead (sync-Shortened view (number - p.confirmations) p))
  ]
]

Interrupted-store :
    (view : View) (p : Poller) {e : Exn} {after : Poller}
    → Interrupted view p e after
    → after.store ≡ p.store
unfolding advance
Interrupted-store view p unchanged = refl
Interrupted-store view p (dropped head from raised) = refl
Interrupted-store view p (unsaved head from canonical logs planned read raised) = refl

-- A poll that raises leaves the store as it was. Of the poller it changes nothing, or, where asking
-- for the logs raised, drops the events of the blocks from some block on, but neither the index nor
-- the hashes nor the next block, so that the events may be fewer than those say; or, where writing
-- the cursor's file raised, the poller has advanced as after a poll that ends well.
pub poll_once-raise :
    (view : View) (p : Poller) {e : Exn} {after : Poller}
    → poll_once view p ≡ (raise e, after)
    → Interrupted view p e after × (after.store ≡ p.store)
poll_once-raise view p {e} {after} h =
    let how : Interrupted view p e after = rw h at (poll_once-Shortened view p) in
    (how, Interrupted-store view p how)
