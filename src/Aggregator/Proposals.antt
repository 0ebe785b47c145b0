-- ===== src/Aggregator/Proposals.antt =====
-- `try_propose`: what a submission says of the state, and when an epoch is submitted again.
use mathlib.Core.Path.{ap}
use based_ai.Prelude.{
  ◌*◌, ◌≤◌, ◌≡◌, ◌≢◌, ◌⊎◌, refl, true, false, Option, some, none, List, [], ◌∷◌, ◌++◌, arith,
  Bool-cases, Option-cases, inl, inr, contains, Bool, map,
}
use based_ai.Prelude.Eq.{◌==◌, int_eq, pair_eq, list_eq, nat_eq, pair_beq_iff, beq_refl}
use based_ai.Prelude.Int.{ℤ}
use based_ai.Prelude.Result.{Result, ok, raise}
use based_ai.Prelude.Text.{Str}
use based_ai.Web3.{Web3}
use based_ai.Commitment.{Root, hex}
use based_ai.Quorum.{Stakes, needed-le_iff}
use based_ai.Aggregator.{
  Aggregator, add_commitment, best_root, backing_stake, quorum_met, submit, record_proposal,
  Propose, try_propose,
}
use based_ai.Aggregator.Best.{HasEntry, backing, best_root-max}

module _ (st : Stakes) (epoch brain_id : ℤ) (agg : Aggregator) where
  -- The quorum test is the exact share of the stake, and fails where there is no stake.
  pub quorum_met_sound :
      (root : Root)
      → quorum_met st epoch brain_id root agg ≡ true
      → (st.total_stake brain_id ≢ 0)
        × (st.total_stake brain_id * agg.min_quorum_bps
            ≤ backing_stake st epoch brain_id root agg * 10000)
  unfolding quorum_met
  quorum_met_sound root h =
      let stake = backing_stake st epoch brain_id root agg in
      let total = st.total_stake brain_id in
      (ground arith, (needed-le_iff total agg.min_quorum_bps stake).0 (ground arith))

  -- What holds where a call of `try_propose` has sent the transaction `tx`.
  pub record IsProposed (propose : Propose) (tx : Str) (agg' : Aggregator) : Type 0 where
    pub root : Str
    pub is_first : contains (epoch, brain_id) agg.proposed ≡ false
    pub has_entry : HasEntry st epoch brain_id agg root
    pub is_best :
        (other : Str)
        → HasEntry st epoch brain_id agg other
        → backing st epoch brain_id agg other ≤ backing st epoch brain_id agg root
    pub has_stake : st.total_stake brain_id ≢ 0
    pub has_quorum :
        st.total_stake brain_id * agg.min_quorum_bps ≤ backing st epoch brain_id agg root * 10000
    pub sent : submit propose epoch brain_id root agg ≡ ok tx
    pub recorded : agg' ≡ record agg { proposed = (epoch, brain_id) ∷ agg.proposed }

  -- A transaction is sent only for a root that has the most stake behind it, and the quorum, and
  -- only for an epoch and Brain not proposed before; the call then records that it was.
  pub try_propose-IsProposed :
      (propose : Propose) {tx : Str} {agg' : Aggregator}
      → try_propose st propose epoch brain_id agg ≡ (ok (some tx), agg')
      → IsProposed propose tx agg'
  unfolding try_propose
  try_propose-IsProposed propose {tx} {agg'} h =
      elim (Option-cases (best_root st epoch brain_id agg)) [
        | inl absent ↦ absurd (ground arith)
        | inr (root, best) ↦
            let (entry, most) = best_root-max st epoch brain_id agg best in
            let quorum : quorum_met st epoch brain_id (hex root) agg ≡ true = ground arith in
            let (stake, share) = quorum_met_sound (hex root) quorum in
            record {
              root = root;
              is_first = ground arith;
              has_entry = entry;
              is_best = most;
              has_stake = stake;
              has_quorum = share;
              sent = ground arith;
              recorded = ground arith;
            }
      ]

  -- An epoch and Brain that are recorded are never submitted again: the call does nothing.
  pub try_propose-again :
      (propose : Propose)
      → contains (epoch, brain_id) agg.proposed ≡ true
      → try_propose st propose epoch brain_id agg ≡ (ok none, agg)
  unfolding try_propose
  try_propose-again propose h = rw h

-- The calls that reach the aggregator, each with what the chain answers at its time.
pub data Call : Type 0 where
  commit : ℤ → ℤ → Root → Str → Str → Call
  propose : Stakes → Propose → ℤ → ℤ → Call

-- A call that did submit, or try to: its key, and whether it returned a transaction. One that raised
-- did not, even where the node had taken its transaction.
abbrev pub Submission : Type 0
Submission = (ℤ × ℤ) × Bool

-- What a call submitted, and the state that it leaves.
abbrev submitted : ℤ × ℤ → Result (Option Str) × Aggregator → List Submission × Aggregator
submitted key (ok none, agg) = ([], agg)
submitted key (ok (some tx), agg) = ((key, true) ∷ [], agg)
submitted key (raise e, agg) = ((key, false) ∷ [], agg)

step : Web3 → Call → Aggregator → List Submission × Aggregator
step w (commit epoch brain_id root signer signature) agg =
    ([], (add_commitment w epoch brain_id root signer signature agg).1)
step w (propose st send epoch brain_id) agg =
    submitted (epoch, brain_id) (try_propose st send epoch brain_id agg)

-- All submissions of a run, in order.
pub submissions : Web3 → List Call → Aggregator → List Submission
submissions w [] agg = []
submissions w (c ∷ calls) agg = let (sent, agg') = step w c agg in sent ++ submissions w calls agg'

-- Whether a key is among those of the submissions.
abbrev pub submits : ℤ × ℤ → List Submission → Bool
submits k l = contains k (map (λ s. s.0) l)

-- No key is submitted again after a submission of it that returned.
abbrev pub IsFinal : List Submission → Type 0
IsFinal [] = Unit
IsFinal ((k, true) ∷ later) = (submits k later ≡ false) × IsFinal later
IsFinal ((k, false) ∷ later) = IsFinal later

pub proposed-add_commitment :
    (w : Web3) (epoch brain_id : ℤ) (root : Root) (signer signature : Str) (agg : Aggregator)
    → (add_commitment w epoch brain_id root signer signature agg).1.proposed ≡ agg.proposed
unfolding add_commitment
proposed-add_commitment w epoch brain_id root signer signature agg = ground arith

-- A call submits nothing, or fails to submit a new key, and leaves the record alone; or it submits one
-- new key and records it.
abbrev Advance : List Submission → Aggregator → Aggregator → Type 0
Advance sent agg agg' =
    ((sent ≡ []) × (agg'.proposed ≡ agg.proposed))
    ⊎ ((k : ℤ × ℤ) × (contains k agg.proposed ≡ false)
        × (((sent ≡ (k, false) ∷ []) × (agg'.proposed ≡ agg.proposed))
            ⊎ ((sent ≡ (k, true) ∷ []) × (agg'.proposed ≡ k ∷ agg.proposed))))

record_proposal-Advance :
    (key : ℤ × ℤ) (sent : Result Str) (agg : Aggregator)
    → contains key agg.proposed ≡ false
    → Advance
        (submitted key (record_proposal key sent agg)).0
        agg
        (submitted key (record_proposal key sent agg)).1
record_proposal-Advance key (raise e) agg new = inr (key, new, inl (refl, refl))
record_proposal-Advance key (ok tx) agg new = inr (key, new, inr (refl, refl))

try_propose-Advance :
    (st : Stakes) (send : Propose) (epoch brain_id : ℤ) (agg : Aggregator)
    → Advance
        (submitted (epoch, brain_id) (try_propose st send epoch brain_id agg)).0
        agg
        (submitted (epoch, brain_id) (try_propose st send epoch brain_id agg)).1
unfolding try_propose
try_propose-Advance st send epoch brain_id agg =
    elim (Bool-cases (contains (epoch, brain_id) agg.proposed)) [
      | inl old ↦ rw old (inl (refl, refl))
      | inr new ↦ elim (Option-cases (best_root st epoch brain_id agg)) [
        | inl absent ↦ rw (new, absent) (inl (refl, refl))
        | inr (root, best) ↦ elim (Bool-cases (quorum_met st epoch brain_id (hex root) agg)) [
          | inr short ↦ rw (new, best) (rw short (inl (refl, refl)))
          | inl quorum ↦
              rw (new, best)
                (rw quorum (
                  record_proposal-Advance (epoch, brain_id) (submit send epoch brain_id root agg)
                    agg new))
        ]
      ]
    ]

step-Advance :
    (w : Web3) (c : Call) (agg : Aggregator) → Advance (step w c agg).0 agg (step w c agg).1
unfolding step
step-Advance w (commit epoch brain_id root signer signature) agg =
    inl (refl, proposed-add_commitment w epoch brain_id root signer signature agg)
step-Advance w (propose st send epoch brain_id) agg = try_propose-Advance st send epoch brain_id agg

other_key :
    (k j : ℤ × ℤ) (l : List (ℤ × ℤ)) → contains k l ≡ false → contains j l ≡ true → (k == j) ≡ false
other_key k j l absent present = elim (Bool-cases (k == j)) [
  | inr differs ↦ differs
  | inl same ↦ cc (ap (λ x. contains x l) ((pair_beq_iff k j).0 same))
]

-- No key is submitted after it was recorded, and so none after a submission that returned.
submissions-fresh :
    (w : Web3) (calls : List Call) (agg : Aggregator)
    → IsFinal (submissions w calls agg)
      × ((k : ℤ × ℤ) → contains k agg.proposed ≡ true → submits k (submissions w calls agg) ≡ false)
unfolding submissions
submissions-fresh w [] agg = (tt, λ k old. refl)
submissions-fresh w (c ∷ calls) agg =
    let (sent, agg') = step w c agg in
    let (final, fresh) = submissions-fresh w calls agg' in
    elim (step-Advance w c agg) [
      | inl (nothing, same) ↦ rw nothing (final, λ k old. fresh k (rw same old))
      | inr (k, new, inl (failed, same)) ↦
          rw failed
            (final, λ j old. rw (other_key k j agg.proposed new old) (fresh j (rw same old)))
      | inr (k, new, inr (one, more)) ↦ rw one (
        (fresh k (rw more (rw (beq_refl k) refl)), final),
        λ j old.
            let differs = other_key k j agg.proposed new old in
            rw differs (fresh j (rw more (rw differs old))),
      )
    ]

-- Whatever the calls and the answers of the chain, once a submission of an epoch and Brain returned
-- a transaction, none is made again in the run; those that were made before it all raised. One that
-- raised, even after the node took its transaction, may be followed by another.
pub submissions-IsFinal :
    (w : Web3) (calls : List Call) (agg : Aggregator) → IsFinal (submissions w calls agg)
submissions-IsFinal w calls agg = (submissions-fresh w calls agg).0
