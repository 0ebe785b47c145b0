-- ===== src/Service/Quorate.antt =====
-- The commitment that completes a quorum, at `/commitments` of
-- validator/src/basedai_validator/service.py.
use based_ai.Prelude.{◌≡◌, refl, ◌∙◌, true, false, Option, some, List, ◌∷◌, All, contains}
use based_ai.Prelude.Eq.{nat_eq, int_eq, list_eq, pair_eq, beq_refl}
use based_ai.Prelude.Int.{ℤ}
use based_ai.Prelude.Result.{Result, ok}
use based_ai.Prelude.Text.{Str, Bytes}
use based_ai.Commitment.{hex}
use based_ai.Web3.{Web3}
use based_ai.Quorum.{Stakes}
use based_ai.Aggregator.{Aggregator, Propose, quorum_met, roots_of, try_propose}
use based_ai.Aggregator.Best.{HasEntry}
use based_ai.Aggregator.Quorate.{IsReadable, try_propose-IsSubmitted}
use based_ai.Service.Invariants.{after_commit-state}
use based_ai.Service.{CommitBody, is_completed, propose_completed, after_commit}

-- Whatever is submitted for the epoch and the Brain, the chain takes it.
abbrev pub Accepts : Propose → ℤ → ℤ → Type 0
Accepts propose epoch brain_id =
    (root : Bytes) (signers signatures : List Str)
    → (tx : Str) × (propose epoch brain_id root signers signatures ≡ ok tx)

module _ (w : Web3) (st : Stakes) (propose : Propose) (current : Option (Result ℤ)) where
  propose_completed-took :
      (c : CommitBody) (agg : Aggregator) {tx : Str} {agg' : Aggregator}
      → is_completed c.epoch current ≡ ok true
      → try_propose st propose c.epoch c.brain_id agg ≡ (ok (some tx), agg')
      → propose_completed w st propose current c agg ≡ (ok (some tx), agg')
  unfolding propose_completed
  propose_completed-took c agg completed took = rw (completed, propose_completed) (rw took refl)

  -- The epoch and the Brain are recorded as proposed.
  pub after_commit-proposed :
      (c : CommitBody) (agg : Aggregator) (r : Str)
      → is_completed c.epoch current ≡ ok true
      → Accepts propose c.epoch c.brain_id
      → contains (c.epoch, c.brain_id) agg.proposed ≡ false
      → HasEntry st c.epoch c.brain_id agg r
      → quorum_met st c.epoch c.brain_id (hex r) agg ≡ true
      → All IsReadable (roots_of c.epoch c.brain_id agg.pending)
      → contains (c.epoch, c.brain_id) (after_commit w st propose current c agg).1.proposed ≡ true
  after_commit-proposed c agg r completed accepts new held quorum readable =
      let i =
        try_propose-IsSubmitted st propose c.epoch c.brain_id agg r new held quorum readable in
      let (tx, sends) = accepts i.root_bytes i.signers i.signatures in
      let whole : try_propose st propose c.epoch c.brain_id agg
          ≡ (ok (some tx), record agg { proposed = (c.epoch, c.brain_id) ∷ agg.proposed }) =
        i.result ∙ (rw sends refl) in
      let done = propose_completed-took c agg completed whole in
      rw (after_commit-state w st propose current c agg)
        (rw done (rw (beq_refl {A = ℤ × ℤ} (c.epoch, c.brain_id)) refl))
