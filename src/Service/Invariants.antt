-- ===== src/Service/Invariants.antt =====
-- The route `POST /commitments` keeps what the aggregator promises.
use based_ai.Prelude.{◌≡◌, refl, false, Option, none, inl, inr, Bool-cases, Option-cases, contains}
use based_ai.Prelude.Eq.{int_eq, pair_eq, list_eq, nat_eq}
use based_ai.Prelude.Int.{ℤ}
use based_ai.Prelude.Result.{Result, ok, raise, Result-cases}
use based_ai.Prelude.Text.{Str}
use based_ai.Prelude.Json.{Json}
use based_ai.Prelude.Early.{Early-cases}
use based_ai.Prelude.Http.{or_reply, error_reply}
use based_ai.Web3.{Web3}
use based_ai.Commitment.{hex}
use based_ai.Quorum.{Stakes}
use based_ai.Aggregator.{
  Aggregator, Propose, add_commitment, try_propose, best_root, quorum_met, submit, record_proposal,
}
use based_ai.Aggregator.Signatures.{AllAuthentic, add_commitment-AllAuthentic}
use based_ai.Aggregator.Proposals.{proposed-add_commitment}
use based_ai.Service.{
  CommitBody, parse_commit, propose_completed, is_completed, forgive, after_commit, commitments,
}

module _ (w : Web3) where
  record_proposal-AllAuthentic :
      (key : ℤ × ℤ) (sent : Result Str) (agg : Aggregator)
      → AllAuthentic w agg
      → AllAuthentic w (record_proposal key sent agg).1
  record_proposal-AllAuthentic key (raise e) agg h = h
  record_proposal-AllAuthentic key (ok tx) agg h = record { at = h.at }

  try_propose-AllAuthentic :
      (st : Stakes) (send : Propose) (epoch brain_id : ℤ) (agg : Aggregator)
      → AllAuthentic w agg
      → AllAuthentic w (try_propose st send epoch brain_id agg).1
  unfolding try_propose
  try_propose-AllAuthentic st send epoch brain_id agg h =
      elim (Bool-cases (contains (epoch, brain_id) agg.proposed)) [
        | inl old ↦ rw old h
        | inr new ↦ elim (Option-cases (best_root st epoch brain_id agg)) [
          | inl absent ↦ rw (new, absent) h
          | inr (root, best) ↦ elim (Bool-cases (quorum_met st epoch brain_id (hex root) agg)) [
            | inr short ↦ rw (new, best) (rw short h)
            | inl quorum ↦
                rw (new, best)
                  (rw quorum (
                    record_proposal-AllAuthentic (epoch, brain_id)
                      (submit send epoch brain_id root agg) agg h))
          ]
        ]
      ]

  forgive-AllAuthentic :
      (r : Result (Option Str) × Aggregator) → AllAuthentic w r.1 → AllAuthentic w (forgive r).1
  forgive-AllAuthentic (raise e, agg) h = h
  forgive-AllAuthentic (ok tx, agg) h = h

module _ (w : Web3) (st : Stakes) (send : Propose) (current : Option (Result ℤ)) where
  propose_completed-AllAuthentic :
      (c : CommitBody) (agg : Aggregator)
      → AllAuthentic w agg
      → AllAuthentic w (propose_completed w st send current c agg).1
  unfolding propose_completed
  propose_completed-AllAuthentic c agg h = elim (Result-cases (is_completed c.epoch current)) [
    | inr (e, raised) ↦ rw (raised, propose_completed) h
    | inl (completed, judged) ↦ elim (Bool-cases completed) [
      | inr running ↦ rw (judged, propose_completed) (rw running h)
      | inl over ↦
          rw (judged, propose_completed)
            (rw over (
              forgive-AllAuthentic w (try_propose st send c.epoch c.brain_id agg)
                (try_propose-AllAuthentic w st send c.epoch c.brain_id agg h)))
    ]
  ]

  pub after_commit-state :
      (c : CommitBody) (agg : Aggregator)
      → (after_commit w st send current c agg).1 ≡ (propose_completed w st send current c agg).1
  unfolding after_commit
  after_commit-state c agg = elim (Result-cases (propose_completed w st send current c agg).0) [
    | inr (e, raised) ↦ rw (raised, after_commit) refl
    | inl (tx, proposed) ↦ rw (proposed, after_commit) refl
  ]

  -- Whatever is posted to `/commitments`, whatever the chain answers and however the request ends,
  -- every signature that the aggregator then holds is one that was verified for its key, if that
  -- held before.
  pub commitments-AllAuthentic :
      (repr : Json → Str) (request : Result Json) (agg : Aggregator)
      → AllAuthentic w agg
      → AllAuthentic w (commitments w st send current repr request agg).1
  unfolding commitments
  commitments-AllAuthentic repr request agg h =
      elim (Early-cases
        (or_reply (error_reply 400 "malformed commitment") (parse_commit repr request))) [
          | inr (inl (reply, stopped)) ↦ rw (stopped, commitments) h
          | inr (inr (e, failed)) ↦ rw (failed, commitments) h
          | inl (c, parsed) ↦
              let kept =
                add_commitment-AllAuthentic w c.epoch c.brain_id (hex c.root) c.signer c.signature
                  agg h in
              elim (Result-cases
                (add_commitment w c.epoch c.brain_id (hex c.root) c.signer c.signature agg).0) [
                  | inr (e, raised) ↦ rw (parsed, commitments) (rw raised kept)
                  | inl (valid, verdict) ↦ elim (Bool-cases valid) [
                    | inr forged ↦ rw (parsed, commitments) (rw verdict (rw forged kept))
                    | inl genuine ↦
                        rw (parsed, commitments)
                          (rw verdict (
                            rw genuine
                              (rw after_commit-state (propose_completed-AllAuthentic c _ kept))))
                  ]
                ]
        ]

  propose_completed-running :
      (c : CommitBody) (agg : Aggregator)
      → is_completed c.epoch current ≡ ok false
      → propose_completed w st send current c agg ≡ (ok none, agg)
  unfolding propose_completed
  propose_completed-running c agg running = rw (running, propose_completed) refl

  -- A commitment for an epoch that has not ended is never proposed: the record of what was proposed
  -- stays as it was.
  pub commitments-running :
      (repr : Json → Str) (request : Result Json) (agg : Aggregator) (c : CommitBody)
      → parse_commit repr request ≡ ok c
      → is_completed c.epoch current ≡ ok false
      → (commitments w st send current repr request agg).1.proposed ≡ agg.proposed
  unfolding commitments
  commitments-running repr request agg c parsed running =
      let same =
        proposed-add_commitment w c.epoch c.brain_id (hex c.root) c.signer c.signature agg in
      elim (Result-cases
        (add_commitment w c.epoch c.brain_id (hex c.root) c.signer c.signature agg).0) [
          | inr (e, raised) ↦ rw (parsed, commitments) (rw raised same)
          | inl (valid, verdict) ↦ elim (Bool-cases valid) [
            | inr forged ↦ rw (parsed, commitments) (rw verdict (rw forged same))
            | inl genuine ↦
                rw (parsed, commitments)
                  (rw verdict (
                    rw genuine
                      (rw (after_commit-state, propose_completed-running c _ running) same)))
          ]
        ]
