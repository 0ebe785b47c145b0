-- ===== src/Miner/Batch.antt =====
-- The batch of receipts over a run of the miner: miner/src/basedai_miner/runtime.py with
-- receipts.py. The requests and the flushes come one at a time, in any order.
use based_ai.Prelude.Lists.{All-append, All-select}
use based_ai.Prelude.{ℕ, ◌≡◌, inl, inr, true, not, none, some, List, [], ◌∷◌, All}
use based_ai.Prelude.Int.{ℤ}
use based_ai.Prelude.Result.{ok, Result-cases}
use based_ai.Prelude.Text.{Str}
use based_ai.Web3.{Web3}
use based_ai.Receipts.{
  Signed, Redeem, add, add_or_replace, same_slot, verify_user_signature, flush, flush_loop,
}
use based_ai.Miner.Flow.{Early-cases}
use based_ai.Miner.{Miner, Chain, Engine, Payload, Admitted}
use based_ai.Miner.Handlers.{
  admit, admit_settle, admit_challenge, handle_infer, handle_settle, handle_challenge, serve,
  worked, queued,
}
use based_ai.Miner.Admission.{admit-IsAdmitted, admit_settle-Ensures}

-- What reaches the miner: a request, at a time and with the chain as it then is, or a flush, with the
-- node as it then is, whose state is of the type `S`.
pub data Event (S : Type 0) : Type 0 where
  infer : Chain → ℕ → Payload → Event S
  settle : Chain → ℕ → Payload → Event S
  challenge : Chain → ℕ → Payload → Event S
  redeem : Redeem S → S → Event S

abbrev flushed : {S : Type 0} → Redeem S → S → Miner → Miner
flushed calls s m = record m { batcher = (flush calls s m.batcher).0.1 }

unfoldable pub handle : {S : Type 0} → Web3 → Engine → Event S → Miner → Miner
handle w engine (infer chain now payload) m = (handle_infer w chain engine now m payload).1
handle w engine (settle chain now payload) m = (handle_settle w chain now m payload).1
handle w engine (challenge chain now payload) m = (handle_challenge w chain engine now m payload).1
handle w engine (redeem calls s) m = flushed calls s m

unfoldable pub handle_all : {S : Type 0} → Web3 → Engine → List (Event S) → Miner → Miner
handle_all w engine [] m = m
handle_all w engine (event ∷ events) m = handle_all w engine events (handle w engine event m)

-- The user's signature of the receipt verifies.
abbrev IsSigned : Web3 → Str → ℤ → Signed → Type 0
IsSigned w market chain_id p = verify_user_signature w market chain_id p.0 p.1 ≡ ok true

-- Every receipt that waits for redemption carries a signature of its user that verifies.
pub record AllSigned (w : Web3) (market : Str) (chain_id : ℤ) (m : Miner) : Type 0 where
  pub same_market : m.market ≡ market
  pub same_chain : m.chain_id ≡ chain_id
  pub signed : All (IsSigned w market chain_id) m.batcher.pending

All-flush_loop :
    {S : Type 0} (P : Signed → Type 0) (calls : Redeem S) (l : List Signed) (s : S)
    → All P l
    → All P (flush_loop calls l s).0.1
unfolding flush_loop
All-flush_loop P calls [] s h = tt
All-flush_loop P calls (p ∷ l) s (here, later) = elim (Result-cases (calls p s).0) [
  | inl (hash, e) ↦ rw e (All-flush_loop P calls l (calls p s).1 later)
  | inr (x, e) ↦ rw e (here, All-flush_loop P calls l (calls p s).1 later)
]

module _ (w : Web3) (market : Str) (chain_id : ℤ) where
  worked-AllSigned :
      (prompt : Str) (m : Miner)
      → AllSigned w market chain_id m
      → AllSigned w market chain_id (worked prompt m)
  worked-AllSigned prompt m h = record {
    same_market = h.same_market;
    same_chain = h.same_chain;
    signed = h.signed;
  }

  queued-AllSigned :
      (a : Admitted) (m : Miner)
      → IsSigned w market chain_id (a.receipt, a.signature)
      → AllSigned w market chain_id m
      → AllSigned w market chain_id (queued a m)
  unfolding add
  queued-AllSigned a m new h = record {
    same_market = h.same_market;
    same_chain = h.same_chain;
    signed = All-append (IsSigned w market chain_id) m.batcher.pending _ h.signed (new, tt);
  }

  infer-AllSigned :
      (chain : Chain) (engine : Engine) (now : ℕ) (payload : Payload) (m : Miner)
      → AllSigned w market chain_id m
      → AllSigned w market chain_id (handle_infer w chain engine now m payload).1
  unfolding handle_infer serve
  infer-AllSigned chain engine now payload m h = elim (Early-cases (admit w chain now m payload)) [
    | inr (inl (message, stopped)) ↦ rw (stopped, handle_infer) h
    | inr (inr (e, failed)) ↦ rw (failed, handle_infer) h
    | inl (a, admitted) ↦
        let checked = admit-IsAdmitted w chain now m payload admitted in
        let asked = worked-AllSigned a.prompt m h in
        elim (Result-cases (engine (record { prompt = a.prompt; seed = none }))) [
          | inr (e, raised) ↦ rw (admitted, handle_infer) (rw (raised, serve) asked)
          | inl (text, response) ↦
              rw (admitted, handle_infer)
                (rw (response, serve)
                  (queued-AllSigned a (worked a.prompt m)
                    (rw (← h.same_market, ← h.same_chain) checked.signed) asked))
        ]
  ]

  settle-AllSigned :
      (chain : Chain) (now : ℕ) (payload : Payload) (m : Miner)
      → AllSigned w market chain_id m
      → AllSigned w market chain_id (handle_settle w chain now m payload).1
  unfolding handle_settle add_or_replace
  settle-AllSigned chain now payload m h = elim (Early-cases (admit_settle w chain now m payload)) [
    | inr (inl (message, stopped)) ↦ rw (stopped, handle_settle) h
    | inr (inr (e, failed)) ↦ rw (failed, handle_settle) h
    | inl ((r, signature), admitted) ↦
        let checked = (admit_settle-Ensures w chain now m payload).at _ admitted in
        let kept =
          All-select (IsSigned w market chain_id) (λ p. not (same_slot p.0 r)) m.batcher.pending
            h.signed in
        rw (admitted, handle_settle)
          (record {
            same_market = h.same_market;
            same_chain = h.same_chain;
            signed =
                All-append (IsSigned w market chain_id) _ _ kept
                  (rw (← h.same_market, ← h.same_chain) checked.signed, tt);
          })
  ]

  challenge-AllSigned :
      (chain : Chain) (engine : Engine) (now : ℕ) (payload : Payload) (m : Miner)
      → AllSigned w market chain_id m
      → AllSigned w market chain_id (handle_challenge w chain engine now m payload).1
  unfolding handle_challenge
  challenge-AllSigned chain engine now payload m h =
      elim (Early-cases (admit_challenge w chain now m payload)) [
        | inr (inl (message, stopped)) ↦ rw (stopped, handle_challenge) h
        | inr (inr (e, failed)) ↦ rw (failed, handle_challenge) h
        | inl ((prompt, seed), admitted) ↦
            let asked = worked-AllSigned prompt m h in
            elim (Result-cases (engine (record { prompt = prompt; seed = some seed }))) [
              | inr (e, raised) ↦
                  rw (admitted, handle_challenge) (rw (raised, handle_challenge) asked)
              | inl (text, response) ↦
                  rw (admitted, handle_challenge) (rw (response, handle_challenge) asked)
            ]
      ]

  handle-AllSigned :
      {S : Type 0} (engine : Engine) (event : Event S) (m : Miner)
      → AllSigned w market chain_id m
      → AllSigned w market chain_id (handle w engine event m)
  unfolding handle
  handle-AllSigned engine (infer chain now payload) m h =
      infer-AllSigned chain engine now payload m h
  handle-AllSigned engine (settle chain now payload) m h = settle-AllSigned chain now payload m h
  handle-AllSigned engine (challenge chain now payload) m h =
      challenge-AllSigned chain engine now payload m h
  handle-AllSigned engine (redeem calls s) m h = record {
    same_market = h.same_market;
    same_chain = h.same_chain;
    signed =
        unfold flush in
        All-flush_loop (IsSigned w market chain_id) calls m.batcher.pending s h.signed;
  }

  -- Whatever requests and flushes a miner handles, in whatever order and whatever the chain
  -- answers, every receipt that then waits for redemption carries a signature of its user that
  -- verifies, if that held at the start.
  pub handle_all-AllSigned :
      {S : Type 0} (engine : Engine) (events : List (Event S)) (m : Miner)
      → AllSigned w market chain_id m
      → AllSigned w market chain_id (handle_all w engine events m)
  unfolding handle_all
  handle_all-AllSigned engine [] m h = h
  handle_all-AllSigned engine (event ∷ events) m h =
      handle_all-AllSigned engine events (handle w engine event m)
        (handle-AllSigned engine event m h)
