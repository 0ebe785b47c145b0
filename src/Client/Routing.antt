-- ===== src/Client/Routing.antt =====
-- Where the gateway passes what the client posts: `infer` of client/python/basedai_client/client.py
-- with `_proxy_to_target` of gateway/src/basedai_gateway/server.py. The request for inference names
-- its miner; the settlement does not.
use based_ai.Prelude.{
  ℕ, ◌≡◌, ◌≢◌, refl, sym, ap, ◌∙◌, Bool, not, false, Option, none, some, String, List, ◌∷◌, leb,
  inl, inr,
}
use based_ai.Prelude.Eq.{nat_eq, int_eq, list_eq, pair_eq}
use based_ai.Prelude.Int.{ℤ}
use based_ai.Prelude.Result.{ok, >>=-eq-ok, ok-injective}
use based_ai.Prelude.Text.{Str, lower}
use based_ai.Prelude.Json.{str, get, get_item, to_int}
use based_ai.Prelude.Early
use based_ai.Web3.{Web3, HasChecksum}
use based_ai.Receipts.{Receipt, verify_user_signature}
use based_ai.Miner.{Miner, Chain, Payload, parse_receipt, check_eligibility}
use based_ai.Miner.Admission.{admit_settle-Ensures}
use based_ai.Miner.Handlers.{admit_settle, handle_settle, is_zero_hash}
use based_ai.Miner.Flow
use based_ai.Gateway.{MemberIndex, Listed, miners}
use based_ai.Gateway.Proxy.{dial, target_url}
use based_ai.Client.{settle_body, serialize_receipt}

module _ (float_true : ℤ → Str → Bool) (url_guard : Str → Option String) (max_inflight inflight : ℕ)
    (brain_id now : ℤ) (x : MemberIndex) (best : Listed) (rest : List Listed)
    (listing : miners brain_id (some now) x ≡ best ∷ rest) (safe : url_guard best.url ≡ none)
    (room : leb max_inflight inflight ≡ false) where
  dial-settle_body :
      (final : Receipt) (signature : Str)
      → dial float_true url_guard max_inflight inflight brain_id now x
          (ok (settle_body (final, signature)))
        ≡ Early.go best.url
  unfolding dial settle_body get target_url
  dial-settle_body final signature = rw listing (rw safe (rw room refl))

-- The receipt that `_handle_settle` takes is the one in the body, under its checksum address.
admit_settle-reads :
    (w : Web3) (chain : Chain) (now size : ℕ) (m : Miner) (final : Receipt) (signature : Str)
    → Flow.Ensures
        (λ p. parse_receipt w (serialize_receipt final) ≡ ok p.0)
        (admit_settle w chain now m
          (record { size = size; parsed = ok (settle_body (final, signature)) }))
unfolding admit_settle settle_body get_item
admit_settle-reads w chain now size m final signature =
    Flow.Ensures-bind (Flow.lift (parse_receipt w (serialize_receipt final))) (λ r read.
      Flow.Ensures-bind
        (Flow.refuse_if (is_zero_hash r.response_hash)
          "final receipt must bind a delivered response")
        (λ _ _.
          Flow.Ensures-bind
            (Flow.lift (verify_user_signature w m.market m.chain_id r (str signature)))
            (λ valid _. Flow.Ensures-bind (Flow.refuse_if (not valid) "bad signature") (λ _ _.
              Flow.Ensures-bind (Flow.stop_if (check_eligibility w chain now m r none))
                (λ _ _. Flow.Ensures-go (r, str signature) (Flow.lift-eq-go _ read))))))

parse_receipt-miner :
    (w : Web3) (final : Receipt) {r : Receipt}
    → parse_receipt w (serialize_receipt final) ≡ ok r
    → w.to_checksum_address (str final.miner) ≡ ok r.miner
unfolding parse_receipt serialize_receipt get_item to_int
parse_receipt-miner w final {r} read =
    let (user, _, rest) = >>=-eq-ok (w.to_checksum_address (str final.user)) _ read in
    let (miner, checksum, last) = >>=-eq-ok (w.to_checksum_address (str final.miner)) _ rest in
    rw checksum (ap ok (ap (λ p. p.miner) (ok-injective _ r last)))

-- A miner that a final receipt does not name refuses it, whatever the signature: its state is kept.
handle_settle-kept :
    (w : Web3) (chain : Chain) (now size : ℕ) (m : Miner) (final : Receipt) (signature : Str)
    → HasChecksum w
    → lower m.account.address ≢ lower final.miner
    → (handle_settle w chain now m
        (record { size = size; parsed = ok (settle_body (final, signature)) })).1
      ≡ m
unfolding handle_settle
handle_settle-kept w chain now size m final signature checksums other =
    let payload : Payload = record { size = size; parsed = ok (settle_body (final, signature)) } in
    elim (Flow.Early-cases (admit_settle w chain now m payload)) [
      | inr (inl (message, refused)) ↦ rw (refused, handle_settle) refl
      | inr (inr (e, raised)) ↦ rw (raised, handle_settle) refl
      | inl (taken, went) ↦
          let read = (admit_settle-reads w chain now size m final signature).at taken went in
          let same = checksums.keeps final.miner taken.0.miner (parse_receipt-miner w final read) in
          let settled = (admit_settle-Ensures w chain now m payload).at taken went in
          absurd (other (sym settled.eligible.miner ∙ same))
    ]

module _ (float_true : ℤ → Str → Bool) (url_guard : Str → Option String) (max_inflight inflight : ℕ)
    (brain_id now : ℤ) (x : MemberIndex) (best : Listed) (rest : List Listed)
    (listing : miners brain_id (some now) x ≡ best ∷ rest) (safe : url_guard best.url ≡ none)
    (room : leb max_inflight inflight ≡ false) where
  -- The gateway passes a settlement to the miner that is listed first by then, where the guard passes
  -- its URL and there is room for one more call. Where the final receipt names another miner than the
  -- one that is asked, whose address is the listed one, this one's state stays as it was, whatever the
  -- signature and the state of the chain, if a checksum address differs in the case of letters only.
  pub settle_body-astray :
      (w : Web3) (chain : Chain) (at size : ℕ) (asked : Miner) (final : Receipt) (signature : Str)
      → HasChecksum w
      → lower asked.account.address ≡ best.address
      → best.address ≢ lower final.miner
      → (dial float_true url_guard max_inflight inflight brain_id now x
            (ok (settle_body (final, signature)))
          ≡ Early.go best.url)
        × ((handle_settle w chain at asked
              (record { size = size; parsed = ok (settle_body (final, signature)) })).1
            ≡ asked)
  settle_body-astray w chain at size asked final signature checksums first other = (
    dial-settle_body float_true url_guard max_inflight inflight brain_id now x best rest listing
        safe room final signature,
    handle_settle-kept w chain at size asked final signature checksums (rw first other),
  )
