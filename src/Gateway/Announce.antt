-- ===== src/Gateway/Announce.antt =====
-- What an endpoint that the index holds has been verified for: the handler `announce` of
-- gateway/src/basedai_gateway/server.py.
use based_ai.Prelude.{
  ℕ, ◌≤◌, ◌≡◌, refl, true, not, Option, none, some, String, arith, inl, inr, ltb,
}
use based_ai.Prelude.Eq.{◌==◌, nat_eq, list_eq, list_beq_iff}
use based_ai.Prelude.Int.{ℤ, ◌-ℤ◌, nat_abs}
use based_ai.Prelude.Result.{Result, ok, raise}
use based_ai.Prelude.Text.{Str, lower}
use based_ai.Prelude.Json.{Json}
use based_ai.Prelude.Early.{
  go, lift, refuse_if, stop_if, Ensures, Ensures-go, Ensures-bind, Early-cases, refuse_if-eq-go,
  stop_if-eq-go,
}
use based_ai.Web3.{Web3}
use based_ai.Gateway.{MemberIndex, is_miner, announce}
use based_ai.Gateway.Server.{
  Announcement, Reply, admit_announce, handle_announce, parse_announce, recover_announce, or_reply,
  or_any_reply, blocked, announce_max_age, error_reply,
}

module _ (w : Web3) (url_guard : Str → Option String) (brain_id now : ℤ) (x : MemberIndex) where
  -- A registered miner signed this URL and time, the time is near, and the URL is safe to dial.
  pub record IsVerified (a : Announcement) : Type 0 where
    pub recent : nat_abs (now -ℤ a.ts) ≤ announce_max_age
    pub safe : url_guard a.url ≡ none
    pub signer : Str
    pub signed : recover_announce w brain_id a.url a.ts a.signature ≡ ok signer
    pub same : lower signer ≡ lower a.address
    pub registered : is_miner brain_id a.address x ≡ true

  -- What the handler does to the index.
  pub data AnnounceStep : MemberIndex → Type 0 where
    refused : AnnounceStep x
    announced :
        (a : Announcement) → IsVerified a → AnnounceStep (announce brain_id a.address a.url a.ts x)

  blocked-none :
      (status : ℕ) (message : String) (o : Option String)
      → blocked status message o ≡ none
      → o ≡ none
  blocked-none status message none h = refl
  blocked-none status message (some reason) h = cc

  or_any_reply-eq-go :
      {A : Type 0} (reply : Reply) (r : Result A) {a : A} → or_any_reply reply r ≡ go a → r ≡ ok a
  or_any_reply-eq-go reply (ok a) h = cc
  or_any_reply-eq-go reply (raise e) h = cc

  admit_announce-Ensures :
      (repr : Json → Str) (request : Result Json)
      → Ensures IsVerified (admit_announce w repr url_guard x brain_id now request)
  unfolding admit_announce
  admit_announce-Ensures repr request = Ensures-bind (lift request) (λ body _.
      Ensures-bind (or_reply (error_reply 400 "malformed announce") (parse_announce w repr body))
        (λ a _.
          Ensures-bind
            (refuse_if (ltb announce_max_age (nat_abs (now -ℤ a.ts)))
              (error_reply 400 "stale announce timestamp"))
            (λ _ near.
              Ensures-bind (stop_if (blocked 400 "invalid url" (url_guard a.url))) (λ _ guarded.
                Ensures-bind
                  (or_any_reply (error_reply 400 "bad signature")
                    (recover_announce w brain_id a.url a.ts a.signature))
                  (λ recovered signed.
                    Ensures-bind
                      (refuse_if (not (lower recovered == lower a.address))
                        (error_reply 401 "signature does not match address"))
                      (λ _ same.
                        Ensures-bind
                          (refuse_if (not (is_miner brain_id a.address x))
                            (error_reply 403 "not a registered miner"))
                          (λ _ registered. Ensures-go a (record {
                            recent = ground (arith, refuse_if-eq-go _ _ near);
                            safe =
                                blocked-none 400 "invalid url" (url_guard a.url)
                                  (stop_if-eq-go _ guarded);
                            signer = recovered;
                            signed = or_any_reply-eq-go _ _ signed;
                            same = ground (
                              arith,
                              list_beq_iff (lower recovered) (lower a.address),
                              refuse_if-eq-go _ _ same,
                            );
                            registered = ground (arith, refuse_if-eq-go _ _ registered);
                          }))))))))

  -- Whatever the request holds, the index stays as it was unless a registered miner of the Brain
  -- signed the URL and the time, the time is within `ANNOUNCE_MAX_AGE` seconds of now, and the
  -- guard passes the URL; then exactly that miner's endpoint is set.
  pub handle_announce-AnnounceStep :
      (repr : Json → Str) (request : Result Json)
      → AnnounceStep (handle_announce w repr url_guard brain_id now request x).1
  unfolding handle_announce
  handle_announce-AnnounceStep repr request =
      elim (Early-cases (admit_announce w repr url_guard x brain_id now request)) [
        | inr (inl (reply, stopped)) ↦ rw (stopped, handle_announce) refused
        | inr (inr (e, failed)) ↦ rw (failed, handle_announce) refused
        | inl (a, admitted) ↦
            rw (admitted, handle_announce)
              (announced a ((admit_announce-Ensures repr request).at a admitted))
      ]
