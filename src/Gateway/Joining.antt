-- ===== src/Gateway/Joining.antt =====
-- A miner's announcement, from `announce_once` of miner/src/basedai_miner/http_server.py to the listing
-- of gateway/src/basedai_gateway/indexer.py.
use based_ai.Prelude.{
  ℕ, ◌≡◌, ◌≤◌, refl, ◌∙◌, Bool, true, false, not, ◌&&◌, Option, some, none, String, arith, any, ltb,
  if◌then◌else◌,
}
use based_ai.Prelude.Eq.{nat_eq, int_eq, list_eq, pair_eq, beq_refl}
use based_ai.Prelude.Int.{ℤ, pos, ◌-ℤ◌, nat_abs}
use based_ai.Prelude.Result.{Result, ok, raise, ◌>>=◌, >>=-eq-ok, ok-injective}
use based_ai.Prelude.Text.{Str, lower, with_0x}
use based_ai.Prelude.Json.{Json, str, get_item, to_int, to_str}
use based_ai.Prelude.Dict.{lookup-put_self}
use based_ai.Web3.{Web3, Account, HasRecovery}
use based_ai.Miner.Transport.{announce_payload, announce_once}
use based_ai.Miner.Transport
use based_ai.Gateway.{MemberIndex, is_miner, is_stale, announce, miners}
use based_ai.Gateway.Rate.{HasRoom, limited-HasRoom}
use based_ai.Gateway.Listing.{says, miners-says}
use based_ai.Gateway.Server.{
  Reply, admit_announce, handle_announce, parse_announce, recover_announce, announce_digest,
  announce_max_age, accepted, Hits, limited, over_limit,
}

-- What the gateway replies to the miner: an error status is a failure.
abbrev pub status_of : Result Reply → Result (Unit {0})
status_of (raise e) = raise e
status_of (ok reply) = if ltb reply.status 400 then ok tt else raise based_ai.Prelude.Result.other

module _ (w : Web3) (account : Account) (repr : Json → Str) (url_guard : Str → Option String)
    (brain_id ts now : ℤ) (public_url : Str) (x : MemberIndex) (recovery : HasRecovery w account)
    (checksum : w.to_checksum_address (str account.address) ≡ ok account.address)
    (near : ltb announce_max_age (nat_abs (now -ℤ ts)) ≡ false) (safe : url_guard public_url ≡ none)
    (registered : is_miner brain_id account.address x ≡ true) (window : ℤ) (limit : ℕ) (ip : Str)
    (hits : Hits) where
  -- The gateway's route, behind the middleware.
  abbrev pub route : Result Json → Result Reply × MemberIndex
  route request =
      (limited window limit ip now hits (ok over_limit, x)
        (handle_announce w repr url_guard brain_id now request x)).0

  -- The index once the endpoint is recorded.
  abbrev pub joined : MemberIndex
  joined = announce brain_id account.address public_url ts x

  -- The gateway recovers what the miner signed: the two copies of the convention agree.
  recover-sign_announce :
      (signature : Str)
      → Transport.sign_announce w account brain_id public_url ts ≡ ok signature
      → recover_announce w brain_id public_url ts (str (with_0x signature)) ≡ ok account.address
  unfolding recover_announce Transport.sign_announce announce_digest Transport.announce_digest
  recover-sign_announce signature signs =
      let (d, digest, same) =
        >>=-eq-ok (Transport.announce_digest w brain_id public_url ts)
          (λ d. ok (account.sign_message d)) signs in
      rw (digest, recover_announce)
        (rw (← ok-injective (account.sign_message d) signature same) (recovery.recovers_0x d))

  handle_announce-announce_payload :
      (signature : Str)
      → Transport.sign_announce w account brain_id public_url ts ≡ ok signature
      → handle_announce w repr url_guard brain_id now
          (ok (announce_payload account public_url ts signature))
          x
        ≡ (ok accepted, joined)
  unfolding handle_announce admit_announce parse_announce get_item to_int to_str
  handle_announce-announce_payload signature signs = rw checksum (
      rw near (
        rw safe (
          rw (recover-sign_announce signature signs)
            (rw (beq_refl (lower account.address)) (rw registered)))))

  -- The announcement of a registered miner whose signatures recover, near to the gateway's time and
  -- with a URL that the guard passes, succeeds; and the gateway then lists the miner with that URL and
  -- the score 0, at any later time at which the announcement is not stale. The window of the miner's
  -- address in the rate limit is over when it announces, or holds fewer requests than the limit.
  pub announce_once-listed :
      (later : ℤ) {signature : Str}
      → Transport.sign_announce w account brain_id public_url ts ≡ ok signature
      → is_stale x.ttl (some later) ts ≡ false
      → HasRoom window limit ip now hits
      → (announce_once w account brain_id public_url ts
            (λ payload. status_of (route (ok payload)).0)
          ≡ ok true)
        × (any (says (lower account.address) public_url (pos 0)) (
              miners brain_id
                (some later)
                (route (ok (announce_payload account public_url ts signature))).1)
            ≡ true)
  unfolding announce_once announce is_miner
  announce_once-listed later {signature} signs fresh fits =
      let taken : route (ok (announce_payload account public_url ts signature))
          ≡ (ok accepted, joined) =
        limited-HasRoom window limit ip now hits _ _ fits
        ∙ handle_announce-announce_payload signature signs in
      let (listed, sorted) =
        miners-says joined brain_id (some later) (lower account.address) public_url (pos 0) in
      (
        rw (signs, announce_once) (rw taken refl),
        rw taken (
            rw listed (
              rw registered (
                rw
                  (lookup-put_self (brain_id, lower account.address)
                    (record { url = public_url; score = pos 0; ts = ts }) x.endpoints)
                  (rw fresh (rw (beq_refl public_url)))))),
      )
