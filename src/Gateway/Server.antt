-- ===== src/Gateway/Server.antt =====
-- gateway/src/basedai_gateway/server.py and announce.py: the handlers of the routes and the rate
-- limit. A reply is its status and its body; what a handler raises, aiohttp answers with a 500.
-- The guard of URLs, the proxy and the verifier of scores are the handlers' parameters there too.
use based_ai.Prelude.{
  ℕ, ◌+◌, Bool, true, false, not, Option, none, some, String, [], ◌∷◌, ltb, leb, if◌then◌else◌,
}
use based_ai.Prelude.Eq.{◌==◌, nat_eq, int_eq, list_eq}
use based_ai.Prelude.Int.{ℤ, pos, ◌-ℤ◌, leb_ℤ, nat_abs}
use based_ai.Prelude.Result.{Result, ok, raise, ◌>>=◌}
use based_ai.Prelude.Text.{Str, Bytes, codes, lower}
use based_ai.Prelude.Json.{Json, bool, obj, field, end, get_item, to_int, to_str}
use based_ai.Prelude.Early.{Early, go, stop, fail, ◌>>=◌ as ◌>=>◌, lift, refuse_if, stop_if}
use based_ai.Prelude.Dict.{Dict, lookup, put}
pub use based_ai.Prelude.Http.{Reply, error_reply, or_reply, or_any_reply}
use based_ai.Web3.{Web3, Account, bytes32, uint256, string}
use based_ai.Gateway.{MemberIndex, announce, is_miner}

abbrev pub accepted : Reply
accepted = record { status = 200; body = obj (field "ok" (bool true) end) }

-- announce.py

unfoldable pub announce_digest : Web3 → ℤ → Str → ℤ → Result Bytes
announce_digest w brain_id url ts = do
  encoded ← w.abi_encode (
      bytes32 (w.keccak_text (codes "BasedAI:MinerAnnounce:v1"))
      ∷ uint256 brain_id
      ∷ string url
      ∷ uint256 ts
      ∷ [])
  ok (w.keccak encoded)

unfoldable pub sign_announce : Web3 → Account → ℤ → Str → ℤ → Result Str
sign_announce w account brain_id url ts = do
  digest ← announce_digest w brain_id url ts
  ok (account.sign_message digest)

unfoldable pub recover_announce : Web3 → ℤ → Str → ℤ → Json → Result Str
recover_announce w brain_id url ts signature = do
  digest ← announce_digest w brain_id url ts
  w.recover_message digest signature

-- The rate limit: for each client, the start of its window and its count.
abbrev pub Hits : Type 0
Hits = Dict Str (ℤ × ℕ)

abbrev or_fresh : Option (ℤ × ℕ) → ℤ × ℕ
or_fresh none = (pos 0, 0)
or_fresh (some slot) = slot

unfoldable pub slot_of : Str → Hits → ℤ × ℕ
slot_of ip hits = or_fresh (lookup ip hits)

-- Whether the request passes, and the counts after it.
unfoldable pub rate_limit_mw : ℤ → ℕ → Str → ℤ → Hits → Bool × Hits
rate_limit_mw window limit ip now hits =
    let (win, count) = slot_of ip hits in
    if leb_ℤ window (now -ℤ win)
    then (true, put ip (now, 1) hits)
    else if leb limit count
    then (false, put ip (win, count) hits)
    else (true, put ip (win, count + 1) hits)

-- The reply of the middleware to a request over the limit.
abbrev pub over_limit : Reply
over_limit = error_reply 429 "rate limit exceeded"

-- A handler behind the middleware: what stands for that reply, or what the handler does.
unfoldable pub limited {ℓ} : {A : Type ℓ} → ℤ → ℕ → Str → ℤ → Hits → A → A → A × Hits
unfolding rate_limit_mw
limited window limit ip now hits refused handled =
    let r = rate_limit_mw window limit ip now hits in (if r.0 then handled else refused, r.1)

-- announce

pub record Announcement : Type 0 where
  pub address : Str
  pub url : Str
  pub ts : ℤ
  pub signature : Json

unfoldable pub parse_announce : Web3 → (Json → Str) → Json → Result Announcement
parse_announce w repr body = do
  address ← (do v ← get_item body "address"; w.to_checksum_address v)
  url ← get_item body "url"
  ts ← (do v ← get_item body "ts"; to_int v)
  signature ← get_item body "signature"
  ok (record { address = address; url = to_str repr url; ts = ts; signature = signature })

-- The reason that a guard gives, as a reply; the text of the reason is left out.
abbrev pub blocked : ℕ → String → Option String → Option Reply
blocked status message none = none
blocked status message (some reason) = some (error_reply status message)

abbrev pub announce_max_age : ℕ
announce_max_age = 600

-- The checks of the handler `announce`.
unfoldable pub admit_announce :
    Web3
    → (Json → Str)
    → (Str → Option String)
    → MemberIndex
    → ℤ
    → ℤ
    → Result Json
    → Early Reply Announcement
admit_announce w repr url_guard x brain_id now request = lift request >=> λ body.
    or_reply (error_reply 400 "malformed announce") (parse_announce w repr body) >=> λ a.
    refuse_if (ltb announce_max_age (nat_abs (now -ℤ a.ts)))
      (error_reply 400 "stale announce timestamp")
    >=> λ _. stop_if (blocked 400 "invalid url" (url_guard a.url)) >=> λ _.
        or_any_reply (error_reply 400 "bad signature")
          (recover_announce w brain_id a.url a.ts a.signature)
        >=> λ recovered.
            refuse_if (not (lower recovered == lower a.address))
              (error_reply 401 "signature does not match address")
            >=> λ _.
                refuse_if (not (is_miner brain_id a.address x))
                  (error_reply 403 "not a registered miner")
                >=> λ _. go a

unfoldable pub handle_announce :
    Web3
    → (Json → Str)
    → (Str → Option String)
    → ℤ
    → ℤ
    → Result Json
    → MemberIndex
    → Result Reply × MemberIndex
handle_announce w repr url_guard brain_id now request x =
    elim (admit_announce w repr url_guard x brain_id now request) [
      | stop reply ↦ (ok reply, x)
      | fail e ↦ (raise e, x)
      | go a ↦ (ok accepted, announce brain_id a.address a.url a.ts x)
    ]
