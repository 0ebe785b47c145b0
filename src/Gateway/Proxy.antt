-- ===== src/Gateway/Proxy.antt =====
-- `_proxy_to_target` of gateway/src/basedai_gateway/server.py: which URL a request is passed to, and
-- the bound on the requests in flight. The calls of the proxy overlap, so a call is two steps, its
-- start and its end, and the steps of different requests come in any order.
use based_ai.Prelude.{
  ℕ, zero, suc, ◌+◌, ◌-◌, ◌≤◌, ◌≡◌, Bool, false, Option, none, some, String, List, [], ◌∷◌, ◌++◌,
  arith, leb, length, length-append, if◌then◌else◌,
}
use based_ai.Prelude.Int.{ℤ, pos, negsuc}
use based_ai.Prelude.Result.{Result, ok, raise, other}
use based_ai.Prelude.Text.{Str}
use based_ai.Prelude.Json.{Json, null, bool, int, real, str, arr, obj, nil, cons, field, end, get}
use based_ai.Prelude.Early.{
  Early, go, stop, ◌>>=◌, ◌>>◌, lift, refuse_if, stop_if, Ensures, Ensures-go, Ensures-bind,
  refuse_if-eq-go, stop_if-eq-go,
}
use based_ai.Gateway.{MemberIndex, Listed, miners, endpoint_of}
use based_ai.Gateway.Server.{Reply, error_reply, blocked}

-- `index.endpoint_of(brain_id, target) if target else None`; AttributeError on a value that is true
-- and no text. The truth of a float, which the model does not keep, is a parameter.
unfoldable pub target_url : (ℤ → Str → Bool) → ℤ → MemberIndex → Option Json → Result (Option Str)
target_url float_true brain_id x none = ok none
target_url float_true brain_id x (some (str [])) = ok none
target_url float_true brain_id x (some (str (c ∷ s))) = ok (endpoint_of brain_id (c ∷ s) x)
target_url float_true brain_id x (some null) = ok none
target_url float_true brain_id x (some (bool b)) = if b then raise other else ok none
target_url float_true brain_id x (some (int (pos zero))) = ok none
target_url float_true brain_id x (some (int (pos (suc n)))) = raise other
target_url float_true brain_id x (some (int (negsuc n))) = raise other
target_url float_true brain_id x (some (real n text)) =
    if float_true n text then raise other else ok none
target_url float_true brain_id x (some (arr nil)) = ok none
target_url float_true brain_id x (some (arr (cons v vs))) = raise other
target_url float_true brain_id x (some (obj end)) = ok none
target_url float_true brain_id x (some (obj (field k v fs))) = raise other

-- The best-scored miner, where no target is given or it is not known.
abbrev pub url_or_best : Option Str → List Listed → Early Reply Str
url_or_best (some url) listed = go url
url_or_best none [] = stop (error_reply 503 "no miners available")
url_or_best none (m ∷ rest) = go m.url

-- `_proxy_to_target`, up to the call of the proxy: the URL that is dialled.
unfoldable pub dial :
    (ℤ → Str → Bool)
    → (Str → Option String)
    → ℕ
    → ℕ
    → ℤ
    → ℤ
    → MemberIndex
    → Result Json
    → Early Reply Str
dial float_true url_guard max_inflight inflight brain_id now x request = do
  body ← lift request
  target ← lift (get body "target_miner")
  known ← lift (target_url float_true brain_id x target)
  url ← url_or_best known (miners brain_id (some now) x)
  stop_if (blocked 502 "miner url blocked" (url_guard url))
  refuse_if (leb max_inflight inflight) (error_reply 503 "gateway at capacity")
  go url

-- `inflight["n"]`, and the URLs of the calls that have not ended.
pub record Calls : Type 0 where
  pub inflight : ℕ
  pub pending : List Str

module _ (float_true : ℤ → Str → Bool) (max_inflight : ℕ) where
  -- A step: a request that dials, or the end of one of the open calls, in whatever way it ends. The
  -- index, the time and the guard are those of that moment.
  pub data Step : Calls → Calls → Type 0 where
    begin :
        (c : Calls) (url_guard : Str → Option String) (brain_id now : ℤ) (x : MemberIndex)
        (request : Result Json) (url : Str)
        → dial float_true url_guard max_inflight c.inflight brain_id now x request ≡ go url
        → Step c (record { inflight = c.inflight + 1; pending = c.pending ++ url ∷ [] })
    finish :
        (n : ℕ) (before : List Str) (url : Str) (after : List Str)
        → Step
            (record { inflight = n; pending = before ++ url ∷ after })
            (record { inflight = n - 1; pending = before ++ after })

  pub data Reaches (start : Calls) : Calls → Type 0 where
    here : Reaches start start
    later : {c d : Calls} → Reaches start c → Step c d → Reaches start d

  -- The counter counts the open calls, and is within the bound.
  pub record IsBounded (c : Calls) : Type 0 where
    pub counted : c.inflight ≡ length c.pending
    pub bounded : c.inflight ≤ max_inflight

  -- A URL that is dialled was passed by the guard, while there was room.
  pub record IsDialled (url_guard : Str → Option String) (inflight : ℕ) (url : Str) : Type 0 where
    pub safe : blocked 502 "miner url blocked" (url_guard url) ≡ none
    pub room : leb max_inflight inflight ≡ false

  pub dial-Ensures :
      (url_guard : Str → Option String) (inflight : ℕ) (brain_id now : ℤ) (x : MemberIndex)
      (request : Result Json)
      → Ensures
          (IsDialled url_guard inflight)
          (dial float_true url_guard max_inflight inflight brain_id now x request)
  unfolding dial
  dial-Ensures url_guard inflight brain_id now x request = Ensures-bind (lift request) (λ body _.
      Ensures-bind (lift (get body "target_miner")) (λ target _.
        Ensures-bind (lift (target_url float_true brain_id x target)) (λ known _.
          Ensures-bind (url_or_best known (miners brain_id (some now) x)) (λ url _.
            Ensures-bind (stop_if (blocked 502 "miner url blocked" (url_guard url))) (λ _ guarded.
              Ensures-bind
                (refuse_if (leb max_inflight inflight) (error_reply 503 "gateway at capacity"))
                (λ _ room.
                  Ensures-go url (record {
                    safe = stop_if-eq-go _ guarded;
                    room = refuse_if-eq-go _ _ room;
                  })))))))

  Step-IsBounded : {c d : Calls} → Step c d → IsBounded c → IsBounded d
  Step-IsBounded (begin c url_guard brain_id now x request url dialled) h =
      let room = ((dial-Ensures url_guard c.inflight brain_id now x request).at url dialled).room in
      record {
        counted = omega (arith, h.counted, length-append c.pending (url ∷ []));
        bounded = ground arith;
      }
  Step-IsBounded (finish n before url after) h = record {
    counted =
        omega (arith, h.counted, length-append before (url ∷ after), length-append before after);
    bounded = omega (arith, h.bounded);
  }

  -- However the calls overlap, the counter is the number of calls that have not ended, and never
  -- exceeds the bound, if that held at the start.
  pub reaches-IsBounded : {start c : Calls} → Reaches start c → IsBounded start → IsBounded c
  reaches-IsBounded here h = h
  reaches-IsBounded (later r step) h = Step-IsBounded step (reaches-IsBounded r h)
