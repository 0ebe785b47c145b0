-- ===== src/Gateway/Ranking.antt =====
-- The handler `submit_scores` of gateway/src/basedai_gateway/server.py: scores of a finalized epoch,
-- each verified before it is set. The verifier is a parameter there too; its call may raise.
use based_ai.Prelude.{
  ℕ, ◌+◌, ◌≡◌, refl, inl, inr, Bool, true, Option, none, some, List, [], ◌∷◌, arith, Bool-cases,
  Option-cases, if◌then◌else◌,
}
use based_ai.Prelude.Eq.{◌==◌, nat_eq, int_eq, list_eq, pair_eq, pair_beq_iff}
use based_ai.Prelude.Int.{ℤ, pos}
use based_ai.Prelude.Result.{
  key_error, value_error, type_error, index_error, other, Result, ok, raise, ◌>>=◌, Result-cases,
  >>=-eq-ok,
}
use based_ai.Prelude.Text.{Str, lower}
use based_ai.Prelude.Json.{Json, bool, int, obj, field, end, get_item, get, to_int, to_list}
use based_ai.Prelude.Early.{go, stop, fail, Early-cases}
use based_ai.Prelude.Dict.{lookup, lookup-put}
use based_ai.Web3.{Web3}
use based_ai.Gateway.{MemberIndex, Endpoint, set_score}
use based_ai.Gateway.Server.{Reply, error_reply, or_reply}

abbrev pub ScoreVerifier : Type 0
ScoreVerifier = ℤ → ℤ → Str → ℤ → List Json → Result Bool

abbrev list_or_empty : Option Json → Result (List Json)
list_or_empty none = ok []
list_or_empty (some v) = to_list v

-- The miner, the score and the proof of an entry.
unfoldable pub parse_entry : Web3 → Json → Result (Str × (ℤ × List Json))
parse_entry w e = do
  miner ← (do v ← get_item e "miner"; w.to_checksum_address v)
  score ← (do v ← get_item e "score"; to_int v)
  proof ← (do v ← get e "proof"; list_or_empty v)
  ok (miner, (score, proof))

-- What one entry does: it raises, or it is skipped, or its score is set where it verifies.
abbrev pub judge_entry :
    ScoreVerifier → ℤ → ℤ → Result (Str × (ℤ × List Json)) → Result (Option (Str × ℤ))
judge_entry verify epoch brain_id (raise key_error) = ok none
judge_entry verify epoch brain_id (raise value_error) = ok none
judge_entry verify epoch brain_id (raise type_error) = ok none
judge_entry verify epoch brain_id (raise e) = raise e
judge_entry verify epoch brain_id (ok (miner, (score, proof))) = do
  verified ← verify epoch brain_id miner score proof
  ok (if verified then some (miner, score) else none)

-- The loop over the entries: how many were applied, or what was raised, and the index after it.
unfoldable pub score_loop :
    Web3 → ScoreVerifier → ℤ → ℤ → List Json → ℕ → MemberIndex → Result ℕ × MemberIndex
score_loop w verify epoch brain_id [] applied x = (ok applied, x)
score_loop w verify epoch brain_id (e ∷ entries) applied x =
    elim (judge_entry verify epoch brain_id (parse_entry w e)) [
      | raise exn ↦ (raise exn, x)
      | ok none ↦ score_loop w verify epoch brain_id entries applied x
      | ok (some (miner, score)) ↦
          score_loop w verify epoch brain_id entries (applied + 1)
            (set_score brain_id miner score x)
    ]

unfoldable pub parse_scores : Json → Result (ℤ × Json)
parse_scores body = do
  epoch ← (do v ← get_item body "epoch"; to_int v)
  entries ← get_item body "entries"
  ok (epoch, entries)

abbrev scores_reply : Result ℕ → Result Reply
scores_reply (ok applied) = ok (record {
  status = 200;
  body = obj (field "ok" (bool true) (field "applied" (int (pos applied)) end));
})
scores_reply (raise e) = raise e

-- `for e in entries`
abbrev apply_scores :
    Web3 → ScoreVerifier → ℤ → ℤ → Result (List Json) → MemberIndex → Result Reply × MemberIndex
apply_scores w verify epoch brain_id (raise e) x = (raise e, x)
apply_scores w verify epoch brain_id (ok entries) x =
    let (applied, after) = score_loop w verify epoch brain_id entries 0 x in
    (scores_reply applied, after)

unfoldable pub submit_scores :
    Web3 → Option ScoreVerifier → ℤ → Result Json → MemberIndex → Result Reply × MemberIndex
submit_scores w none brain_id request x = (ok (error_reply 503 "scoring not configured"), x)
submit_scores w (some verify) brain_id (raise e) x = (raise e, x)
submit_scores w (some verify) brain_id (ok body) x =
    elim (or_reply (error_reply 400 "malformed scores") (parse_scores body)) [
      | stop reply ↦ (ok reply, x)
      | fail e ↦ (raise e, x)
      | go (epoch, entries) ↦ apply_scores w verify epoch brain_id (to_list entries) x
    ]

-- The score is one that the verifier accepted for this miner of the Brain.
pub record IsFinal (verify : ScoreVerifier) (brain_id : ℤ) (key : ℤ × Str) (score : ℤ)
    : Type 0 where
  pub epoch : ℤ
  pub miner : Str
  pub proof : List Json
  pub of_miner : key ≡ (brain_id, lower miner)
  pub verified : verify epoch brain_id miner score proof ≡ ok true

-- How the endpoint under a key may change: not at all, or in its score, to a verified one.
pub data Rescored (verify : ScoreVerifier) (brain_id : ℤ) (key : ℤ × Str)
    : Option Endpoint → Option Endpoint → Type 0 where
  same : (o : Option Endpoint) → Rescored verify brain_id key o o
  scored :
      (ep : Endpoint) (score : ℤ)
      → IsFinal verify brain_id key score
      → Rescored verify brain_id key (some ep) (some (record ep { score = score }))

module _ (verify : ScoreVerifier) (brain_id : ℤ) (key : ℤ × Str) where
  -- A change may follow another: the last score counts.
  Rescored-trans :
      {a b c : Option Endpoint}
      → Rescored verify brain_id key a b
      → Rescored verify brain_id key b c
      → Rescored verify brain_id key a c
  Rescored-trans (same o) g = g
  Rescored-trans (scored ep score final) (same o) = scored ep score final
  Rescored-trans (scored ep score final) (scored ep' score' final') = scored ep score' final'

  set_score-Rescored :
      (epoch : ℤ) (miner : Str) (score : ℤ) (proof : List Json) (x : MemberIndex)
      → verify epoch brain_id miner score proof ≡ ok true
      → Rescored verify brain_id key
          (lookup key x.endpoints)
          (lookup key (set_score brain_id miner score x).endpoints)
  unfolding set_score
  set_score-Rescored epoch miner score proof x verified =
      elim (Option-cases (lookup (brain_id, lower miner) x.endpoints)) [
        | inl absent ↦ rw (absent, set_score) (same _)
        | inr (ep, found) ↦
            rw (found, set_score)
              (rw lookup-put (elim (Bool-cases ((brain_id, lower miner) == key)) [
                | inr differs ↦ rw differs (same _)
                | inl hit ↦ rw hit (
                    rw (← (pair_beq_iff (brain_id, lower miner) key).0 hit) (
                      rw found (
                        scored ep score (record {
                          epoch = epoch;
                          miner = miner;
                          proof = proof;
                          of_miner = refl;
                          verified = verified;
                        }))))
              ]))
      ]

  judge_entry-verified :
      (epoch : ℤ) (r : Result (Str × (ℤ × List Json))) (miner : Str) (score : ℤ)
      → judge_entry verify epoch brain_id r ≡ ok (some (miner, score))
      → (proof : List Json) × (verify epoch brain_id miner score proof ≡ ok true)
  judge_entry-verified epoch (ok (m, (n, proof))) miner score h =
      let (v, run, last) = >>=-eq-ok (verify epoch brain_id m n proof) _ h in
      elim (Bool-cases v) [
        | inl accept ↦ let taken = rw accept at last in (proof, cc)
        | inr reject ↦ absurd (ground arith)
      ]
  judge_entry-verified epoch (raise key_error) miner score h = cc
  judge_entry-verified epoch (raise value_error) miner score h = cc
  judge_entry-verified epoch (raise type_error) miner score h = cc
  judge_entry-verified epoch (raise index_error) miner score h = cc
  judge_entry-verified epoch (raise other) miner score h = cc

  -- The loop over the entries changes endpoints in no other way, whether it ends or raises.
  score_loop-Rescored :
      (w : Web3) (epoch : ℤ) (entries : List Json) (applied : ℕ) (x : MemberIndex)
      → Rescored verify brain_id key
          (lookup key x.endpoints)
          (lookup key (score_loop w verify epoch brain_id entries applied x).1.endpoints)
  unfolding score_loop
  score_loop-Rescored w epoch [] applied x = same _
  score_loop-Rescored w epoch (e ∷ entries) applied x =
      elim (Result-cases (judge_entry verify epoch brain_id (parse_entry w e))) [
        | inr (exn, raised) ↦ rw (raised, score_loop) (same _)
        | inl (verdict, judged) ↦ elim (Option-cases verdict) [
          | inl skipped ↦
              rw (judged, score_loop) (rw skipped (score_loop-Rescored w epoch entries applied x))
          | inr ((miner, score), taken) ↦
              let (proof, verified) =
                judge_entry-verified epoch (parse_entry w e) miner score
                  (rw (judged, taken) refl) in
              rw (judged, score_loop)
                (rw taken (
                  Rescored-trans (set_score-Rescored epoch miner score proof x verified) (
                    score_loop-Rescored w epoch entries (applied + 1)
                      (set_score brain_id miner score x))))
        ]
      ]

  -- A submission of scores changes an endpoint at most in its score, and only to a score that the
  -- verifier accepted for that miner, whatever the request holds and however it ends.
  pub submit_scores-Rescored :
      (w : Web3) (request : Result Json) (x : MemberIndex)
      → Rescored verify brain_id key
          (lookup key x.endpoints)
          (lookup key (submit_scores w (some verify) brain_id request x).1.endpoints)
  unfolding submit_scores
  submit_scores-Rescored w (raise e) x = same _
  submit_scores-Rescored w (ok body) x =
      elim (Early-cases (or_reply (error_reply 400 "malformed scores") (parse_scores body))) [
        | inr (inl (reply, stopped)) ↦ rw (stopped, submit_scores) (same _)
        | inr (inr (e, failed)) ↦ rw (failed, submit_scores) (same _)
        | inl ((epoch, entries), parsed) ↦ elim (Result-cases (to_list entries)) [
          | inr (e, raised) ↦ rw (parsed, submit_scores) (rw raised (same _))
          | inl (l, listed) ↦
              rw (parsed, submit_scores) (rw listed (score_loop-Rescored w epoch l 0 x))
        ]
      ]
