-- ===== src/Service/Candidacy.antt =====
-- The routes of candidates in validator/src/basedai_validator/service.py. `candidates` is there.
use based_ai.Prelude.{◌≡◌, true, false, not, Option, none, some, List, [], ◌∷◌, arith, inl, inr}
use based_ai.Prelude.Eq.{◌==◌, nat_eq, list_eq, list_beq_iff}
use based_ai.Prelude.Int.{ℤ, pos}
use based_ai.Prelude.Result.{
  Result, ok, raise, type_error, key_error, value_error, index_error, other, ◌>>=◌, traverse,
}
use based_ai.Prelude.Text.{Str, Bytes, lower}
use based_ai.Prelude.Json.{
  Json, Items, nil, cons, bool, int, str, arr, obj, field, end, get_item, to_list,
}
use based_ai.Prelude.Early.{
  Early, go, stop, fail, ◌>>=◌ as ◌>=>◌, refuse_if, Ensures, Ensures-go, Ensures-bind, Early-cases,
  refuse_if-eq-go,
}
use based_ai.Prelude.Http.{Reply, error_reply, or_reply}
use based_ai.Web3.{Web3}
use based_ai.Commitment.{raw, recover_commitment_signer}
use based_ai.Quorum.{Stakes}
use based_ai.Merkle.{ScoreLeaf, build_merkle_root}
use based_ai.Candidates.{Pool, Frozen, Row, add, get}
use based_ai.Service.{text_item, int_item}

-- The body of `POST /candidates`, with the root of its scores.
pub record CandidateBody : Type 0 where
  pub epoch : ℤ
  pub brain_id : ℤ
  pub signer : Str
  pub scores : List Json
  pub signature : Str
  pub own_root : Bytes

unfoldable pub leaf_of_row : (Json → Str) → ℤ → Json → Result ScoreLeaf
leaf_of_row repr brain_id r = do
  miner ← text_item repr r "miner"
  score ← int_item r "score"
  ok (record { brain_id = brain_id; miner = miner; score = score })

unfoldable pub parse_candidate : Web3 → (Json → Str) → Result Json → Result CandidateBody
parse_candidate w repr request = do
  body ← request
  epoch ← int_item body "epoch"
  brain_id ← int_item body "brain_id"
  signer ← text_item repr body "signer"
  scores ← (do v ← get_item body "scores"; to_list v)
  signature ← text_item repr body "signature"
  leaves ← traverse (leaf_of_row repr brain_id) scores
  (root, _) ← build_merkle_root w leaves
  ok (record {
    epoch = epoch;
    brain_id = brain_id;
    signer = signer;
    scores = scores;
    signature = signature;
    own_root = root;
  })

abbrev rows_json : List Row → Items
rows_json [] = nil
rows_json (row ∷ rows) =
    cons (obj (field "miner" (str row.miner) (field "score" (int (pos row.score)) end)))
      (rows_json rows)

abbrev candidate_json : Option Frozen → Json
candidate_json none = obj (field "ok" (bool true) (field "canonical" (bool false) end))
candidate_json (some (root, rows)) = obj (
    field "ok" (bool true) (
      field "canonical" (bool true)
        (field "root" (str root) (field "scores" (arr (rows_json rows)) end))))

-- The reply to what `candidates.add` returned or raised.
abbrev pub added_reply : Early Reply (Option Frozen) → Result Reply
added_reply (stop reply) = ok reply
added_reply (fail e) = raise e
added_reply (go f) = ok (record { status = 200; body = candidate_json f })

unfoldable pub get_candidate : ℤ → ℤ → Option Pool → Reply
get_candidate epoch brain_id none = error_reply 503 "candidate aggregation not configured"
get_candidate epoch brain_id (some pool) = elim (get epoch brain_id pool) [
  | none ↦ record { status = 202; body = obj (field "canonical" (bool false) end) }
  | some (root, rows) ↦ record {
    status = 200;
    body = obj (
        field "canonical" (bool true)
          (field "root" (str root) (field "scores" (arr (rows_json rows)) end)));
  }
]

module _ (w : Web3) (chain_id : ℤ) (registry : Str) where
  abbrev pub candidate_signer : CandidateBody → Result Str
  candidate_signer c =
      recover_commitment_signer w chain_id registry c.epoch c.brain_id (raw c.own_root)
        (str c.signature)

  -- `submit_candidate`, up to the call of `candidates.add`.
  unfoldable pub admit_candidate : (Json → Str) → Result Json → Early Reply CandidateBody
  admit_candidate repr request =
      or_reply (error_reply 400 "malformed candidate") (parse_candidate w repr request) >=> λ c.
      or_reply (error_reply 400 "malformed candidate") (candidate_signer c) >=> λ recovered.
      refuse_if (not (lower recovered == lower c.signer))
        (error_reply 401 "candidate signature mismatch")
      >=> λ _. go c

  unfoldable pub submit_candidate : Stakes → (Json → Str) → Result Json → Pool → Result Reply × Pool
  submit_candidate st repr request pool = elim (admit_candidate repr request) [
    | stop reply ↦ (ok reply, pool)
    | fail e ↦ (raise e, pool)
    | go c ↦
        let (added, after) = add w st c.epoch c.brain_id c.signer c.scores pool in
        (added_reply (or_reply (error_reply 400 "malformed candidate") added), after)
  ]

  -- The signer signed the root of exactly these scores, for this epoch and Brain.
  pub record IsOwn (repr : Json → Str) (request : Result Json) (c : CandidateBody) : Type 0 where
    pub parsed : parse_candidate w repr request ≡ ok c
    pub recovered : Str
    pub verified : candidate_signer c ≡ ok recovered
    pub same : lower recovered ≡ lower c.signer

  pub data CandidateStep (st : Stakes) (repr : Json → Str) (request : Result Json) (pool : Pool)
      : Pool → Type 0 where
    refused : CandidateStep st repr request pool pool
    entered :
        (c : CandidateBody)
        → IsOwn repr request c
        → CandidateStep st repr request pool (add w st c.epoch c.brain_id c.signer c.scores pool).1

  or_reply-eq-go :
      {A : Type 0} (reply : Reply) (r : Result A) {a : A} → or_reply reply r ≡ go a → r ≡ ok a
  or_reply-eq-go reply (ok a) h = cc
  or_reply-eq-go reply (raise key_error) h = cc
  or_reply-eq-go reply (raise value_error) h = cc
  or_reply-eq-go reply (raise type_error) h = cc
  or_reply-eq-go reply (raise index_error) h = cc
  or_reply-eq-go reply (raise other) h = cc

  admit_candidate-Ensures :
      (repr : Json → Str) (request : Result Json)
      → Ensures (IsOwn repr request) (admit_candidate repr request)
  unfolding admit_candidate
  admit_candidate-Ensures repr request =
      Ensures-bind
        (or_reply (error_reply 400 "malformed candidate") (parse_candidate w repr request))
        (λ c parsed.
          Ensures-bind (or_reply (error_reply 400 "malformed candidate") (candidate_signer c))
            (λ recovered verified.
              Ensures-bind
                (refuse_if (not (lower recovered == lower c.signer))
                  (error_reply 401 "candidate signature mismatch"))
                (λ _ same. Ensures-go c (record {
                  parsed = or_reply-eq-go _ _ parsed;
                  recovered = recovered;
                  verified = or_reply-eq-go _ _ verified;
                  same = ground (
                    arith,
                    list_beq_iff (lower recovered) (lower c.signer),
                    refuse_if-eq-go _ _ same,
                  );
                }))))

  -- Whatever is posted to `/candidates`, the pool stays as it was unless the named signer signed the
  -- Merkle root of the posted scores; then those scores are added under that signer.
  pub submit_candidate-CandidateStep :
      (st : Stakes) (repr : Json → Str) (request : Result Json) (pool : Pool)
      → CandidateStep st repr request pool (submit_candidate st repr request pool).1
  unfolding submit_candidate
  submit_candidate-CandidateStep st repr request pool =
      elim (Early-cases (admit_candidate repr request)) [
        | inr (inl (reply, stopped)) ↦ rw (stopped, submit_candidate) refused
        | inr (inr (e, failed)) ↦ rw (failed, submit_candidate) refused
        | inl (c, admitted) ↦
            rw (admitted, submit_candidate)
              (entered c ((admit_candidate-Ensures repr request).at c admitted))
      ]
