-- ===== src/Candidates/Freeze.antt =====
-- A frozen result is final, whatever is submitted after it.
use mathlib.Core.Path.{ap}
use based_ai.Prelude.{
  ℕ, ◌≡◌, some, none, List, [], ◌∷◌, Bool-cases, Option-cases, inl, inr, nat_beq, ltb,
}
use based_ai.Prelude.Eq.{◌==◌, int_eq, pair_eq, list_eq, nat_eq, pair_beq_iff}
use based_ai.Prelude.Int.{ℤ}
use based_ai.Prelude.Result.{Result, ok, raise, Result-cases}
use based_ai.Prelude.Text.{Str}
use based_ai.Prelude.Json.{Json}
use based_ai.Prelude.Dict.{Dict, lookup, put, keys, lookup-put}
use based_ai.Web3.{Web3}
use based_ai.Quorum.{Stakes, stake_sum}
use based_ai.Candidates.{
  Frozen, Pool, Contributors, record_frozen, freeze_rows, conclude, enter, checked_scores, add, get,
  need_of, rows_of, miners_of, contributors_at,
}

-- The results that a pool holds, all still there in the other.
abbrev Keeps : Pool → Pool → Type 0
Keeps pool pool' =
    (k : ℤ × ℤ) (f : Frozen) → lookup k pool.frozen ≡ some f → lookup k pool'.frozen ≡ some f

module _ (w : Web3) (st : Stakes) (key : ℤ × ℤ) (pool : Pool)
    (fresh : lookup key pool.frozen ≡ none) where
  record_frozen-Keeps : (r : Result Frozen) → Keeps pool (record_frozen key r pool).1
  record_frozen-Keeps (raise e) k f h = h
  record_frozen-Keeps (ok g) k f h = elim (Bool-cases (key == k)) [
    | inl same ↦ cc (ap (λ k. lookup k pool.frozen) ((pair_beq_iff key k).0 same))
    | inr other ↦ rw lookup-put (rw other h)
  ]

  conclude-Keeps :
      (contributors : Contributors) → Keeps pool (conclude w st key contributors pool).1
  unfolding conclude
  conclude-Keeps contributors k f h =
      elim (Bool-cases
        (ltb (stake_sum st key.1 (keys contributors)) (need_of st key.1 pool.min_quorum_bps))) [
          | inl short ↦ rw short h
          | inr enough ↦ rw enough (
              record_frozen-Keeps
                (freeze_rows w key.1 (
                  rows_of st key.1 (need_of st key.1 pool.min_quorum_bps) contributors
                    (miners_of contributors)))
                k f h)
        ]

module _ (w : Web3) (st : Stakes) where
  enter-Keeps :
      (key : ℤ × ℤ) (signer : Str) (normalized : Dict Str ℕ) (pool : Pool)
      → lookup key pool.frozen ≡ none
      → Keeps pool (enter w st key signer normalized pool).1
  unfolding enter
  enter-Keeps key signer normalized pool fresh k f h =
      elim (Result-cases (w.to_checksum_address (Json.str signer))) [
        | inr (e, raised) ↦ rw (raised, enter) h
        | inl (address, checksum) ↦
            let contributors : Contributors = put address normalized (contributors_at key pool) in
            rw (checksum, enter)
              (conclude-Keeps w st key
                (record pool { candidates = put key contributors pool.candidates }) fresh
                contributors k f h)
      ]

  -- No call changes or drops a result that is frozen, for its own key or any other.
  pub add-Keeps :
      (epoch brain_id : ℤ) (signer : Str) (scores : List Json) (pool : Pool) (e b : ℤ) {f : Frozen}
      → get e b pool ≡ some f
      → get e b (add w st epoch brain_id signer scores pool).1 ≡ some f
  unfolding add get
  add-Keeps epoch brain_id signer scores pool e b {f} h =
      elim (Option-cases (lookup (epoch, brain_id) pool.frozen)) [
        | inr (g, done) ↦ rw (done, add) h
        | inl fresh ↦ elim (Bool-cases (nat_beq (st.stake_of brain_id signer) 0)) [
          | inl stakeless ↦ rw (fresh, add) (rw stakeless h)
          | inr staked ↦ elim (Result-cases (checked_scores w scores)) [
            | inr (x, raised) ↦ rw (fresh, add) (rw staked (rw raised h))
            | inl (normalized, checked) ↦
                rw (fresh, add)
                  (rw staked (
                    rw checked
                      (enter-Keeps (epoch, brain_id) signer normalized pool fresh (e, b) f h)))
          ]
        ]
      ]

  add-known :
      (epoch brain_id : ℤ) (signer : Str) (scores : List Json) (pool : Pool) {f : Frozen}
      → get epoch brain_id pool ≡ some f
      → add w st epoch brain_id signer scores pool ≡ (ok (some f), pool)
  unfolding add get
  add-known epoch brain_id signer scores pool h = rw (h, add)

-- A submission, with the stakes that are read while it is handled.
pub record Submission : Type 0 where
  pub stakes : Stakes
  pub epoch : ℤ
  pub brain_id : ℤ
  pub signer : Str
  pub scores : List Json

abbrev pub accept : Web3 → Pool → Submission → Pool
accept w pool s = (add w s.stakes s.epoch s.brain_id s.signer s.scores pool).1

pub accept_all : Web3 → Pool → List Submission → Pool
accept_all w pool [] = pool
accept_all w pool (s ∷ rest) = accept_all w (accept w pool s) rest

-- Once a result is frozen, `get` returns it after any further submissions, with any stakes, and a
-- submission for its key is answered with it.
pub accept_all-frozen :
    (w : Web3) (pool : Pool) (submissions : List Submission) (epoch brain_id : ℤ) (f : Frozen)
    → get epoch brain_id pool ≡ some f
    → (get epoch brain_id (accept_all w pool submissions) ≡ some f)
      × ((st : Stakes) (signer : Str) (scores : List Json)
          → add w st epoch brain_id signer scores (accept_all w pool submissions)
            ≡ (ok (some f), accept_all w pool submissions))
unfolding accept_all
accept_all-frozen w pool [] epoch brain_id f h =
    (h, λ st signer scores. add-known w st epoch brain_id signer scores pool h)
accept_all-frozen w pool (s ∷ rest) epoch brain_id f h =
    accept_all-frozen w (accept w pool s) rest epoch brain_id f
      (add-Keeps w s.stakes s.epoch s.brain_id s.signer s.scores pool epoch brain_id h)
