-- ===== src/Tests/Scores.antt =====
-- The theorems on score roots, quorums and canonical candidates, at concrete scores.
use mathlib.Core.List.{Permᴰ, Memᴰ}
use based_ai.Prelude.{ℕ, ◌≤◌, ◌≡◌, refl, List, [], ◌∷◌, arith, Option, some, none, ◌⊎◌, length}
use based_ai.Prelude.Int.{pos}
use based_ai.Prelude.Result.{Result, ok, raise, traverse}
use based_ai.Prelude.Text.{Str, Bytes, codes}
use based_ai.Prelude.Sort.{sorted, IsSorted}
use based_ai.Prelude.Json.{Json, obj, field, end, int, str, get_item, to_int}
use based_ai.Prelude.Dict.{lookup, put}
use based_ai.Merkle.{
  ScoreLeaf, bytes_le, leaf_hash, build_merkle_root, build_proof, reduce, next_layer, pair_hash,
}
use based_ai.Merkle.Proofs.{process_proof, build_proof-verifies}
use based_ai.Merkle.Roots.{build_merkle_root-IsSorted}
use based_ai.Quorum.{Stakes, needed}
use based_ai.Candidates.{
  Frozen, Pool, enter, conclude, checked_scores, freeze_rows, rows_of, miners_of, normalize,
  score_in_range, non_empty, weighted_of, weighted_le, weighted_median, add, get, contributors_at,
}
use based_ai.Candidates.Median.{weighted_median-robust}
use based_ai.Candidates.Rows.{IsCanonical, add-IsCanonical}
use based_ai.Candidates.Freeze.{Submission, accept_all, accept_all-frozen}
use based_ai.Tests.World.{world, ann, bob, stakes}

abbrev leaf : Str → ℕ → ScoreLeaf
leaf miner score = record { brain_id = pos 7; miner = miner; score = pos score }

abbrev three : List ScoreLeaf
three = leaf ann 90 ∷ leaf bob 80 ∷ leaf ann 70 ∷ []

abbrev hash_or_empty : Result Bytes → Bytes
hash_or_empty (ok b) = b
hash_or_empty (raise e) = []

abbrev hash : ScoreLeaf → Bytes
hash l = hash_or_empty (leaf_hash world l)

abbrev three_hashes : List Bytes
three_hashes = hash (leaf ann 90) ∷ hash (leaf bob 80) ∷ hash (leaf ann 70) ∷ []

three_hashed : traverse (leaf_hash world) three ≡ ok three_hashes
unfolding leaf_hash
three_hashed = refl

build_proof-verifies_example :
    (root : Bytes) × (held : Bytes) × (proof : List Bytes) × (build_merkle_root world three
      ≡ ok (root, sorted bytes_le three_hashes))
    × (leaf_hash world (leaf bob 80) ≡ ok held)
    × (build_proof world three (leaf bob 80) ≡ ok proof)
    × (process_proof world held proof ≡ root)
build_proof-verifies_example =
    build_proof-verifies world three (leaf bob 80) {hashes = three_hashes}
      (Memᴰ.tail (Memᴰ.head refl)) three_hashed

build_merkle_root-IsSorted_example :
    (root : Bytes) × (hashed : List Bytes) × (build_merkle_root world three ≡ ok (root, hashed))
    × Permᴰ hashed three_hashes
    × IsSorted bytes_le hashed
    × ((three ≡ []) ⊎ (reduce world (length hashed) hashed ≡ root ∷ []))
build_merkle_root-IsSorted_example =
    build_merkle_root-IsSorted world three {hashes = three_hashes} three_hashed

-- Scores with the stake behind each.
abbrev reports : List (ℕ × ℕ)
reports = (90, 6) ∷ (10, 4) ∷ (95, 1) ∷ []

weighted_median-robust_example :
    (90 ≤ weighted_median (sorted weighted_le reports))
    × (weighted_median (sorted weighted_le reports) ≤ 95)
weighted_median-robust_example = weighted_median-robust reports 90 95 (omega arith)

abbrev empty_pool : Pool
empty_pool = record { min_quorum_bps = 5001; candidates = []; frozen = [] }

abbrev score_rows : List Json
score_rows =
    obj (field "miner" (str bob) (field "score" (int (pos 80)) end))
    ∷ obj (field "miner" (str ann) (field "score" (int (pos 90)) end))
    ∷ []

abbrev after_add : Result (Option Frozen) × Pool
after_add = add world stakes (pos 3) (pos 7) ann score_rows empty_pool

abbrev frozen_or_empty : Result (Option Frozen) → Frozen
frozen_or_empty (ok (some f)) = f
frozen_or_empty _ = ([], [])

abbrev frozen_result : Frozen
frozen_result = frozen_or_empty after_add.0

none_before : get (pos 3) (pos 7) empty_pool ≡ none
unfolding get lookup
none_before = refl

frozen_after : after_add ≡ (ok (some frozen_result), after_add.1)
unfolding add enter conclude lookup checked_scores freeze_rows get_item to_int put build_merkle_root
    leaf_hash rows_of miners_of sorted needed reduce normalize score_in_range non_empty weighted_of
    next_layer pair_hash weighted_median
frozen_after = refl

add-IsCanonical_example :
    IsCanonical world stakes (pos 7) 5001 (contributors_at (pos 3, pos 7) after_add.1) frozen_result
    × (get (pos 3) (pos 7) after_add.1 ≡ some frozen_result)
add-IsCanonical_example =
    add-IsCanonical world stakes (pos 3) (pos 7) ann score_rows empty_pool {f = frozen_result}
      {pool' = after_add.1} none_before frozen_after

abbrev known : Frozen
known = (codes "0x1234", record { miner = bob; score = 80 } ∷ [])

abbrev frozen_pool : Pool
frozen_pool = record {
  min_quorum_bps = 5001;
  candidates = [];
  frozen = ((pos 3, pos 7), known) ∷ [];
}

abbrev later : List Submission
later =
    record { stakes = stakes; epoch = pos 3; brain_id = pos 7; signer = ann; scores = score_rows }
    ∷ record { stakes = stakes; epoch = pos 4; brain_id = pos 7; signer = ann; scores = score_rows }
    ∷ []

known_there : get (pos 3) (pos 7) frozen_pool ≡ some known
unfolding get lookup
known_there = refl

accept_all-frozen_example :
    (get (pos 3) (pos 7) (accept_all world frozen_pool later) ≡ some known)
    × ((st : Stakes) (signer : Str) (scores : List Json)
        → add world st (pos 3) (pos 7) signer scores (accept_all world frozen_pool later)
          ≡ (ok (some known), accept_all world frozen_pool later))
accept_all-frozen_example =
    accept_all-frozen world frozen_pool later (pos 3) (pos 7) known known_there
