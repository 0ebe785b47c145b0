-- ===== src/Merkle.antt =====
-- validator/src/basedai_validator/merkle.py: the score leaves, the root and the proofs. Hashes are
-- lists of bytes; each `while len(layer) > 1` recurs on fuel, the number of leaves.
pub mod Order
pub mod Layers
pub mod Proofs
pub mod Roots
use Prim.Native.Nat.{bit_xor}
use based_ai.Prelude.{
  ℕ, zero, suc, ◌/◌, ◌%◌, Bool, true, false, ◌&&◌, ◌||◌, List, [], ◌∷◌, ◌++◌, ltb, nat_beq,
  if◌then◌else◌, length, get_elem?, contains,
}
use based_ai.Prelude.Eq.{◌==◌, nat_eq, list_eq}
use based_ai.Prelude.Int.{ℤ}
use based_ai.Prelude.Result.{Result, ok, raise, value_error, index_error, ◌>>=◌, or_raise, traverse}
use based_ai.Prelude.Text.{Str, Bytes}
use based_ai.Prelude.Sort.{sorted}
use based_ai.Web3.{Web3, uint256, address}

pub record ScoreLeaf : Type 0 where
  pub brain_id : ℤ
  pub miner : Str
  pub score : ℤ

-- `a <= b` on bytes
unfoldable pub bytes_le : Bytes → Bytes → Bool
bytes_le [] _ = true
bytes_le (x ∷ xs) [] = false
bytes_le (x ∷ xs) (y ∷ ys) = ltb x y || nat_beq x y && bytes_le xs ys

-- `layer.append(layer[-1])`
append_last : List Bytes → List Bytes
append_last [] = []
append_last (x ∷ []) = x ∷ x ∷ []
append_last (x ∷ y ∷ r) = x ∷ append_last (y ∷ r)

-- the `if len(layer) % 2 == 1` of both loops
unfoldable pub pad : List Bytes → List Bytes
unfolding append_last
pad layer = if nat_beq (length layer % 2) 1 then append_last layer else layer

-- `hashed.index(h)`, of a list that holds `h`
unfoldable pub index_of : Bytes → List Bytes → ℕ
index_of h [] = 0
index_of h (x ∷ xs) = if x == h then 0 else suc (index_of h xs)

module _ (w : Web3) where
  unfoldable pub leaf_hash : ScoreLeaf → Result Bytes
  leaf_hash leaf = do
    encoded ← w.abi_encode (uint256 leaf.brain_id ∷ address leaf.miner ∷ uint256 leaf.score ∷ [])
    ok (w.keccak (w.keccak encoded))

  unfoldable pub pair_hash : Bytes → Bytes → Bytes
  unfolding bytes_le
  pair_hash a b = w.keccak (if bytes_le a b then a ++ b else b ++ a)

  -- the `for i in range(0, len(layer), 2)`, over an even number of hashes
  pair_up : List Bytes → List Bytes
  pair_up (a ∷ b ∷ r) = pair_hash a b ∷ pair_up r
  pair_up _ = []

  unfoldable pub next_layer : List Bytes → List Bytes
  unfolding pad pair_up
  next_layer layer = pair_up (pad layer)

  -- `while len(layer) > 1`; out of fuel it gives no layer, so that there is no root to read.
  unfoldable pub reduce : ℕ → List Bytes → List Bytes
  reduce zero layer = if ltb 1 (length layer) then [] else layer
  reduce (suc fuel) layer = elim (ltb 1 (length layer)) [
    | true ↦ reduce fuel (next_layer layer)
    | false ↦ layer
  ]

  unfoldable pub sorted_hashes : List ScoreLeaf → Result (List Bytes)
  unfolding bytes_le
  sorted_hashes leaves = do hashes ← traverse (leaf_hash) leaves; ok (sorted bytes_le hashes)

  abbrev pub zero_root : Bytes
  zero_root = zeros 32
    where
      zeros : ℕ → Bytes
      zeros zero = []
      zeros (suc n) = 0 ∷ zeros n

  unfoldable pub build_merkle_root : List ScoreLeaf → Result (Bytes × List Bytes)
  unfolding sorted_hashes
  build_merkle_root [] = ok (zero_root, [])
  build_merkle_root (leaf ∷ leaves) = do
    hashed ← sorted_hashes (leaf ∷ leaves)
    root ← or_raise index_error (get_elem? (reduce (length hashed) hashed) 0)
    ok (root, hashed)

  -- the loop of `build_proof`; out of fuel it gives no proof
  unfoldable pub proof_loop : ℕ → List Bytes → ℕ → List Bytes → Result (List Bytes)
  proof_loop zero layer idx proof = if ltb 1 (length layer) then raise index_error else ok proof
  proof_loop (suc fuel) layer idx proof = elim (ltb 1 (length layer)) [
    | true ↦ do
      sibling ← or_raise index_error (get_elem? (pad layer) (bit_xor idx 1))
      proof_loop fuel (next_layer layer) (idx / 2) (proof ++ sibling ∷ [])
    | false ↦ ok proof
  ]

  unfoldable pub build_proof : List ScoreLeaf → ScoreLeaf → Result (List Bytes)
  unfolding sorted_hashes index_of
  build_proof leaves target = do
    target_hash ← leaf_hash target
    hashed ← sorted_hashes leaves
    (if contains target_hash hashed
        then proof_loop (length hashed) hashed (index_of target_hash hashed) []
        else raise value_error)
