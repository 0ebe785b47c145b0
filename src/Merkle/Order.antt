-- ===== src/Merkle/Order.antt =====
-- The order of hashes is a total order, so that a pair's hash and the sorted leaves are canonical.
use based_ai.Prelude.{◌≡◌, refl, true, false, [], ◌∷◌, arith}
use based_ai.Prelude.Text.{Bytes}
use based_ai.Prelude.Sort.{TotalOrder}
use based_ai.Web3.{Web3}
use based_ai.Merkle.{bytes_le, pair_hash}

le_total : (a b : Bytes) → bytes_le a b ≡ false → bytes_le b a ≡ true
unfolding bytes_le
le_total [] b h = cc
le_total (x ∷ xs) [] h = refl
le_total (x ∷ xs) (y ∷ ys) h = ground (arith, le_total xs ys)

pub le_antisymm : (a b : Bytes) → bytes_le a b ≡ true → bytes_le b a ≡ true → a ≡ b
unfolding bytes_le
le_antisymm [] [] h k = refl
le_antisymm [] (y ∷ ys) h k = cc
le_antisymm (x ∷ xs) [] h k = cc
le_antisymm (x ∷ xs) (y ∷ ys) h k = ground (arith, le_antisymm xs ys)

le_trans : (a b c : Bytes) → bytes_le a b ≡ true → bytes_le b c ≡ true → bytes_le a c ≡ true
unfolding bytes_le
le_trans [] b c h k = refl
le_trans (x ∷ xs) [] c h k = cc
le_trans (x ∷ xs) (y ∷ ys) [] h k = cc
le_trans (x ∷ xs) (y ∷ ys) (z ∷ zs) h k = ground (arith, le_trans xs ys zs)

pub bytes_le-TotalOrder : TotalOrder bytes_le
bytes_le-TotalOrder = record { total = le_total; trans = le_trans }

-- A pair is hashed in its sorted order, so the side that a sibling stands on does not matter.
pub pair_hash_comm : (w : Web3) (a b : Bytes) → pair_hash w a b ≡ pair_hash w b a
unfolding pair_hash
pair_hash_comm w a b = ground (arith, le_total a b, le_total b a, le_antisymm a b)
