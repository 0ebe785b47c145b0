-- ===== src/Merkle/Roots.antt =====
-- What the root depends on: the leaves, not the order in which they are listed.
use mathlib.Core.List.{Permᴰ}
use mathlib.Core.List.Permᴰ
use mathlib.Core.Option.{some-injective}
use based_ai.Prelude.{
  ℕ, zero, suc, ◌≤◌, ◌⊎◌, inl, inr, some, ltb, Bool-cases, ◌≡◌, ◌<◌, refl, ap, ◌∙◌, sym, arith,
  List, [], ◌∷◌, length, get_elem?,
}
use based_ai.Prelude.Result.{Result, ok, ◌>>=◌, >>=-eq-ok, or_raise, index_error, traverse}
use based_ai.Prelude.Text.{Bytes}
use based_ai.Prelude.Sort.{
  sorted, sorted-perm, length-sorted, sorted-eq_of_perm, IsSorted, sorted-IsSorted,
}
use based_ai.Web3.{Web3}
use based_ai.Merkle.{
  ScoreLeaf, bytes_le, leaf_hash, reduce, next_layer, zero_root, build_merkle_root,
}
use based_ai.Merkle.Proofs.{process_proof, proof_loop-Leads}
use based_ai.Merkle.Order.{bytes_le-TotalOrder, le_antisymm}

module _ {ℓ κ} {A : Type ℓ} {B : Type κ} (f : A → Result B) where
  -- A call over a list that returned did so on the head and on the tail.
  traverse-cons_inv :
      (a : A) (l : List A) {ys : List B}
      → traverse f (a ∷ l) ≡ ok ys
      → (b : B) × (bs : List B) × (f a ≡ ok b) × (traverse f l ≡ ok bs) × (ys ≡ b ∷ bs)
  traverse-cons_inv a l h =
      let (b, fa, rest) = >>=-eq-ok (f a) (λ b. do bs ← traverse f l; ok (b ∷ bs)) h in
      let (bs, fl, eq) = >>=-eq-ok (traverse f l) (λ bs. ok (b ∷ bs)) rest in
      (b, bs, fa, fl, ground arith)

  -- Over a rearranged list the calls return the same values, rearranged.
  traverse-perm :
      {l r : List A} {ys : List B}
      → Permᴰ l r
      → traverse f l ≡ ok ys
      → (zs : List B) × (traverse f r ≡ ok zs) × Permᴰ ys zs
  traverse-perm {ys} Permᴰ.nil h = (ys, h, Permᴰ.refl ys)
  traverse-perm (Permᴰ.cons {a = a} {b = b} {l₁ = l} {l₂ = r} e p) h =
      let (y, ys', fa, fl, split) = traverse-cons_inv a l h in
      let (zs, fr, q) = traverse-perm p fl in
      (y ∷ zs, rw (← e, fa, fr), rw split (Permᴰ.cons refl q))
  traverse-perm (Permᴰ.swap {a = a} {b = b} {l = l} e e') h =
      let (y, ys₁, fa, rest, split) = traverse-cons_inv a (b ∷ l) h in
      let (z, ys₂, fb, fl, split') = traverse-cons_inv b l rest in
      (z ∷ y ∷ ys₂, rw (← e, ← e', fb, fa, fl), rw (split, split') (Permᴰ.swap refl refl))
  traverse-perm (Permᴰ.trans p q) h =
      let (ys, hy, py) = traverse-perm p h in
      let (zs, hz, pz) = traverse-perm q hy in (zs, hz, Permᴰ.trans py pz)

module _ (w : Web3) where
  -- The root as a function of the hashes alone.
  root_of : List Bytes → Result (Bytes × List Bytes)
  root_of [] = ok (zero_root w, [])
  root_of (h ∷ hs) = do
    root ← or_raise index_error (get_elem? (reduce w (length (h ∷ hs)) (h ∷ hs)) 0)
    ok (root, h ∷ hs)

  root_of-nonempty :
      (hs : List Bytes)
      → 0 < length hs
      → (do root ← or_raise index_error (get_elem? (reduce w (length hs) hs) 0); ok (root, hs))
        ≡ root_of hs
  unfolding root_of
  root_of-nonempty [] h = absurd (omega arith)
  root_of-nonempty (x ∷ hs) h = refl

  build_merkle_root-root_of :
      (leaves : List ScoreLeaf) {hashes : List Bytes}
      → traverse (leaf_hash w) leaves ≡ ok hashes
      → build_merkle_root w leaves ≡ root_of (sorted bytes_le hashes)
  unfolding build_merkle_root root_of sorted
  build_merkle_root-root_of [] h = ground arith
  build_merkle_root-root_of (leaf ∷ leaves) {hashes} h =
      let (y, ys, _, _, split) = traverse-cons_inv (leaf_hash w) leaf leaves h in
      let counted = ap (length {A = Bytes}) split in
      rw (h, build_merkle_root)
        (root_of-nonempty (sorted bytes_le hashes)
          (omega (arith, counted, length-sorted bytes_le hashes)))

  root_of-ok : (hs : List Bytes) → (root : Bytes) × (root_of hs ≡ ok (root, hs))
  unfolding root_of
  root_of-ok [] = (zero_root w, refl)
  root_of-ok (h ∷ hs) =
      let (proof, _, top) =
        proof_loop-Leads w (length (h ∷ hs)) (h ∷ hs) 0 h [] (omega arith) refl in
      (process_proof w h proof, rw top)

  -- The loop leaves one hash at most.
  length-reduce : (fuel : ℕ) (layer : List Bytes) → length (reduce w fuel layer) ≤ 1
  unfolding reduce
  length-reduce zero layer = elim (Bool-cases (ltb 1 (length layer))) [
    | inl more ↦ rw more (omega arith)
    | inr one ↦ rw one (ground arith)
  ]
  length-reduce (suc fuel) layer = elim (Bool-cases (ltb 1 (length layer))) [
    | inl more ↦ rw (more, reduce) (length-reduce fuel (next_layer w layer))
    | inr one ↦ rw (one, reduce) (ground arith)
  ]

  only_one :
      (layer : List Bytes) {x : Bytes}
      → length layer ≤ 1
      → get_elem? layer 0 ≡ some x
      → layer ≡ x ∷ []
  only_one [] short at = cc
  only_one (y ∷ []) {x} short at = ap (λ z. z ∷ []) (some-injective y x at)
  only_one (y ∷ z ∷ layer) short at = absurd (omega arith)

  root_of-one :
      (hs : List Bytes) {root : Bytes}
      → 0 < length hs
      → root_of hs ≡ ok (root, hs)
      → reduce w (length hs) hs ≡ root ∷ []
  unfolding root_of
  root_of-one [] some_there built = absurd (omega arith)
  root_of-one (h ∷ hs) some_there built =
      let layer = reduce w (length (h ∷ hs)) (h ∷ hs) in
      only_one layer (length-reduce (length (h ∷ hs)) (h ∷ hs)) (ground arith)

  reduce-leaves :
      (leaves : List ScoreLeaf) {hashes : List Bytes} {root : Bytes}
      → traverse (leaf_hash w) leaves ≡ ok hashes
      → root_of (sorted bytes_le hashes) ≡ ok (root, sorted bytes_le hashes)
      → (leaves ≡ [])
        ⊎ (reduce w (length (sorted bytes_le hashes)) (sorted bytes_le hashes) ≡ root ∷ [])
  reduce-leaves [] h built = inl refl
  reduce-leaves (leaf ∷ leaves) {hashes} h built =
      let (y, ys, _, _, split) = traverse-cons_inv (leaf_hash w) leaf leaves h in
      let counted = ap (length {A = Bytes}) split in
      inr (
        root_of-one (sorted bytes_le hashes) (omega (arith, counted, length-sorted bytes_le hashes))
          built)

  -- Listing the leaves in another order changes neither the root nor the sorted hashes.
  pub build_merkle_root-perm :
      {leaves others : List ScoreLeaf} {hashes : List Bytes}
      → Permᴰ leaves others
      → traverse (leaf_hash w) leaves ≡ ok hashes
      → build_merkle_root w leaves ≡ build_merkle_root w others
  build_merkle_root-perm {leaves} {others} p h =
      let (hashes', h', q) = traverse-perm (leaf_hash w) p h in
      build_merkle_root-root_of leaves h
      ∙ ap root_of (sorted-eq_of_perm bytes_le bytes_le-TotalOrder le_antisymm q)
      ∙ sym (build_merkle_root-root_of others h')

  -- A tree of encodable leaves always has a root: the loop over the layers ends within its fuel, which
  -- gives no root otherwise. The hashes beside the root are the leaves' hashes in ascending order, and
  -- where there are leaves, the root is all that their layers come down to.
  pub build_merkle_root-IsSorted :
      (leaves : List ScoreLeaf) {hashes : List Bytes}
      → traverse (leaf_hash w) leaves ≡ ok hashes
      → (root : Bytes) × (hashed : List Bytes) × (build_merkle_root w leaves ≡ ok (root, hashed))
        × Permᴰ hashed hashes
        × IsSorted bytes_le hashed
        × ((leaves ≡ []) ⊎ (reduce w (length hashed) hashed ≡ root ∷ []))
  build_merkle_root-IsSorted leaves {hashes} h =
      let hashed = sorted bytes_le hashes in
      let (root, at) = root_of-ok hashed in
      (
        root,
        hashed,
        build_merkle_root-root_of leaves h ∙ at,
        sorted-perm bytes_le hashes,
        sorted-IsSorted bytes_le bytes_le-TotalOrder hashes,
        reduce-leaves leaves h at,
      )
