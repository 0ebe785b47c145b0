-- ===== src/Merkle/Proofs.antt =====
-- `build_proof` against a verifier: a proof is folded into the leaf's hash, each step hashing the
-- sorted pair, and must give the root. That is what the on-chain `MerkleProof` check computes.
use Prim.Native.Nat.{bit_xor}
use mathlib.Core.List.{append_assoc, append-nil, Memᴰ}
use based_ai.Prelude.{
  ℕ, zero, suc, ◌/◌, ◌≤◌, ◌≡◌, refl, ap, ◌∙◌, sym, true, false, some, List, [], ◌∷◌, ◌++◌, arith,
  length, get_elem?, contains, ltb, Bool-cases, inl, inr,
}
use based_ai.Prelude.Eq.{Eq, ◌==◌, nat_eq, list_eq, list_beq_iff, beq_refl}
use based_ai.Prelude.Result.{Result, ok, raise, ◌>>=◌, traverse, value_error, >>=-eq-ok}
use based_ai.Prelude.Text.{Bytes}
use based_ai.Prelude.Sort.{sorted, contains-sorted}
use based_ai.Web3.{Web3}
use based_ai.Merkle.{
  ScoreLeaf, bytes_le, index_of, leaf_hash, pair_hash, next_layer, pad, reduce, proof_loop,
  build_merkle_root, build_proof,
}
use based_ai.Merkle.Layers.{Parent-of, length-next_layer}

pub index_of-contains :
    (h : Bytes) (l : List Bytes) → contains h l ≡ true → get_elem? l (index_of h l) ≡ some h
unfolding index_of
index_of-contains h [] p = cc
index_of-contains h (x ∷ l) p = elim (Bool-cases (x == h)) [
  | inl e ↦ rw e (ap some ((list_beq_iff x h).0 e))
  | inr e ↦ rw e (index_of-contains h l (rw e at p))
]

module _ (w : Web3) where
  -- The verifier.
  pub process_proof : Bytes → List Bytes → Bytes
  process_proof leaf [] = leaf
  process_proof leaf (s ∷ proof) = process_proof (pair_hash w leaf s) proof

  -- What the loop adds to the proof leads from `x` to the top of the layers.
  abbrev pub Leads : ℕ → List Bytes → ℕ → Bytes → List Bytes → Type 0
  Leads fuel layer idx x acc =
      (p : List Bytes) × (proof_loop w fuel layer idx acc ≡ ok (acc ++ p))
      × (get_elem? (reduce w fuel layer) 0 ≡ some (process_proof x p))

  only_index :
      (l : List Bytes) (i : ℕ) (x : Bytes)
      → length l ≤ 1
      → get_elem? l i ≡ some x
      → get_elem? l 0 ≡ some x
  only_index [] i x small at = cc
  only_index (a ∷ []) zero x small at = at
  only_index (a ∷ []) (suc i) x small at = cc
  only_index (a ∷ b ∷ l) i x small at = absurd (omega arith)

  Leads-here :
      (fuel : ℕ) (l : List Bytes) (i : ℕ) (x : Bytes) (acc : List Bytes)
      → ltb 1 (length l) ≡ false
      → get_elem? l i ≡ some x
      → Leads fuel l i x acc
  unfolding proof_loop reduce process_proof
  Leads-here zero l i x acc small at =
      ([], rw small (ap ok (sym (append-nil acc))), rw small (only_index l i x (ground arith) at))
  Leads-here (suc fuel) l i x acc small at = (
    [],
    rw (small, proof_loop) (ap ok (sym (append-nil acc))),
    rw (small, reduce) (only_index l i x (ground arith) at),
  )

  -- One round of the loop: the sibling of `x`, then what leads on from the pair's hash.
  Leads-on :
      (fuel : ℕ) (l : List Bytes) (i : ℕ) (x s : Bytes) (acc : List Bytes)
      → ltb 1 (length l) ≡ true
      → get_elem? (pad l) (bit_xor i 1) ≡ some s
      → Leads fuel (next_layer w l) (i / 2) (pair_hash w x s) (acc ++ s ∷ [])
      → Leads (suc fuel) l i x acc
  unfolding proof_loop reduce process_proof
  Leads-on fuel l i x s acc more at (p, loop, top) = (
    s ∷ p,
    rw (more, proof_loop) (rw (at, loop) (ap ok (append_assoc acc (s ∷ []) p))),
    rw (more, reduce) top,
  )

  pub proof_loop-Leads :
      (fuel : ℕ) (l : List Bytes) (i : ℕ) (x : Bytes) (acc : List Bytes)
      → length l ≤ suc fuel
      → get_elem? l i ≡ some x
      → Leads fuel l i x acc
  proof_loop-Leads zero l i x acc small at = Leads-here zero l i x acc (ground arith) at
  proof_loop-Leads (suc fuel) l i x acc small at = elim (Bool-cases (ltb 1 (length l))) [
    | inr one ↦ Leads-here (suc fuel) l i x acc one at
    | inl more ↦
        let (s, beside, up) = Parent-of w l i x at in
        Leads-on fuel l i x s acc more beside (
          proof_loop-Leads fuel (next_layer w l) (i / 2) (pair_hash w x s) (acc ++ s ∷ [])
            (ground (arith, length-next_layer w l)) up)
  ]

module _ {ℓ κ} {A : Type ℓ} {B : Type κ} ⦃e : Eq B⦄ (f : A → Result B) where
  -- A call over a list returns only if it returns on each element, and lists what it returned.
  traverse-mem :
      {x : A} {l : List A} {ys : List B}
      → Memᴰ x l
      → traverse f l ≡ ok ys
      → (y : B) × (f x ≡ ok y) × (contains y ys ≡ true)
  traverse-mem {l = []} m h = elim m [ ]
  traverse-mem {l = a ∷ l} (Memᴰ.head p) h =
      let (y, fa, rest) = >>=-eq-ok (f a) (λ y. do ys ← traverse f l; ok (y ∷ ys)) h in
      let (ys, _, eq) = >>=-eq-ok (traverse f l) (λ ys. ok (y ∷ ys)) rest in
      (y, ap f p ∙ fa, ground (arith, beq_refl y))
  traverse-mem {l = a ∷ l} (Memᴰ.tail m) h =
      let (y, fa, rest) = >>=-eq-ok (f a) (λ y. do ys ← traverse f l; ok (y ∷ ys)) h in
      let (ys, fl, eq) = >>=-eq-ok (traverse f l) (λ ys. ok (y ∷ ys)) rest in
      let (z, fx, held) = traverse-mem {l = l} m fl in (z, fx, ground arith)

module _ (w : Web3) where
  -- A root and a proof are built for every leaf of a tree whose leaves can be encoded, and the
  -- proof leads from the leaf's hash to that root.
  pub build_proof-verifies :
      (leaves : List ScoreLeaf) (target : ScoreLeaf) {hashes : List Bytes}
      → Memᴰ target leaves
      → traverse (leaf_hash w) leaves ≡ ok hashes
      → (root : Bytes) × (leaf : Bytes) × (proof : List Bytes) × (build_merkle_root w leaves
          ≡ ok (root, sorted bytes_le hashes))
        × (leaf_hash w target ≡ ok leaf)
        × (build_proof w leaves target ≡ ok proof)
        × (process_proof w leaf proof ≡ root)
  unfolding build_merkle_root build_proof
  build_proof-verifies [] target m h = elim m [ ]
  build_proof-verifies (first ∷ rest) target {hashes} m h =
      let (leaf, hash, held) = traverse-mem (leaf_hash w) m h in
      let hashed = sorted bytes_le hashes in
      let found : contains leaf hashed ≡ true = rw contains-sorted held in
      let (proof, loop, top) =
        proof_loop-Leads w (length hashed) hashed (index_of leaf hashed) leaf [] (omega arith)
          (index_of-contains leaf hashed found) in
      (
        process_proof w leaf proof,
        leaf,
        proof,
        rw (h, build_merkle_root) (rw top),
        hash,
        rw (hash, h, build_proof) (rw found loop),
        refl,
      )

  -- A target that hashes to none of the leaves' hashes has no proof.
  build_proof-absent :
      (leaves : List ScoreLeaf) (target : ScoreLeaf) {hashes : List Bytes} {leaf : Bytes}
      → traverse (leaf_hash w) leaves ≡ ok hashes
      → leaf_hash w target ≡ ok leaf
      → contains leaf hashes ≡ false
      → build_proof w leaves target ≡ raise value_error
  unfolding build_proof
  build_proof-absent leaves target {hashes} {leaf} h hash absent =
      let none_there : contains leaf (sorted bytes_le hashes) ≡ false = rw contains-sorted absent in
      rw (hash, h, build_proof) (rw none_there)
