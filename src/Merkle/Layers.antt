-- ===== src/Merkle/Layers.antt =====
-- One step of the loops: how a layer, its length and the sibling of an index relate to the next.
use Prim.Native.Nat.{bit_xor, digits, differ, bit_xor-bitwise}
use based_ai.Prelude.{
  ℕ, zero, suc, ◌+◌, ◌*◌, ◌/◌, ◌%◌, ◌≤◌, ◌≡◌, refl, ap, some, List, [], ◌∷◌, arith, length,
  get_elem?,
}
use mathlib.Core.Option.{some-injective}
use based_ai.Prelude.Text.{Bytes}
use based_ai.Web3.{Web3}
use based_ai.Merkle.{pad, pair_up, pair_hash, next_layer}
use based_ai.Merkle.Order.{pair_hash_comm}

abbrev xor_digits : ℕ → ℕ → ℕ → ℕ
xor_digits = digits (λ b. b) differ

differ-zero : (n : ℕ) → differ n 0 ≡ n
differ-zero zero = refl
differ-zero (suc n) = refl

xor_digits-zero : (n a : ℕ) → a ≤ n → xor_digits n a 0 ≡ a
xor_digits-zero zero zero h = refl
xor_digits-zero zero (suc a) h = absurd (omega arith)
xor_digits-zero (suc n) zero h = refl
xor_digits-zero (suc n) (suc a) h =
    omega (arith, xor_digits-zero n (suc a / 2) (omega arith), differ-zero (suc a % 2))

-- `i ^ 1` is the other index of the pair that holds `i`.
pub bit_xor-one : (i : ℕ) → bit_xor i 1 ≡ i / 2 * 2 + differ (i % 2) 1
bit_xor-one zero = refl
bit_xor-one (suc i) =
    omega (arith, bit_xor-bitwise (suc i) 1, xor_digits-zero i (suc i / 2) (omega arith))

pub sibling_shift : (i : ℕ) → bit_xor (suc (suc i)) 1 ≡ suc (suc (bit_xor i 1))
sibling_shift i =
    let same : suc (suc i) % 2 ≡ i % 2 = omega arith in
    omega (arith, bit_xor-one i, bit_xor-one (suc (suc i)), ap (λ (r : ℕ). differ r 1) same)

pub pad-cons_cons : (a b : Bytes) (r : List Bytes) → pad (a ∷ b ∷ r) ≡ a ∷ b ∷ pad r
unfolding pad
pad-cons_cons a b [] = refl
pad-cons_cons a b (c ∷ r) = ground arith

module _ (w : Web3) where
  pub next_layer-cons_cons :
      (a b : Bytes) (r : List Bytes) → next_layer w (a ∷ b ∷ r) ≡ pair_hash w a b ∷ next_layer w r
  unfolding next_layer
  next_layer-cons_cons a b r = ap (pair_up w) (pad-cons_cons a b r)

  -- The next layer has half as many hashes, rounded up.
  pub length-next_layer : (l : List Bytes) → length (next_layer w l) * 2 ≡ length l + length l % 2
  length-next_layer [] = unfold next_layer in refl
  length-next_layer (a ∷ []) = unfold next_layer in refl
  length-next_layer (a ∷ b ∷ r) =
      omega (arith, ap (length {A = Bytes}) (next_layer-cons_cons a b r), length-next_layer r)

  -- The hash that stands beside index `i`, and the hash of both, which their parent holds.
  abbrev pub Parent : List Bytes → ℕ → Bytes → Type 0
  Parent l i x =
      (s : Bytes) × (get_elem? (pad l) (bit_xor i 1) ≡ some s)
      × (get_elem? (next_layer w l) (i / 2) ≡ some (pair_hash w x s))

  -- In the layer, `x` at index `i` has a sibling, and the next layer holds their hash.
  pub Parent-of : (l : List Bytes) (i : ℕ) (x : Bytes) → get_elem? l i ≡ some x → Parent l i x
  Parent-of [] i x h = cc
  Parent-of (a ∷ []) zero x h = (
    a,
    unfold pad in refl,
    unfold next_layer in ap (λ y. some (pair_hash w y a)) (some-injective a x h),
  )
  Parent-of (a ∷ []) (suc i) x h = cc
  Parent-of (a ∷ b ∷ r) zero x h = (
    b,
    rw pad-cons_cons,
    rw next_layer-cons_cons (ap (λ y. some (pair_hash w y b)) (some-injective a x h)),
  )
  Parent-of (a ∷ b ∷ r) (suc zero) x h =
      (a, rw pad-cons_cons, rw next_layer-cons_cons (cc (pair_hash_comm w a b)))
  Parent-of (a ∷ b ∷ r) (suc (suc i)) x h =
      let (s, at, up) = Parent-of r i x h in
      let half : suc (suc i) / 2 ≡ suc (i / 2) = omega arith in
      (s, rw (pad-cons_cons, sibling_shift) at, rw (next_layer-cons_cons, half) up)
