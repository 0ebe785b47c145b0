-- ===== src/Receipts/Batch.antt =====
-- What the batch holds: one receipt for a user and nonce after a settlement, and after a flush
-- exactly the receipts whose redemption failed.
use based_ai.Prelude.Lists.{select-append}
use mathlib.Core.List.{map, append-nil}
use based_ai.Prelude.{
  ◌≡◌, refl, ap, Bool, true, false, not, List, [], ◌∷◌, select, Bool-cases, inl, inr,
}
use based_ai.Prelude.Eq.{nat_eq, int_eq, list_eq, beq_refl}
use based_ai.Prelude.Result.{Result, ok, raise, Result-cases}
use based_ai.Prelude.Text.{Str, lower}
use based_ai.Prelude.Json.{Json}
use based_ai.Receipts.{
  Receipt, Signed, Batcher, same_slot, add_or_replace, Redeem, flush_loop, flush,
}

-- The receipts of a batch that stand for one user and nonce.
abbrev pub in_slot : Receipt → List Signed → List Signed
in_slot r = select (λ p. same_slot p.0 r)

abbrev pub elsewhere : Receipt → List Signed → List Signed
elsewhere r = select (λ p. not (same_slot p.0 r))

in_slot-elsewhere : (r : Receipt) (l : List Signed) → in_slot r (elsewhere r l) ≡ []
in_slot-elsewhere r [] = refl
in_slot-elsewhere r (p ∷ l) = elim (Bool-cases (same_slot p.0 r)) [
  | inl e ↦ rw e (in_slot-elsewhere r l)
  | inr e ↦ rw e (rw e (in_slot-elsewhere r l))
]

elsewhere-elsewhere : (r : Receipt) (l : List Signed) → elsewhere r (elsewhere r l) ≡ elsewhere r l
elsewhere-elsewhere r [] = refl
elsewhere-elsewhere r (p ∷ l) = elim (Bool-cases (same_slot p.0 r)) [
  | inl e ↦ rw e (elsewhere-elsewhere r l)
  | inr e ↦ rw e (rw e (ap (◌∷◌ p) (elsewhere-elsewhere r l)))
]

same_slot_refl : (r : Receipt) → same_slot r r ≡ true
unfolding same_slot
same_slot_refl r = rw (beq_refl (lower r.user), beq_refl r.nonce)

-- After a settlement the batch holds the settled receipt alone for its user and nonce, and all
-- the receipts for other users and nonces, in their order.
pub add_or_replace-slots :
    (r : Receipt) (signature : Json) (b : Batcher)
    → (in_slot r (add_or_replace r signature b).pending ≡ (r, signature) ∷ [])
      × (elsewhere r (add_or_replace r signature b).pending ≡ elsewhere r b.pending)
unfolding add_or_replace
add_or_replace-slots r signature b = (
  rw (select-append, in_slot-elsewhere r b.pending) (rw (same_slot_refl r)),
  rw (select-append, elsewhere-elsewhere r b.pending) (rw (same_slot_refl r) (append-nil _)),
)

abbrev pub succeeds : Result Str → Bool
succeeds (ok hash) = true
succeeds (raise e) = false

abbrev pub hash_of : Result Str → Str
hash_of (ok hash) = hash
hash_of (raise e) = []

-- A receipt with what its redemption gave.
abbrev pub Attempt : Type 0
Attempt = Signed × Result Str

module _ {S : Type 0} (redeem : Redeem S) where
  -- The redemptions one after the other, each on the node that the one before left.
  pub attempts : List Signed → S → List Attempt
  attempts [] s = []
  attempts (p ∷ pending) s = (p, (redeem p s).0) ∷ attempts pending (redeem p s).1

  -- Every receipt is tried once, in order.
  map-attempts : (pending : List Signed) (s : S) → map (λ a. a.0) (attempts pending s) ≡ pending
  unfolding attempts
  map-attempts [] s = refl
  map-attempts (p ∷ pending) s = ap (◌∷◌ p) (map-attempts pending (redeem p s).1)

  flush_loop_lem :
      (l : List Signed) (s : S)
      → ((flush_loop redeem l s).0.1
          ≡ map (λ a. a.0) (select (λ a. not (succeeds a.1)) (attempts l s)))
        × ((flush_loop redeem l s).0.0
            ≡ map (λ a. hash_of a.1) (select (λ a. succeeds a.1) (attempts l s)))
  unfolding flush_loop attempts
  flush_loop_lem [] s = (refl, refl)
  flush_loop_lem (p ∷ l) s =
      let (kept, sent) = flush_loop_lem l (redeem p s).1 in
      elim (Result-cases (redeem p s).0) [
        | inl (hash, e) ↦ (rw e kept, rw e (ap (◌∷◌ hash) sent))
        | inr (x, e) ↦ (rw e (ap (◌∷◌ p) kept), rw e sent)
      ]

  -- A flush tries every receipt of the batch once, in order, each on the node that the one before
  -- left. It keeps exactly those whose redemption raised then, in their order, and returns the hash
  -- of the transaction of each of the others. A receipt whose redemption raised is kept even where
  -- the node had taken its transaction.
  pub flush_lem :
      (s : S) (b : Batcher)
      → (map (λ a. a.0) (attempts b.pending s) ≡ b.pending)
        × ((flush redeem s b).0.1.pending
            ≡ map (λ a. a.0) (select (λ a. not (succeeds a.1)) (attempts b.pending s)))
        × ((flush redeem s b).0.0
            ≡ map (λ a. hash_of a.1) (select (λ a. succeeds a.1) (attempts b.pending s)))
  unfolding flush
  flush_lem s b =
      let (kept, sent) = flush_loop_lem b.pending s in (map-attempts b.pending s, kept, sent)
