-- ===== src/Gateway/Listing.antt =====
-- What `miners` of gateway/src/basedai_gateway/indexer.py lists: whom it lists, and in which order.
use based_ai.Prelude.{
  ◌≡◌, refl, Bool, false, not, ◌&&◌, ◌||◌, Option, none, some, List, [], ◌∷◌, arith, inl, inr, any,
  contains, Bool-cases,
}
use based_ai.Prelude.Eq.{◌==◌, nat_eq, int_eq, list_eq, pair_eq, list_beq_iff, beq_refl}
use based_ai.Prelude.Int.{ℤ}
use based_ai.Prelude.Text.{Str}
use based_ai.Prelude.Sort.{TotalOrder, IsSorted, sorted, insert, sorted-IsSorted}
use based_ai.Prelude.Dict.{lookup}
use based_ai.Gateway.{
  MemberIndex, Endpoint, Listed, members_of, is_stale, list_one, list_loop, best_first, miners,
}

best_first-TotalOrder : TotalOrder best_first
best_first-TotalOrder = record { total = λ a b h. ground arith; trans = λ a b c h k. ground arith }

-- The lines of a listing that say exactly this.
abbrev pub says : Str → Str → ℤ → Listed → Bool
says address url score l = l.address == address && l.url == url && l.score == score

any-insert :
    {A : Type 0} (le : A → A → Bool) (p : A → Bool) (x : A) (l : List A)
    → any p (insert le x l) ≡ (p x || any p l)
unfolding insert
any-insert le p x [] = refl
any-insert le p x (y ∷ l) = ground (arith, any-insert le p x l)

any-sorted :
    {A : Type 0} (le : A → A → Bool) (p : A → Bool) (l : List A) → any p (sorted le l) ≡ any p l
unfolding sorted
any-sorted le p [] = refl
any-sorted le p (x ∷ l) = ground (arith, any-insert le p x (sorted le l), any-sorted le p l)

module _ (x : MemberIndex) (b : ℤ) (now : Option ℤ) where
  -- The endpoint is fresh, and is the one that a line gives.
  abbrev pub offers : Str → ℤ → Option Endpoint → Bool
  offers url score none = false
  offers url score (some ep) = not (is_stale x.ttl now ep.ts) && ep.url == url && ep.score == score

  list_one-says :
      (address url a : Str) (score : ℤ) (o : Option Endpoint) (rest : List Listed)
      → any (says address url score) (list_one x.ttl now a o rest)
        ≡ (a == address && offers url score o || any (says address url score) rest)
  list_one-says address url a score none rest = ground arith
  list_one-says address url a score (some ep) rest = ground arith

  list_loop-says :
      (address url : Str) (score : ℤ) (addrs : List Str)
      → any (says address url score) (list_loop x b now addrs)
        ≡ (contains address addrs && offers url score (lookup (b, address) x.endpoints))
  unfolding list_loop
  list_loop-says address url score [] = refl
  list_loop-says address url score (a ∷ addrs) =
      let one =
        list_one-says address url a score (lookup (b, a) x.endpoints) (list_loop x b now addrs) in
      elim (Bool-cases (a == address)) [
        | inl same ↦
            rw (one, list_loop-says address url score addrs)
              (rw ((list_beq_iff a address).0 same) (ground (arith, beq_refl address)))
        | inr other ↦ rw (one, list_loop-says address url score addrs) (rw other refl)
      ]

  -- `miners` lists an address with a URL and a score exactly when it is a miner of the Brain with a
  -- fresh announcement that gives this URL and score; and the scores of the list do not increase.
  pub miners-says :
      (address url : Str) (score : ℤ)
      → (any (says address url score) (miners b now x) ≡ (
          contains address (members_of b x.miners)
          && offers url score (lookup (b, address) x.endpoints)))
        × IsSorted best_first (miners b now x)
  unfolding miners
  miners-says address url score = (
    rw (any-sorted best_first (says address url score) (list_loop x b now (members_of b x.miners)))
        (list_loop-says address url score (members_of b x.miners)),
    sorted-IsSorted best_first best_first-TotalOrder (list_loop x b now (members_of b x.miners)),
  )
