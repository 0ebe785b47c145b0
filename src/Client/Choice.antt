-- ===== src/Client/Choice.antt =====
-- The miner that `infer` of client/python/basedai_client/client.py asks, out of what the gateway lists.
use based_ai.Prelude.{
  ℕ, ◌≡◌, refl, ap, false, Option, none, some, List, [], ◌∷◌, map, arith, All, nat_beq,
  if◌then◌else◌, Bool-cases, inl, inr,
}
use based_ai.Prelude.Int.{ℤ, pos, ◌≤ℤ◌, ltb_ℤ}
use based_ai.Prelude.Text.{Str}
use based_ai.Prelude.Sort.{IsSorted, IsBelow}
use based_ai.Gateway.{MemberIndex, Listed, best_first, miners}
use based_ai.Gateway.Listing.{miners-says}

-- What the client reads of a listed miner; the score may be missing.
pub record Offer : Type 0 where
  pub address : Str
  pub score : Option ℤ

abbrev pub score_or_zero : Option ℤ → ℤ
score_or_zero none = pos 0
score_or_zero (some n) = n

abbrev pub key_of : Offer → ℤ
key_of o = score_or_zero o.score

-- `max(miners, key=lambda m: m.get("score", 0))`: the first of the greatest
unfoldable pub best_offer : Offer → List Offer → Offer
best_offer best [] = best
best_offer best (o ∷ offers) =
    best_offer (if ltb_ℤ (key_of best) (key_of o) then o else best) offers

-- `_list_miners`: nothing where the status is not 200
unfoldable pub list_miners : ℕ → List Offer → List Offer
list_miners status offers = if nat_beq status 200 then offers else []

-- The miner that is asked, or `none` where `infer` raises.
unfoldable pub choose_miner : List Offer → Option Offer
unfolding best_offer
choose_miner [] = none
choose_miner (o ∷ offers) = some (best_offer o offers)

abbrev pub offer_of : Listed → Offer
offer_of l = record { address = l.address; score = some l.score }

abbrev pub first_of : List Offer → Option Offer
first_of [] = none
first_of (o ∷ offers) = some o

-- None of these has a greater score.
abbrev Tops : Offer → List Offer → Type 0
Tops best = All (λ o. key_of o ≤ℤ key_of best)

best_offer-first :
    (best : Offer) (offers : List Offer) → Tops best offers → best_offer best offers ≡ best
unfolding best_offer
best_offer-first best [] top = refl
best_offer-first best (o ∷ offers) (under, top) =
    let kept : ltb_ℤ (key_of best) (key_of o) ≡ false = ground arith in
    rw kept (best_offer-first best offers top)

Tops-IsBelow :
    (l : Listed) (rest : List Listed)
    → IsBelow best_first l rest
    → Tops (offer_of l) (map offer_of rest)
Tops-IsBelow l [] below = tt
Tops-IsBelow l (r ∷ rest) (under, below) = (ground arith, Tops-IsBelow l rest below)

choose_miner-sorted :
    (listed : List Listed)
    → IsSorted best_first listed
    → choose_miner (map offer_of listed) ≡ first_of (map offer_of listed)
unfolding choose_miner
choose_miner-sorted [] sorted = refl
choose_miner-sorted (l ∷ rest) (below, sorted) =
    ap some (best_offer-first (offer_of l) (map offer_of rest) (Tops-IsBelow l rest below))

-- The client asks the first miner that the gateway lists, whose score none exceeds; it asks none
-- where nothing is listed or the status is not 200.
pub choose_miner-miners :
    (status : ℕ) (x : MemberIndex) (brain_id : ℤ) (now : Option ℤ)
    → choose_miner (list_miners status (map offer_of (miners brain_id now x)))
      ≡ (if nat_beq status 200 then first_of (map offer_of (miners brain_id now x)) else none)
unfolding list_miners choose_miner
choose_miner-miners status x brain_id now = elim (Bool-cases (nat_beq status 200)) [
  | inl fine ↦
      rw fine
        (choose_miner-sorted (miners brain_id now x) (miners-says x brain_id now [] [] (pos 0)).1)
  | inr failed ↦ rw failed refl
]
