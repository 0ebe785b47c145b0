-- ===== src/Gateway/Rate.antt =====
-- How many requests of one client the middleware `rate_limit_mw` of
-- gateway/src/basedai_gateway/server.py lets pass.
use based_ai.Prelude.{
  ℕ, ◌⊎◌, ◌<◌, true, ◌+◌, ◌-◌, ◌≤◌, ◌≡◌, ◌∙◌, refl, false, not, ◌&&◌, List, [], ◌∷◌, arith, inl,
  inr, All, leb, Bool-cases, if◌then◌else◌,
}
use based_ai.Prelude.Eq.{◌==◌, nat_eq, list_eq, list_beq_iff, beq_refl}
use based_ai.Prelude.Int.{ℤ, ◌-ℤ◌, leb_ℤ}
use based_ai.Prelude.Text.{Str}
use based_ai.Prelude.Dict.{put, lookup-put}
use based_ai.Gateway.Server.{Hits, slot_of, rate_limit_mw, limited}

-- A request: its client and its time.
abbrev pub Request : Type 0
Request = Str × ℤ

-- One more request of this client passes: its window is over, or holds fewer than the limit.
abbrev pub HasRoom : ℤ → ℕ → Str → ℤ → Hits → Type 0
HasRoom window limit ip now hits =
    (leb_ℤ window (now -ℤ (slot_of ip hits).0) ≡ true) ⊎ ((slot_of ip hits).1 < limit)

-- The middleware hands such a request to the handler.
pub limited-HasRoom {ℓ} :
    {A : Type ℓ} (window : ℤ) (limit : ℕ) (ip : Str) (now : ℤ) (hits : Hits) (refused handled : A)
    → HasRoom window limit ip now hits
    → (limited window limit ip now hits refused handled).0 ≡ handled
unfolding limited rate_limit_mw
limited-HasRoom window limit ip now hits refused handled (inl over) = rw over refl
limited-HasRoom window limit ip now hits refused handled (inr room) =
    let open_still : leb limit (slot_of ip hits).1 ≡ false = ground arith in
    elim (Bool-cases (leb_ℤ window (now -ℤ (slot_of ip hits).0))) [
      | inl over ↦ rw over refl
      | inr on ↦ rw on (rw open_still refl)
    ]

module _ (window : ℤ) (limit : ℕ) (ip : Str) where
  -- How many of this client's requests pass, in a sequence of requests of all clients.
  unfoldable pub passed : List Request → Hits → ℕ
  passed [] hits = 0
  passed ((client, now) ∷ requests) hits =
      let (passes, after) = rate_limit_mw window limit client now hits in
      (if client == ip && passes then 1 else 0) + passed requests after

  -- The request comes before the window that started at `win` is over, if it is this client's.
  abbrev pub IsWithin : ℤ → Request → Type 0
  IsWithin win r = (r.0 == ip && leb_ℤ window (r.1 -ℤ win)) ≡ false

  slot_of-put :
      (client : Str) (slot : ℤ × ℕ) (hits : Hits)
      → slot_of ip (put client slot hits) ≡ (if client == ip then slot else slot_of ip hits)
  unfolding slot_of
  slot_of-put client slot hits = ground (arith, lookup-put client ip slot hits)

  slot_of-others :
      (client : Str) (now : ℤ) (hits : Hits)
      → (client == ip) ≡ false
      → slot_of ip (rate_limit_mw window limit client now hits).1 ≡ slot_of ip hits
  unfolding rate_limit_mw
  slot_of-others client now hits other =
      elim (Bool-cases (leb_ℤ window (now -ℤ (slot_of client hits).0))) [
        | inl over ↦ rw (over, rate_limit_mw) (rw slot_of-put (rw other refl))
        | inr on ↦ elim (Bool-cases (leb limit (slot_of client hits).1)) [
          | inl full ↦ rw (on, rate_limit_mw) (rw full (rw slot_of-put (rw other refl)))
          | inr room ↦ rw (on, rate_limit_mw) (rw room (rw slot_of-put (rw other refl)))
        ]
      ]

  -- A request in the client's window passes when there is room, and is counted.
  within-rate_limit_mw :
      (now : ℤ) (hits : Hits) (win : ℤ) (count : ℕ)
      → slot_of ip hits ≡ (win, count)
      → leb_ℤ window (now -ℤ win) ≡ false
      → ((rate_limit_mw window limit ip now hits).0 ≡ not (leb limit count))
        × (slot_of ip (rate_limit_mw window limit ip now hits).1
            ≡ (win, if leb limit count then count else count + 1))
  unfolding rate_limit_mw
  within-rate_limit_mw now hits win count here on =
      rw (here, rate_limit_mw)
        (rw on (elim (Bool-cases (leb limit count)) [
          | inl full ↦ rw full (refl, rw slot_of-put (rw (beq_refl ip) refl))
          | inr room ↦ rw room (refl, rw slot_of-put (rw (beq_refl ip) refl))
        ]))

  passed-own :
      (now : ℤ) (requests : List Request) (hits : Hits) (win : ℤ) (count : ℕ)
      → slot_of ip hits ≡ (win, count)
      → leb_ℤ window (now -ℤ win) ≡ false
      → passed requests (rate_limit_mw window limit ip now hits).1
        ≤ limit - (if leb limit count then count else count + 1)
      → passed ((ip, now) ∷ requests) hits ≤ limit - count
  unfolding passed
  passed-own now requests hits win count here on rest =
      let (passes, slot) = within-rate_limit_mw now hits win count here on in
      rw (beq_refl ip, passes) (ground arith)

  -- While the window that the client's count belongs to lasts, at most `limit` less that count of
  -- its requests pass, whatever the other clients do in between.
  pub passed-le :
      (requests : List Request) (hits : Hits) (win : ℤ) (count : ℕ)
      → slot_of ip hits ≡ (win, count)
      → All (IsWithin win) requests
      → passed requests hits ≤ limit - count
  unfolding passed
  passed-le [] hits win count here within = omega arith
  passed-le ((client, now) ∷ requests) hits win count here (first, rest) =
      elim (Bool-cases (client == ip)) [
        | inr other ↦
            let slot = slot_of-others client now hits other in
            let later =
              passed-le requests (rate_limit_mw window limit client now hits).1 win count
                (slot ∙ here) rest in
            rw other (omega (arith, later))
        | inl same ↦
            let on = rw same at first in
            let (passes, slot) = within-rate_limit_mw now hits win count here on in
            rw ((list_beq_iff client ip).0 same) (
              passed-own now requests hits win count here on
                (passed-le requests (rate_limit_mw window limit ip now hits).1 win _ slot rest))
      ]
