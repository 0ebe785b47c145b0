-- ===== src/Gateway/Poller/Rewind.antt =====
-- How far a poll goes back, and the hashes that it stores.
use based_ai.Prelude.{
  ℕ, zero, suc, ◌+◌, ◌≤◌, ◌<◌, ◌≡◌, refl, ◌&&◌, none, some, [], ◌∷◌, arith, inl, inr, ltb, leb,
  select, Bool-cases, if◌then◌else◌,
}
use based_ai.Prelude.Eq.{◌==◌, nat_eq, list_eq, list_beq_iff}
use based_ai.Prelude.Result.{Result, ok}
use based_ai.Prelude.Text.{Str}
use based_ai.Prelude.Dict.{Dict, lookup, put, lookup-put}
use based_ai.Gateway.Poller.{rewind, hash_range, update, hash_before}
use based_ai.Gateway.Poller.Logs.{Chain}

-- Two chains with one hash at a block are the same up to that block.
pub record Binds (old new : Chain) : Type 0 where
  pub hashes : (n m : ℕ) → old.hash n ≡ new.hash n → m ≤ n → old.hash m ≡ new.hash m
  pub events : (n m : ℕ) → old.hash n ≡ new.hash n → m ≤ n → old.events m ≡ new.events m

-- The stored hashes are the chain's, for the blocks from `b` up to `next`, and no others.
abbrev pub Holds : Chain → ℕ → ℕ → Dict ℕ Str → Type 0
Holds c b next hashes =
    (n : ℕ) → lookup n hashes ≡ (if leb b n && ltb n next then some (c.hash n) else none)

-- The chains have the same blocks from `b` up to `from`.
pub record Agree (old new : Chain) (b from : ℕ) : Type 0 where
  pub hashes : (n : ℕ) → b ≤ n → n < from → old.hash n ≡ new.hash n
  pub events : (n : ℕ) → b ≤ n → n < from → old.events n ≡ new.events n

module _ (old new : Chain) (binds : Binds old new) (block_hash : ℕ → Result Str)
    (serves : (n : ℕ) → block_hash n ≡ ok (new.hash n)) (b next : ℕ) (hashes : Dict ℕ Str)
    (holds : Holds old b next hashes) where
  -- The walk back ends, and below where it ends the chains agree.
  pub rewind-Agree :
      (k : ℕ)
      → k ≤ next
      → (from : ℕ) × (rewind block_hash hashes k ≡ ok from)
        × (from ≤ k)
        × (b ≤ k → b ≤ from)
        × Agree old new b from
  unfolding rewind
  rewind-Agree zero h = (
    zero,
    refl,
    omega arith,
    λ g. g,
    record { hashes = λ n lo hi. absurd (omega arith); events = λ n lo hi. absurd (omega arith) },
  )
  rewind-Agree (suc p) h = elim (Bool-cases (leb b p)) [
    | inr under ↦
        let missing : lookup p hashes ≡ none = ground (arith, holds p) in
        (
          suc p,
          rw (missing, rewind) refl,
          omega arith,
          λ g. g,
          record {
            hashes = λ n lo hi. absurd (ground arith);
            events = λ n lo hi. absurd (ground arith);
          },
        )
    | inl over ↦
        let held : lookup p hashes ≡ some (old.hash p) = ground (arith, holds p) in
        elim (Bool-cases (new.hash p == old.hash p)) [
          | inl same ↦
              let e = (list_beq_iff (new.hash p) (old.hash p)).0 same in
              (
                suc p,
                rw (held, rewind) (rw (serves p) (ground arith)),
                omega arith,
                λ g. g,
                record {
                  hashes = λ n lo hi. binds.hashes p n (cc) (omega arith);
                  events = λ n lo hi. binds.events p n (cc) (omega arith);
                },
              )
          | inr differs ↦
              let (from, found, low, above, agree) = rewind-Agree p (omega arith) in
              (
                from,
                rw (held, rewind) (rw (serves p) (ground arith)),
                omega arith,
                λ g. above (ground arith),
                agree,
              )
        ]
  ]

module _ (c : Chain) (block_hash : ℕ → Result Str)
    (serves : (n : ℕ) → block_hash n ≡ ok (c.hash n)) where
  -- The hashes of the blocks read, laid over stored ones.
  pub hash_range-update :
      (from count : ℕ)
      → (canonical : Dict ℕ Str) × (hash_range block_hash from count ≡ ok canonical)
        × ((n : ℕ) (d : Dict ℕ Str)
            → lookup n (update d canonical)
              ≡ (if leb from n && ltb n (from + count) then some (c.hash n) else lookup n d))
  unfolding hash_range update
  hash_range-update from zero = ([], refl, λ n d. ground arith)
  hash_range-update from (suc count) =
      let (rest, read, found) = hash_range-update (from + 1) count in
      (
        (from, c.hash from) ∷ rest,
        rw (serves from, read) refl,
        λ n d.
            ground (arith, found n (put from (c.hash from) d), lookup-put from n (c.hash from) d),
      )

-- The hashes that a poll keeps.
pub lookup-select :
    (from n : ℕ) (d : Dict ℕ Str)
    → lookup n (select (hash_before from) d) ≡ (if ltb n from then lookup n d else none)
unfolding lookup
lookup-select from n [] = ground arith
lookup-select from n ((k, h) ∷ d) = ground (arith, lookup-select from n d)
