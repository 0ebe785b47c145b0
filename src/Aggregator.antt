-- ===== src/Aggregator.antt =====
-- `CommitmentAggregator` of validator/src/basedai_validator/aggregator.py. A method returns what
-- the call returned or raised beside the state that it left; the logging is left out.
pub mod Signatures
pub mod Proposals
pub mod Best
pub mod Quorate
pub mod Onchain
use based_ai.Prelude.{
  ℕ, zero, suc, ◌+◌, Bool, true, false, not, ◌&&◌, ◌||◌, Option, none, some, List, [], ◌∷◌, ◌++◌,
  map, leb, nat_beq, if◌then◌else◌, drop, contains,
}
use based_ai.Prelude.Eq.{◌==◌, nat_eq, int_eq, list_eq, pair_eq}
use based_ai.Prelude.Int.{ℤ}
use based_ai.Prelude.Result.{Result, ok, raise, value_error, key_error, ◌>>=◌, or_raise, traverse}
use based_ai.Prelude.Text.{Str, Bytes, lower, with_0x, from_hex, address_value}
use based_ai.Prelude.Sort.{sorted}
use based_ai.Prelude.Json.{Json}
use based_ai.Prelude.Choose.{choose}
use based_ai.Prelude.Dict.{Dict, lookup, put, keys}
use based_ai.Web3.{Web3}
use based_ai.Commitment.{Root, hex, normalize_root, recover_commitment_signer}
use based_ai.Quorum.{Stakes, needed, stake_sum}

-- (epoch, (brain, normalized root))
abbrev pub Key : Type 0
Key = ℤ × (ℤ × Str)

-- signer address -> signature
abbrev pub Signers : Type 0
Signers = Dict Str Str

pub record Aggregator : Type 0 where
  pub chain_id : ℤ
  pub scoring_registry : Str
  pub min_quorum_bps : ℕ
  pub pending : Dict Key Signers
  pub proposed : List (ℤ × ℤ)

abbrev pub or_empty : Option Signers → Signers
or_empty none = []
or_empty (some signers) = signers

-- `self._pending.get(key, {})`
abbrev pub signers_at : Aggregator → Key → Signers
signers_at agg key = or_empty (lookup key agg.pending)

-- `self._pending.setdefault(key, {})[signer] = signature`
abbrev pub store : Key → Str → Str → Aggregator → Aggregator
store key signer signature agg = record agg {
  pending = put key (put signer signature (signers_at agg key)) agg.pending;
}

-- The `setdefault` runs before the subscript's `to_checksum_address`, which may raise.
unfoldable pub store_recovered : Web3 → Key → Str → Str → Aggregator → Result Bool × Aggregator
store_recovered w key recovered signature agg = elim (w.to_checksum_address (Json.str recovered)) [
  | ok signer ↦ (ok true, store key signer (with_0x signature) agg)
  | raise e ↦ (raise e, record agg { pending = put key (signers_at agg key) agg.pending })
]

module _ (w : Web3) where
  unfoldable pub add_commitment : ℤ → ℤ → Root → Str → Str → Aggregator → Result Bool × Aggregator
  unfolding store_recovered
  add_commitment epoch brain_id root signer signature agg =
      elim (recover_commitment_signer w agg.chain_id agg.scoring_registry epoch brain_id root
        (Json.str signature)) [
          | raise e ↦ (raise e, agg)
          | ok recovered ↦
              if not (lower recovered == lower signer)
              then (ok false, agg)
              else store_recovered w (epoch, (brain_id, normalize_root root)) recovered signature
                  agg
        ]

-- the comprehension of `best_root`
unfoldable pub roots_of : ℤ → ℤ → Dict Key Signers → List Str
roots_of epoch brain_id [] = []
roots_of epoch brain_id (((e, (b, r)), _) ∷ pending) =
    let rest = roots_of epoch brain_id pending in
    if e == epoch && b == brain_id then r ∷ rest else rest

module _ (st : Stakes) where
  unfoldable pub backing_stake : ℤ → ℤ → Root → Aggregator → ℕ
  backing_stake epoch brain_id root agg =
      stake_sum st brain_id (keys (signers_at agg (epoch, (brain_id, normalize_root root))))

  unfoldable pub quorum_met : ℤ → ℤ → Root → Aggregator → Bool
  quorum_met epoch brain_id root agg =
      let total = st.total_stake brain_id in
      if nat_beq total 0
      then false
      else leb (needed total agg.min_quorum_bps) (backing_stake epoch brain_id root agg)

  unfoldable pub best_root : ℤ → ℤ → Aggregator → Option Str
  unfolding roots_of choose
  best_root epoch brain_id agg =
      choose (λ r. backing_stake epoch brain_id (hex r) agg) (roots_of epoch brain_id agg.pending)

-- The order of `sorted(signers.keys(), key=lambda a: int(a, 16))`.
abbrev pub address_le : Str → Str → Bool
address_le a b = leb (address_value a) (address_value b)

-- `[signers[a] for a in ordered]`
abbrev pub signature_of : Signers → Str → Result Str
signature_of signers a = or_raise key_error (lookup a signers)

unfoldable pub assemble : ℤ → ℤ → Root → Aggregator → Result (List Str × List Str)
assemble epoch brain_id root agg =
    let signers = signers_at agg (epoch, (brain_id, normalize_root root)) in
    let ordered = sorted address_le (keys signers) in
    (do signatures ← traverse (signature_of signers) ordered; ok (ordered, signatures))

-- `propose_fn(epoch, brain_id, root_bytes, signers, signatures)`: the hash of the transaction that
-- was sent, or what the call raised.
abbrev pub Propose : Type 0
Propose = ℤ → ℤ → Bytes → List Str → List Str → Result Str

-- The submission of the root that has been chosen.
unfoldable pub submit : Propose → ℤ → ℤ → Str → Aggregator → Result Str
unfolding assemble
submit propose epoch brain_id root agg = do
  (signers, signatures) ← assemble epoch brain_id (hex root) agg
  root_bytes ← or_raise value_error (from_hex (drop 2 root))
  propose epoch brain_id root_bytes signers signatures

abbrev pub record_proposal : ℤ × ℤ → Result Str → Aggregator → Result (Option Str) × Aggregator
record_proposal key (raise e) agg = (raise e, agg)
record_proposal key (ok tx) agg = (ok (some tx), record agg { proposed = key ∷ agg.proposed })

unfoldable pub try_propose :
    Stakes → Propose → ℤ → ℤ → Aggregator → Result (Option Str) × Aggregator
try_propose st propose epoch brain_id agg =
    if contains (epoch, brain_id) agg.proposed
    then (ok none, agg)
    else elim (best_root st epoch brain_id agg) [
      | none ↦ (ok none, agg)
      | some root ↦
          if not (quorum_met st epoch brain_id (hex root) agg)
          then (ok none, agg)
          else record_proposal (epoch, brain_id) (submit propose epoch brain_id root agg) agg
    ]
