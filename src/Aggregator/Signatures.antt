-- ===== src/Aggregator/Signatures.antt =====
-- Only verified signatures are held: the invariant of `_pending`.
use based_ai.Prelude.{◌≡◌, refl, false, some, arith, if◌then◌else◌, Bool-cases, inl, inr}
use based_ai.Prelude.Eq.{◌==◌, nat_eq, int_eq, list_eq, pair_eq, pair_beq_iff}
use based_ai.Prelude.Int.{ℤ}
use based_ai.Prelude.Result.{ok, Result-cases}
use based_ai.Prelude.Text.{Str, with_0x, lower}
use based_ai.Prelude.Json.{Json}
use based_ai.Prelude.Dict.{lookup, put, lookup-put, lookup-put_cases}
use based_ai.Web3.{Web3}
use based_ai.Commitment.{Root, normalize_root, recover_commitment_signer}
use based_ai.Aggregator.{
  Aggregator, Key, Signers, signers_at, store, store_recovered, add_commitment,
}

-- The call that put a signature there: what it recovered is the signer that it is stored for.
pub record IsAuthentic (w : Web3) (chain_id : ℤ) (registry : Str) (key : Key)
    (signer signature : Str) : Type 0 where
  pub root : Root
  pub given : Str
  pub recovered : Str
  pub same_root : normalize_root root ≡ key.1.1
  pub verified :
      recover_commitment_signer w chain_id registry key.0 key.1.0 root (Json.str given)
      ≡ ok recovered
  pub checksum : w.to_checksum_address (Json.str recovered) ≡ ok signer
  pub prefixed : with_0x given ≡ signature

-- Every signature held for any key is one that was verified for that key.
pub record AllAuthentic (w : Web3) (agg : Aggregator) : Type 0 where
  pub at :
      (key : Key) (signer signature : Str)
      → lookup signer (signers_at agg key) ≡ some signature
      → IsAuthentic w agg.chain_id agg.scoring_registry key signer signature

signers_at-put :
    (agg : Aggregator) (key key' : Key) (signers : Signers)
    → signers_at (record agg { pending = put key signers agg.pending }) key'
      ≡ (if key == key' then signers else signers_at agg key')
signers_at-put agg key key' signers = ground (arith, lookup-put key key' signers agg.pending)

module _ (w : Web3) (agg : Aggregator) (key : Key) where
  -- Storing one more verified signature keeps the invariant.
  store-AllAuthentic :
      (signer signature : Str)
      → IsAuthentic w agg.chain_id agg.scoring_registry key signer signature
      → AllAuthentic w agg
      → AllAuthentic w (store key signer signature agg)
  store-AllAuthentic signer signature new h = record {
    at = λ key' signer' signature' found.
        let found' = rw signers_at-put at found in
        elim (Bool-cases (key == key')) [
          | inr other ↦ h.at key' signer' signature' (rw other at found')
          | inl same ↦
              rw (← (pair_beq_iff key key').0 same)
                (elim (lookup-put_cases signer signer' signature (signers_at agg key)
                  (rw same at found')) [
                    | inl (s, g) ↦ rw (← s, ← g) new
                    | inr old ↦ h.at key signer' signature' old
                  ])
        ];
  }

  touch-AllAuthentic :
      AllAuthentic w agg
      → AllAuthentic w (record agg { pending = put key (signers_at agg key) agg.pending })
  touch-AllAuthentic h = record {
    at = λ key' signer' signature' found.
        let found' = rw signers_at-put at found in
        elim (Bool-cases (key == key')) [
          | inr other ↦ h.at key' signer' signature' (rw other at found')
          | inl same ↦
              rw (← (pair_beq_iff key key').0 same)
                (h.at key signer' signature' (rw same at found'))
        ];
  }

-- `add_commitment` keeps the invariant on every path: it stores nothing that was not verified.
pub add_commitment-AllAuthentic :
    (w : Web3) (epoch brain_id : ℤ) (root : Root) (signer signature : Str) (agg : Aggregator)
    → AllAuthentic w agg
    → AllAuthentic w (add_commitment w epoch brain_id root signer signature agg).1
unfolding add_commitment
add_commitment-AllAuthentic w epoch brain_id root signer signature agg h =
    elim (Result-cases (
      recover_commitment_signer w agg.chain_id agg.scoring_registry epoch brain_id root
        (Json.str signature))) [
          | inr (e, raised) ↦ rw (raised, add_commitment) h
          | inl (recovered, verified) ↦ elim (Bool-cases (lower recovered == lower signer)) [
            | inr differs ↦ rw (verified, add_commitment) (rw differs h)
            | inl matches ↦ elim (Result-cases (w.to_checksum_address (Json.str recovered))) [
              | inr (e, raised) ↦
                  rw (verified, add_commitment)
                    (rw matches (rw (raised, store_recovered) (touch-AllAuthentic w agg key h)))
              | inl (stored, checksum) ↦
                  rw (verified, add_commitment)
                    (rw matches (
                      rw (checksum, store_recovered)
                        (store-AllAuthentic w agg key stored (with_0x signature)
                          (record {
                            root = root;
                            given = signature;
                            recovered = recovered;
                            same_root = refl;
                            verified = verified;
                            checksum = checksum;
                            prefixed = refl;
                          })
                          h)))
            ]
          ]
        ]
  where
    key : Key
    key = (epoch, (brain_id, normalize_root root))

-- A signature that recovers to another address than the claimed one is refused, and changes
-- nothing.
pub add_commitment-forged :
    (w : Web3) (epoch brain_id : ℤ) (root : Root) (signer signature : Str) (agg : Aggregator)
    {recovered : Str}
    → recover_commitment_signer w agg.chain_id agg.scoring_registry epoch brain_id root
        (Json.str signature)
      ≡ ok recovered
    → (lower recovered == lower signer) ≡ false
    → add_commitment w epoch brain_id root signer signature agg ≡ (ok false, agg)
unfolding add_commitment
add_commitment-forged w epoch brain_id root signer signature agg verified differs =
    rw (verified, add_commitment) (rw differs)
