-- ===== src/Aggregator/Quorate.antt =====
-- `try_propose` goes through: what is submitted once some root has the quorum.
use based_ai.Prelude.{
  ◌≤◌, ◌≡◌, refl, true, false, some, List, [], ◌∷◌, arith, All, All-map, All-contains, drop,
  contains, Bool-cases, Option-cases, inl, inr,
}
use based_ai.Prelude.Eq.{◌==◌, nat_eq, int_eq, list_eq, pair_eq, beq_refl}
use based_ai.Prelude.Int.{ℤ}
use based_ai.Prelude.Result.{ok, traverse}
use based_ai.Prelude.Text.{Str, Bytes, from_hex}
use based_ai.Prelude.Sort.{sorted, All-sorted}
use based_ai.Prelude.Dict.{lookup, keys}
use based_ai.Commitment.{hex, normalize_root}
use based_ai.Quorum.{Stakes}
use based_ai.Aggregator.{
  Aggregator, Signers, signers_at, address_le, signature_of, best_root, quorum_met, assemble,
  roots_of, submit, record_proposal, Propose, try_propose,
}
use based_ai.Aggregator.Best.{HasEntry, backing, best_root-max, best_root-none, contains-roots_of}

-- The key of a root, hexadecimal after its first two characters.
abbrev pub IsReadable : Str → Type 0
IsReadable r = (b : Bytes) × (from_hex (drop 2 r) ≡ some b)

IsHeld : Signers → Str → Type 0
IsHeld signers a = (signature : Str) × (lookup a signers ≡ some signature)

IsHeld-later : (j v a : Str) (signers : Signers) → IsHeld signers a → IsHeld ((j, v) ∷ signers) a
unfolding lookup IsHeld
IsHeld-later j v a signers (signature, found) = elim (Bool-cases (j == a)) [
  | inl same ↦ (v, rw same refl)
  | inr other ↦ (signature, rw other found)
]

keys-IsHeld : (signers : Signers) → All (IsHeld signers) (keys signers)
unfolding lookup IsHeld
keys-IsHeld [] = tt
keys-IsHeld ((j, v) ∷ signers) = (
  (v, rw (beq_refl j) refl),
  All-map (IsHeld signers) (IsHeld ((j, v) ∷ signers)) (keys signers)
      (λ a held. IsHeld-later j v a signers held) (keys-IsHeld signers),
)

traverse-IsHeld :
    (signers : Signers) (names : List Str)
    → All (IsHeld signers) names
    → (signatures : List Str) × (traverse (signature_of signers) names ≡ ok signatures)
unfolding IsHeld
traverse-IsHeld signers [] h = ([], refl)
traverse-IsHeld signers (a ∷ names) ((signature, found), h) =
    let (rest, all) = traverse-IsHeld signers names h in (signature ∷ rest, rw found (rw all refl))

-- A root's signers are always assembled.
assemble-ok :
    (epoch brain_id : ℤ) (r : Str) (agg : Aggregator)
    → (p : List Str × List Str) × (assemble epoch brain_id (hex r) agg ≡ ok p)
unfolding assemble
assemble-ok epoch brain_id r agg =
    let signers = signers_at agg (epoch, (brain_id, normalize_root (hex r))) in
    let (signatures, all) =
      traverse-IsHeld signers (sorted address_le (keys signers))
        (All-sorted address_le (IsHeld signers) (keys signers) (keys-IsHeld signers)) in
    ((sorted address_le (keys signers), signatures), rw all refl)

module _ (st : Stakes) (propose : Propose) (epoch brain_id : ℤ) (agg : Aggregator) where
  -- What is submitted: a root with an entry, with its signers, and no less stake than another root.
  pub record IsSubmitted (r : Str) : Type 0 where
    pub root : Str
    pub entry : HasEntry st epoch brain_id agg root
    pub most : backing st epoch brain_id agg r ≤ backing st epoch brain_id agg root
    pub root_bytes : Bytes
    pub decoded : from_hex (drop 2 root) ≡ some root_bytes
    pub signers : List Str
    pub signatures : List Str
    pub assembled : assemble epoch brain_id (hex root) agg ≡ ok (signers, signatures)
    pub result :
        try_propose st propose epoch brain_id agg
        ≡ record_proposal
            (epoch, brain_id)
            (propose epoch brain_id root_bytes signers signatures)
            agg

  quorum_met_mono :
      (r root : Str)
      → quorum_met st epoch brain_id (hex r) agg ≡ true
      → backing st epoch brain_id agg r ≤ backing st epoch brain_id agg root
      → quorum_met st epoch brain_id (hex root) agg ≡ true
  unfolding quorum_met
  quorum_met_mono r root h more = ground arith

  -- Once some root of an epoch and Brain has the quorum, and nothing was proposed for them, a call of
  -- `try_propose` sends the transaction for a root with at least as much stake, where every root that
  -- has an entry is hexadecimal after its first two characters; and it answers and records what the
  -- sending answers.
  pub try_propose-IsSubmitted :
      (r : Str)
      → contains (epoch, brain_id) agg.proposed ≡ false
      → HasEntry st epoch brain_id agg r
      → quorum_met st epoch brain_id (hex r) agg ≡ true
      → All IsReadable (roots_of epoch brain_id agg.pending)
      → IsSubmitted r
  unfolding try_propose submit
  try_propose-IsSubmitted r new held quorum readable =
      elim (Option-cases (best_root st epoch brain_id agg)) [
        | inl absent ↦ absurd (best_root-none st epoch brain_id agg absent r held)
        | inr (root, best) ↦
            let (entry, most) = best_root-max st epoch brain_id agg best in
            let ((signers, signatures), assembled) = assemble-ok epoch brain_id root agg in
            let (root_bytes, decoded) =
              All-contains IsReadable (roots_of epoch brain_id agg.pending) root readable
                (rw contains-roots_of entry) in
            let met = quorum_met_mono r root quorum (most r held) in
            record {
              root = root;
              entry = entry;
              most = most r held;
              root_bytes = root_bytes;
              decoded = decoded;
              signers = signers;
              signatures = signatures;
              assembled = assembled;
              result = rw (new, best) (rw met (rw (assembled, decoded) refl));
            }
      ]
