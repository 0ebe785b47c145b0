-- ===== src/Tests/Commitments.antt =====
-- The theorems on commitments and their aggregator, at concrete commitments.
use based_ai.Prelude.{◌≡◌, refl, List, [], ◌∷◌, Option, some, none, false, true, All, drop}
use based_ai.Prelude.Eq.{list_eq, nat_eq, ◌==◌, int_eq, pair_eq}
use based_ai.Prelude.Int.{pos}
use based_ai.Prelude.Result.{ok}
use based_ai.Prelude.Text.{Str, Bytes, codes, lower, from_hex, to_hex}
use based_ai.Prelude.Json.{str}
use based_ai.Prelude.Dict.{lookup, put}
use based_ai.Prelude.Sort.{sorted}
use based_ai.Commitment.{
  Root, raw, hex, hex_root, as_root_bytes, normalize_root, commitment_digest, sign_commitment,
  recover_commitment_signer,
}
use based_ai.Aggregator.{
  Aggregator, Propose, add_commitment, best_root, quorum_met, backing_stake, submit, try_propose,
  roots_of,
}
use based_ai.Aggregator.Signatures.{AllAuthentic, add_commitment-AllAuthentic}
use based_ai.Aggregator.Best.{HasEntry}
use based_ai.Aggregator.Quorate.{IsReadable, IsSubmitted, try_propose-IsSubmitted}
use based_ai.Aggregator.Proposals.{
  IsProposed, try_propose-IsProposed, Call, commit, propose, submissions, IsFinal,
  submissions-IsFinal,
}
use based_ai.Quorum.{needed}
use based_ai.Tests.World.{world, ann, bob, account_of, stakes}

abbrev root_bytes : Bytes
root_bytes =
    1 ∷ 2 ∷ 3 ∷ 4 ∷ 5 ∷ 6 ∷ 7 ∷ 8 ∷ 1 ∷ 2 ∷ 3 ∷ 4 ∷ 5 ∷ 6 ∷ 7 ∷ 8 ∷ 1 ∷ 2 ∷ 3 ∷ 4 ∷ 5 ∷ 6 ∷ 7 ∷ 8
    ∷ 1 ∷ 2 ∷ 3 ∷ 4 ∷ 5 ∷ 6 ∷ 7 ∷ 255 ∷ []

abbrev registry : Str
registry = codes "0xc3"

abbrev the_root : Root
the_root = hex (hex_root root_bytes)

ann_signed :
    sign_commitment world (pos 1) registry (pos 3) (pos 7) (raw root_bytes) (account_of ann)
    ≡ ok ann
unfolding sign_commitment commitment_digest as_root_bytes
ann_signed = refl

abbrev empty : Aggregator
empty = record {
  chain_id = pos 1;
  scoring_registry = registry;
  min_quorum_bps = 5001;
  pending = [];
  proposed = [];
}

empty-AllAuthentic : AllAuthentic world empty
unfolding lookup
empty-AllAuthentic = record { at = λ key signer signature found. cc }

-- Ann has committed to the root.
abbrev committed : Aggregator
committed = (add_commitment world (pos 3) (pos 7) the_root ann ann empty).1

add_commitment-AllAuthentic_example : AllAuthentic world committed
add_commitment-AllAuthentic_example =
    add_commitment-AllAuthentic world (pos 3) (pos 7) the_root ann ann empty empty-AllAuthentic

recovers_ann :
    recover_commitment_signer world (pos 1) registry (pos 3) (pos 7) the_root (str ann) ≡ ok ann
unfolding recover_commitment_signer commitment_digest as_root_bytes from_hex to_hex
recovers_ann = refl

ann_is_not_bob : (lower ann == lower bob) ≡ false
unfolding lower
ann_is_not_bob = refl

abbrev text_or_empty : Option Str → Str
text_or_empty none = []
text_or_empty (some s) = s

abbrev best : Str
best = text_or_empty (best_root stakes (pos 3) (pos 7) committed)

best_there : best_root stakes (pos 3) (pos 7) committed ≡ some best
unfolding best_root add_commitment recover_commitment_signer commitment_digest from_hex to_hex lower
    put
best_there = refl

best_entry : HasEntry stakes (pos 3) (pos 7) committed best
unfolding lookup best_root add_commitment recover_commitment_signer commitment_digest from_hex
    to_hex lower put normalize_root
best_entry = refl

abbrev send : Propose
send epoch brain root signers signatures = ok (codes "0xdd")

abbrev proposed : Aggregator
proposed = (try_propose stakes send (pos 3) (pos 7) committed).1

sends : try_propose stakes send (pos 3) (pos 7) committed ≡ (ok (some (codes "0xdd")), proposed)
unfolding try_propose add_commitment recover_commitment_signer commitment_digest from_hex to_hex
    lower best_root put quorum_met needed backing_stake lookup normalize_root submit sorted
sends = refl

try_propose-IsProposed_example :
    IsProposed stakes (pos 3) (pos 7) committed send (codes "0xdd") proposed
try_propose-IsProposed_example =
    try_propose-IsProposed stakes (pos 3) (pos 7) committed send {tx = codes "0xdd"}
      {agg' = proposed} sends

abbrev calls : List Call
calls =
    commit (pos 3) (pos 7) the_root ann ann
    ∷ propose stakes send (pos 3) (pos 7)
    ∷ propose stakes send (pos 3) (pos 7)
    ∷ []

submissions-IsFinal_example : IsFinal (submissions world calls empty)
submissions-IsFinal_example = submissions-IsFinal world calls empty

-- Ann's signature under a root, as the aggregator keeps it.
abbrev held : Aggregator
held = record empty { pending = ((pos 3, (pos 7, codes "0xab")), (ann, codes "0xaa") ∷ []) ∷ [] }

held_entry : HasEntry stakes (pos 3) (pos 7) held (codes "0xab")
unfolding lookup
held_entry = refl

held_quorum : quorum_met stakes (pos 3) (pos 7) (hex (codes "0xab")) held ≡ true
unfolding quorum_met needed backing_stake lookup normalize_root lower
held_quorum = refl

held-IsReadable : All IsReadable (roots_of (pos 3) (pos 7) held.pending)
unfolding roots_of from_hex
held-IsReadable = ((171 ∷ [], refl), tt)

try_propose-IsSubmitted_example : IsSubmitted stakes send (pos 3) (pos 7) held (codes "0xab")
try_propose-IsSubmitted_example =
    try_propose-IsSubmitted stakes send (pos 3) (pos 7) held (codes "0xab") refl held_entry
      held_quorum held-IsReadable

-- A root that is kept without the prefix loses its first byte.
short_root : from_hex (drop 2 (codes "abcd")) ≡ some (205 ∷ [])
unfolding from_hex
short_root = refl
