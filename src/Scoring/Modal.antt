-- ===== src/Scoring/Modal.antt =====
-- The modal response of validator/src/basedai_validator/scoring.py, and what agreeing with it means.
use based_ai.Prelude.{
  ◌+◌, ◌*◌, ◌≤◌, ◌<◌, ◌≡◌, refl, ap, ◌∙◌, sym, false, ◌||◌, none, some, List, [], ◌∷◌, ◌++◌, map,
  arith, inl, inr, length, select, contains, All, All-contains, nat_beq, Bool-cases, Option-cases,
}
use mathlib.Core.List.{append_assoc, append-nil}
use based_ai.Prelude.Eq.{◌==◌, nat_eq, list_eq, list_beq_iff}
use based_ai.Prelude.Text.{Str}
use based_ai.Prelude.Dict.{Dict, lookup, put, lookup-put}
use based_ai.Prelude.Choose.{choose-AtMost, choose-none}
use based_ai.Scoring.{
  Floats, consistency_score, Observation, group_by, or_empty, firsts, count, most_common,
  challenge_groups, modal_response, agreement, challenges_of,
}

count-absent : (h : Str) (l : List Str) → contains h l ≡ false → count h l ≡ 0
unfolding count
count-absent h [] a = refl
count-absent h (x ∷ l) a = ground (arith, count-absent h l)

contains-firsts :
    (h : Str) (seen l : List Str)
    → (contains h (firsts seen l) || contains h seen) ≡ (contains h l || contains h seen)
unfolding firsts
contains-firsts h seen [] = refl
contains-firsts h seen (x ∷ l) = ground (arith, contains-firsts h (x ∷ seen) l, list_beq_iff x h)

-- No hash is counted more often than the one that is chosen.
most_common-ge : (l : List Str) {m : Str} (h : Str) → most_common l ≡ some m → count h l ≤ count m l
unfolding most_common
most_common-ge l {m} h chosen =
    let (_, most) = choose-AtMost (λ h. count h l) (firsts [] l) chosen in
    elim (Bool-cases (contains h l)) [
      | inr absent ↦ omega (arith, count-absent h l absent)
      | inl present ↦
          All-contains (λ r. count r l ≤ count m l) (firsts [] l) h most
            (ground (arith, contains-firsts h [] l))
    ]

most_common-none : (l : List Str) (h : Str) → most_common l ≡ none → count h l ≡ 0
unfolding most_common
most_common-none l h nothing =
    let empty = choose-none (λ h. count h l) (firsts [] l) nothing in
    count-absent h l (ground (arith, contains-firsts h [] l, ap (contains h) empty))

count-count : (h m : Str) (l : List Str) → (h == m) ≡ false → count h l + count m l ≤ length l
unfolding count
count-count h m [] d = omega arith
count-count h m (x ∷ l) d =
    ground (arith, count-count h m l d, list_beq_iff x h, list_beq_iff x m, list_beq_iff h m)

-- More than half of the responses are this one.
abbrev pub IsMajority : Str → List Str → Type 0
IsMajority h l = length l < count h l * 2

most_common-majority : (l : List Str) (h : Str) → IsMajority h l → most_common l ≡ some h
most_common-majority l h major = elim (Option-cases (most_common l)) [
  | inl nothing ↦ absurd (omega (arith, most_common-none l h nothing))
  | inr (m, chosen) ↦ elim (Bool-cases (h == m)) [
    | inl same ↦ rw ((list_beq_iff h m).0 same) chosen
    | inr differs ↦ absurd (omega (arith, most_common-ge l h chosen, count-count h m l differs))
  ]
]

-- What a grouping holds under a key.
pub group_by_lem {ℓ} :
    {A : Type ℓ} (key : Observation → Str) (value : Observation → A) (obs : List Observation)
    (groups : Dict Str (List A)) (k : Str)
    → or_empty (lookup k (group_by key value obs groups))
      ≡ or_empty (lookup k groups) ++ map value (select (λ o. key o == k) obs)
unfolding group_by
group_by_lem key value [] groups k = sym (append-nil (or_empty (lookup k groups)))
group_by_lem key value (o ∷ obs) groups k =
    let added = or_empty (lookup (key o) groups) ++ value o ∷ [] in
    group_by_lem key value obs (put (key o) added groups) k ∙ elim (Bool-cases (key o == k)) [
      | inr other ↦ rw (lookup-put (key o) k added groups) (rw other refl)
      | inl same ↦ rw (lookup-put (key o) k added groups) (
          rw same (
            rw ((list_beq_iff (key o) k).0 same) (
              append_assoc (or_empty (lookup k groups)) (value o ∷ [])
                (map value (select (λ o. key o == k) obs)))))
    ]

-- All responses to a challenge prompt.
abbrev pub responses : Str → List Observation → List Str
responses prompt_id obs =
    map (λ o. o.response_hash) (select (λ o. o.prompt_id == prompt_id) (challenges_of obs))

challenge_groups_lem :
    (obs : List Observation) (prompt_id : Str)
    → or_empty (lookup prompt_id (challenge_groups obs)) ≡ responses prompt_id obs
unfolding challenge_groups challenges_of lookup
challenge_groups_lem obs prompt_id =
    group_by_lem (λ o. o.prompt_id) (λ o. o.response_hash) (challenges_of obs) [] prompt_id

modal_response-majority :
    (obs : List Observation) (prompt_id h : Str)
    → IsMajority h (responses prompt_id obs)
    → modal_response obs prompt_id ≡ some h
unfolding modal_response count
modal_response-majority obs prompt_id h major =
    let held = challenge_groups_lem obs prompt_id in
    elim (Option-cases (lookup prompt_id (challenge_groups obs))) [
      | inl missing ↦
          let no_responses : [] ≡ responses prompt_id obs = rw missing at held in
          absurd (omega (arith, rw (← no_responses) at major))
      | inr (hashes, found) ↦
          let all_responses : hashes ≡ responses prompt_id obs = rw found at held in
          rw (found, modal_response) (most_common-majority hashes h (rw all_responses major))
    ]

-- Where each of these challenges has a response that is more than half of all the responses recorded
-- for its prompt, a miner's repeated ones counted each time, the agreement that the consistency score
-- counts is the number of the challenges that were answered by that response.
pub agreement-majority :
    (all obs : List Observation) (answer : Str → Str)
    → All (λ o. IsMajority (answer o.prompt_id) (responses o.prompt_id all)) obs
    → agreement (modal_response all) obs
      ≡ length (select (λ o. answer o.prompt_id == o.response_hash) obs)
unfolding agreement
agreement-majority all [] answer h = refl
agreement-majority all (o ∷ obs) answer (major, h) =
    let modal = modal_response-majority all o.prompt_id (answer o.prompt_id) major in
    let rest = agreement-majority all obs answer h in
    elim (Bool-cases (answer o.prompt_id == o.response_hash)) [
      | inl same ↦ rw (modal, same) (omega (arith, rest))
      | inr other ↦ rw (modal, other) (omega (arith, rest))
    ]

-- Where a miner has challenges, and each of them has a response that is more than half of all the
-- responses recorded for its prompt, a miner's repeated ones counted each time, the miner's
-- consistency is the share of its challenges that it answered by that response.
pub consistency_score-majority :
    {F : Type 0} (fl : Floats F) (all obs : List Observation) (answer : Str → Str)
    → 0 < length (challenges_of obs)
    → All (λ o. IsMajority (answer o.prompt_id) (responses o.prompt_id all)) (challenges_of obs)
    → consistency_score fl (modal_response all) obs
      ≡ fl.divide
          (length (select (λ o. answer o.prompt_id == o.response_hash) (challenges_of obs)))
          (length (challenges_of obs))
unfolding consistency_score
consistency_score-majority fl all obs answer some_there major =
    let counted : nat_beq (length (challenges_of obs)) 0 ≡ false = ground arith in
    rw (counted, agreement-majority all (challenges_of obs) answer major) refl
