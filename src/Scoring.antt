-- ===== src/Scoring.antt =====
-- validator/src/basedai_validator/scoring.py: the scores of an epoch. Floats, with `math.log` and
-- numpy's percentile and mean, are parameters; what is counted and compared before them is not.
-- Texts are lowered and split as ASCII.
pub mod Modal
pub mod Range
pub mod Groups
use based_ai.Prelude.{
  ℕ, zero, suc, ◌+◌, Bool, true, false, not, ◌&&◌, ◌||◌, Option, none, some, List, [], ◌∷◌, ◌++◌,
  map, length, select, contains, nat_beq, if◌then◌else◌,
}
use based_ai.Prelude.Eq.{Eq, ◌==◌, nat_eq, list_eq}
use based_ai.Prelude.Int.{ℤ, leb_ℤ}
use based_ai.Prelude.Text.{Str, lower, is_space}
use based_ai.Prelude.Sort.{sorted}
use based_ai.Prelude.Dict.{Dict, lookup, put}
use based_ai.Prelude.Choose.{choose}

-- What the code does with floats. A decimal literal is the quotient of two integers that is
-- nearest to it.
pub record Floats (F : Type 0) : Type 0 where
  pub of_nat : ℕ → F
  pub divide : ℕ → ℕ → F
  pub add : F → F → F
  pub multiply : F → F → F
  pub quotient : F → F → F
  pub log : F → F
  pub less : F → F → Bool
  pub at_most : F → F → Bool
  pub truncate : F → ℤ
  pub median : List ℕ → F
  pub mean : List F → F

pub record Observation : Type 0 where
  pub miner : Str
  pub prompt_id : Str
  pub response_hash : Str
  pub response_text : Str
  pub latency_ms : ℕ
  pub is_challenge : Bool
  pub reference_text : Option Str

-- `defaultdict(list)`, with `groups[key(o)].append(value(o))` for each observation
abbrev pub or_empty {ℓ} : {A : Type ℓ} → Option (List A) → List A
or_empty none = []
or_empty (some l) = l

unfoldable pub group_by {ℓ} :
    {A : Type ℓ}
    → (Observation → Str)
    → (Observation → A)
    → List Observation
    → Dict Str (List A)
    → Dict Str (List A)
group_by key value [] groups = groups
group_by key value (o ∷ obs) groups =
    group_by key value obs (put (key o) (or_empty (lookup (key o) groups) ++ value o ∷ []) groups)

-- `Counter(hashes)`: the keys in the order of their first appearance, and the counts.
unfoldable pub firsts : List Str → List Str → List Str
firsts seen [] = []
firsts seen (h ∷ hashes) =
    let rest = firsts (h ∷ seen) hashes in if contains h seen then rest else h ∷ rest

unfoldable pub count : Str → List Str → ℕ
count h [] = 0
count h (x ∷ hashes) = (if x == h then 1 else 0) + count h hashes

-- `Counter(hashes).most_common(1)[0][0]`, of hashes that are not empty
unfoldable pub most_common : List Str → Option Str
unfolding firsts count
most_common hashes = choose (λ h. count h hashes) (firsts [] hashes)

unfoldable pub challenge_groups : List Observation → Dict Str (List Str)
unfolding group_by
challenge_groups obs =
    group_by (λ o. o.prompt_id) (λ o. o.response_hash) (select (λ o. o.is_challenge) obs) []

abbrev modal_of : Option (List Str) → Option Str
modal_of none = none
modal_of (some hashes) = most_common hashes

-- `modal_response.get(prompt_id)`
unfoldable pub modal_response : List Observation → Str → Option Str
unfolding most_common challenge_groups
modal_response obs prompt_id = modal_of (lookup prompt_id (challenge_groups obs))

abbrev pub agrees : Option Str → Str → Bool
agrees none hash = false
agrees (some modal) hash = modal == hash

-- The numbers that `_consistency_score` divides.
unfoldable pub challenges_of : List Observation → List Observation
challenges_of obs = select (λ o. o.is_challenge) obs

unfoldable pub agreement : (Str → Option Str) → List Observation → ℕ
agreement modal [] = 0
agreement modal (o ∷ challenges) =
    (if agrees (modal o.prompt_id) o.response_hash then 1 else 0) + agreement modal challenges

-- `text.split()`, after what has been read of a word
abbrev pub flush_word : Str → List Str → List Str
flush_word [] rest = rest
flush_word (c ∷ word) rest = (c ∷ word) ∷ rest

unfoldable pub split_words : Str → Str → List Str
split_words word [] = flush_word word []
split_words word (c ∷ s) =
    let rest = split_words (if is_space c then [] else word ++ c ∷ []) s in
    if is_space c then flush_word word rest else rest

-- `set(text.lower().split())`, without repetitions
unfoldable pub token_set : Str → List Str
unfolding firsts split_words
token_set text = firsts [] (split_words [] (lower text))

-- The numbers that the Jaccard quotient divides.
unfoldable pub common : List Str → List Str → ℕ
common a b = length (select (λ t. contains t b) a)

unfoldable pub union_size : List Str → List Str → ℕ
unfolding common
union_size a b = length a + length (select (λ t. not (contains t a)) b)

-- `[o for o in obs if o.reference_text]`, as the pairs of response and reference
abbrev pub has_reference : Option Str → Bool
has_reference none = false
has_reference (some []) = false
has_reference (some (c ∷ s)) = true

abbrev pub text_or_empty : Option Str → Str
text_or_empty none = []
text_or_empty (some s) = s

pub record MinerScore (F : Type 0) : Type 0 where
  pub miner : Str
  pub score_fp : ℤ
  pub samples : ℕ
  pub latency : F
  pub quality : F
  pub consistency : F

module _ {F : Type 0} (fl : Floats F) where
  -- Python's `min` and `max` of two values
  abbrev pub min_float : F → F → F
  min_float a b = if fl.less b a then b else a

  abbrev pub max_float : F → F → F
  max_float a b = if fl.less a b then b else a

  abbrev pub clamp : F → F
  clamp x = max_float (fl.of_nat 0) (min_float (fl.of_nat 1) x)

  unfoldable pub latency_score : List Observation → F → F
  latency_score [] p50 = fl.of_nat 0
  latency_score (o ∷ obs) p50 =
      let miner_p50 = fl.median (map (λ o. o.latency_ms) (o ∷ obs)) in
      if fl.at_most miner_p50 (fl.of_nat 0)
      then fl.of_nat 1
      else min_float (fl.of_nat 1) (
          max_float (fl.of_nat 0) (
            fl.quotient (fl.log (fl.add (fl.of_nat 1) (fl.quotient p50 miner_p50)))
              (fl.log (fl.of_nat 2))))

  abbrev jaccard_of : List Str → List Str → F
  jaccard_of [] [] = fl.of_nat 0
  jaccard_of (t ∷ a) b = fl.divide (common (t ∷ a) b) (union_size (t ∷ a) b)
  jaccard_of [] (t ∷ b) = fl.divide (common [] (t ∷ b)) (union_size [] (t ∷ b))

  unfoldable pub jaccard : Observation → F
  unfolding token_set union_size
  jaccard s = jaccard_of (token_set s.response_text) (token_set (text_or_empty s.reference_text))

  abbrev mean_or_half : List F → F
  mean_or_half [] = fl.divide 1 2
  mean_or_half (x ∷ scores) = fl.mean (x ∷ scores)

  unfoldable pub quality_score : List Observation → F
  unfolding jaccard
  quality_score obs = mean_or_half (map jaccard (select (λ o. has_reference o.reference_text) obs))

  unfoldable pub consistency_score : (Str → Option Str) → List Observation → F
  unfolding agreement challenges_of
  consistency_score modal obs =
      let challenges = challenges_of obs in
      if nat_beq (length challenges) 0
      then fl.divide 1 2
      else fl.divide (agreement modal challenges) (length challenges)

  unfoldable pub composite : F → F → F → F
  composite latency quality consistency =
      fl.add (fl.add (fl.multiply (fl.divide 1 5) latency) (fl.multiply (fl.divide 1 2) quality))
        (fl.multiply (fl.divide 3 10) consistency)

  -- `int(composite * 1_000_000)`, after the clamp
  unfoldable pub to_fixed : F → ℤ
  to_fixed x = fl.truncate (fl.multiply (clamp x) (fl.of_nat 1000000))

  -- The body of the loop over the miners.
  unfoldable pub score_one : (Str → Option Str) → F → Str × List Observation → MinerScore F
  unfolding latency_score quality_score consistency_score composite to_fixed
  score_one modal p50 (miner, obs) =
      let latency = latency_score obs p50 in
      let quality = quality_score obs in
      let consistency = consistency_score modal obs in
      record {
        miner = miner;
        score_fp = to_fixed (composite latency quality consistency);
        samples = length obs;
        latency = latency;
        quality = quality;
        consistency = consistency;
      }

  abbrev pub higher_first : MinerScore F → MinerScore F → Bool
  higher_first a b = leb_ℤ b.score_fp a.score_fp

  unfoldable pub score_miners : List Observation → List (MinerScore F)
  unfolding score_one group_by modal_response
  score_miners [] = []
  score_miners (o ∷ obs) = sorted higher_first (
      map (score_one (modal_response (o ∷ obs)) (fl.median (map (λ o. o.latency_ms) (o ∷ obs))))
        (group_by (λ o. o.miner) (λ o. o) (o ∷ obs) []))
