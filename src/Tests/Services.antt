-- ===== src/Tests/Services.antt =====
-- The theorems on the validator's service, at concrete requests.
use based_ai.Prelude.{◌≡◌, refl, []}
use based_ai.Prelude.Int.{pos}
use based_ai.Prelude.Result.{Result, ok}
use based_ai.Prelude.Text.{Str, codes}
use based_ai.Prelude.Json.{
  Json, obj, arr, cons, nil, field, end, int, str, to_int, to_str, get_item,
}
use based_ai.Prelude.Dict.{lookup}
use based_ai.Aggregator.{Aggregator, Propose}
use based_ai.Aggregator.Signatures.{AllAuthentic}
use based_ai.Candidates.{Pool}
use based_ai.Service.{CommitBody, parse_commit, text_item, int_item}
use based_ai.Service.Candidacy.{submit_candidate, CandidateStep, submit_candidate-CandidateStep}
use based_ai.Tests.World.{world, ann, stakes}

abbrev root_text : Str
root_text = codes "0x0102030405060708010203040506070801020304050607080102030405060708"

abbrev commitment : Result Json
commitment = ok (
    obj (
      field "epoch" (int (pos 3)) (
        field "brain_id" (int (pos 7)) (
          field "root" (str root_text)
            (field "signer" (str ann) (field "signature" (str ann) end))))))

abbrev no_text : Json → Str
no_text v = []

abbrev fresh : Aggregator
fresh = record {
  chain_id = pos 1;
  scoring_registry = codes "0xc3";
  min_quorum_bps = 5001;
  pending = [];
  proposed = [];
}

fresh-AllAuthentic : AllAuthentic world fresh
unfolding lookup
fresh-AllAuthentic = record { at = λ key signer signature found. cc }

abbrev send : Propose
send epoch brain root signers signatures = ok (codes "0xdd")

abbrev parsed : CommitBody
parsed = record { epoch = pos 3; brain_id = pos 7; root = root_text; signer = ann; signature = ann }

commitment_parsed : parse_commit no_text commitment ≡ ok parsed
unfolding parse_commit int_item get_item to_int text_item to_str
commitment_parsed = refl

abbrev candidate : Result Json
candidate = ok (
    obj (
      field "epoch" (int (pos 3)) (
        field "brain_id" (int (pos 7)) (
          field "signer" (str ann) (
            field "scores"
              (arr (cons (obj (field "miner" (str ann) (field "score" (int (pos 90)) end))) nil))
              (field "signature" (str ann) end))))))

abbrev no_candidates : Pool
no_candidates = record { min_quorum_bps = 5001; candidates = []; frozen = [] }

submit_candidate-CandidateStep_example :
    CandidateStep world
      (pos 1)
      (codes "0xc3")
      stakes
      no_text
      candidate
      no_candidates
      (submit_candidate world (pos 1) (codes "0xc3") stakes no_text candidate no_candidates).1
submit_candidate-CandidateStep_example =
    submit_candidate-CandidateStep world (pos 1) (codes "0xc3") stakes no_text candidate
      no_candidates
