-- ===== src/Miner/Admission.antt =====
-- What `_handle_infer` and `_handle_settle` of miner/src/basedai_miner/runtime.py have verified of a
-- request before they go on.
use mathlib.Core.Path.{ap, ◌∙◌, subst}
use based_ai.Prelude.{
  ℕ, ◌≤◌, ◌≡◌, refl, Bool, true, false, not, none, some, arith, Bool-cases, inl, inr, ltb, length,
}
use based_ai.Prelude.Eq.{◌==◌, nat_eq, int_eq, list_eq, list_beq_iff}
use based_ai.Prelude.Int.{ℤ, ◌≤ℤ◌}
use based_ai.Prelude.Result.{Result, ok, >>=-eq-ok}
use based_ai.Prelude.Text.{Str, lower}
use based_ai.Prelude.Json.{Json, str, get, get_item}
use based_ai.Web3.{Web3}
use based_ai.Receipts.{Receipt, lower_of, verify_user_signature}
use based_ai.Miner.Flow.{
  go, lift, refuse_if, stop_if, lift-eq-go, refuse_if-eq-go, stop_if-eq-go, go-injective, Ensures,
  Ensures-go, Ensures-bind,
}
use based_ai.Miner.{
  Miner, Chain, Payload, Admitted, check_eligibility, text_hash, parse_receipt, budget_of,
  budget_or, max_prompt_chars, prompt_text, max_payload_bytes,
}
use based_ai.Miner.Handlers.{admit, admit_settle, is_zero_hash}
use based_ai.Miner.Eligibility.{IsEligible, check_eligibility_iff}

-- What has been verified where `_handle_infer` goes on to the engine: the payload is small enough,
-- and the parts of the request that was read in it, its signature, prompt, receipt and budget, are
-- those that the handler works with.
pub record IsAdmitted (w : Web3) (chain : Chain) (now : ℕ) (m : Miner) (payload : Payload)
    (a : Admitted) : Type 0 where
  pub small : payload.size ≤ max_payload_bytes
  pub request : Json
  pub parsed : payload.parsed ≡ ok request
  pub sent_signature : get_item request "user_signature" ≡ ok a.signature
  pub sent_prompt : get_item request "prompt" ≡ ok (str a.prompt)
  pub receipt_data : Json
  pub sent_receipt : get_item request "receipt" ≡ ok receipt_data
  pub parsed_receipt : parse_receipt w receipt_data ≡ ok a.receipt
  pub sent_budget : budget_of request a.receipt.amount ≡ ok a.budget
  pub signed : verify_user_signature w m.market m.chain_id a.receipt a.signature ≡ ok true
  pub binds_prompt : lower_of a.receipt.prompt_hash ≡ ok (lower (text_hash w a.prompt))
  pub short_prompt : length a.prompt ≤ max_prompt_chars
  pub reserved : a.receipt.amount ≤ℤ a.budget
  pub eligible : IsEligible w chain now m a.receipt a.budget

budget_of-ge :
    (request : Json) (amount : ℤ) {budget : ℤ}
    → budget_of request amount ≡ ok budget
    → amount ≤ℤ budget
unfolding budget_of
budget_of-ge request amount h =
    let (given, _, rest) = >>=-eq-ok (get request "budget") _ h in
    let (b, _, last) = >>=-eq-ok (budget_or amount given) _ rest in ground arith

prompt_text-short : (v : Json) {p : Str} → prompt_text v ≡ go p → length p ≤ max_prompt_chars
unfolding prompt_text
prompt_text-short (str p) {p = q} h = elim (Bool-cases (ltb max_prompt_chars (length p))) [
  | inl long ↦ absurd (ground arith)
  | inr short ↦
      subst (λ q. length q ≤ max_prompt_chars) (go-injective p q (rw short at h)) (ground arith)
]
prompt_text-short v h = cc

prompt_text-str : (v : Json) {p : Str} → prompt_text v ≡ go p → v ≡ str p
unfolding prompt_text
prompt_text-str (str p) {p = q} h = elim (Bool-cases (ltb max_prompt_chars (length p))) [
  | inl long ↦ absurd (ground arith)
  | inr short ↦ ap str (go-injective p q (rw short at h))
]
prompt_text-str v h = cc

fits_size : {n : ℕ} → ltb max_payload_bytes n ≡ false → n ≤ max_payload_bytes
fits_size h = ground arith

pub signed_by_user :
    {r : Result Bool} {valid : Bool} → r ≡ ok valid → not valid ≡ false → r ≡ ok true
signed_by_user {valid = v} verified accepted = elim (Bool-cases v) [
  | inl valid ↦ rw (verified, valid) refl
  | inr bad ↦ absurd (ground arith)
]

same_hash :
    {r : Result Str} {given expected : Str}
    → r ≡ ok given
    → not (given == expected) ≡ false
    → r ≡ ok expected
same_hash {given = g} {expected = e} hash bound = elim (Bool-cases (g == e)) [
  | inl same ↦ rw (hash, (list_beq_iff g e).0 same) refl
  | inr other ↦ absurd (ground arith)
]

admit-Ensures :
    (w : Web3) (chain : Chain) (now : ℕ) (m : Miner) (payload : Payload)
    → Ensures (IsAdmitted w chain now m payload) (admit w chain now m payload)
unfolding admit
admit-Ensures w chain now m payload =
    Ensures-bind (refuse_if (ltb max_payload_bytes payload.size) "payload too large") (λ _ fits.
      Ensures-bind (lift payload.parsed) (λ request parses.
        Ensures-bind (lift (get_item request "user_signature")) (λ signature given_signature.
          Ensures-bind (lift (get_item request "receipt")) (λ receipt_data given_receipt.
            Ensures-bind (lift (get_item request "prompt")) (λ prompt_value given_prompt.
              Ensures-bind (prompt_text prompt_value) (λ prompt text.
                Ensures-bind (lift (parse_receipt w receipt_data)) (λ r read.
                  Ensures-bind (lift (lower_of r.prompt_hash)) (λ given hash.
                    Ensures-bind
                      (refuse_if (not (given == lower (text_hash w prompt))) "prompt hash mismatch")
                      (λ _ bound.
                        Ensures-bind
                          (lift (verify_user_signature w m.market m.chain_id r signature))
                          (λ valid verified.
                            Ensures-bind (refuse_if (not valid) "bad signature") (λ _ accepted.
                              Ensures-bind (lift (budget_of request r.amount)) (λ budget least.
                                Ensures-bind
                                  (stop_if (check_eligibility w chain now m r (some budget)))
                                  (λ _ passed.
                                    Ensures-go
                                      (record {
                                        receipt = r;
                                        signature = signature;
                                        prompt = prompt;
                                        budget = budget;
                                      })
                                      (record {
                                        small = fits_size (refuse_if-eq-go _ _ fits);
                                        request = request;
                                        parsed = lift-eq-go _ parses;
                                        sent_signature = lift-eq-go _ given_signature;
                                        sent_prompt =
                                            lift-eq-go _ given_prompt
                                            ∙ ap ok (prompt_text-str prompt_value text);
                                        receipt_data = receipt_data;
                                        sent_receipt = lift-eq-go _ given_receipt;
                                        parsed_receipt = lift-eq-go _ read;
                                        sent_budget = lift-eq-go _ least;
                                        signed =
                                            signed_by_user (lift-eq-go _ verified)
                                              (refuse_if-eq-go _ _ accepted);
                                        binds_prompt =
                                            same_hash (lift-eq-go _ hash)
                                              (refuse_if-eq-go _ _ bound);
                                        short_prompt = prompt_text-short prompt_value text;
                                        reserved =
                                            budget_of-ge request r.amount (lift-eq-go _ least);
                                        eligible =
                                            (check_eligibility_iff w chain now m r (some budget)).0
                                              (stop_if-eq-go _ passed);
                                      }))))))))))))))

-- Work is spent, and a preauthorization queued, only for a request that passed every check: the
-- payload is small enough, the user signed the receipt in it, which binds the prompt in it, its
-- amount is within the budget, and the user's balance covers the budget.
pub admit-IsAdmitted :
    (w : Web3) (chain : Chain) (now : ℕ) (m : Miner) (payload : Payload) {a : Admitted}
    → admit w chain now m payload ≡ go a
    → IsAdmitted w chain now m payload a
admit-IsAdmitted w chain now m payload h = (admit-Ensures w chain now m payload).at _ h

-- What has been verified where `_handle_settle` queues a final receipt.
pub record IsSettled (w : Web3) (chain : Chain) (now : ℕ) (m : Miner) (s : Receipt × Json)
    : Type 0 where
  pub signed : verify_user_signature w m.market m.chain_id s.0 s.1 ≡ ok true
  pub binds_response : is_zero_hash s.0.response_hash ≡ false
  pub eligible : IsEligible w chain now m s.0 s.0.amount

-- A final receipt is queued only if the user signed it, it binds a delivered response, and it is
-- eligible for its own amount.
pub admit_settle-Ensures :
    (w : Web3) (chain : Chain) (now : ℕ) (m : Miner) (payload : Payload)
    → Ensures (IsSettled w chain now m) (admit_settle w chain now m payload)
unfolding admit_settle
admit_settle-Ensures w chain now m payload = Ensures-bind (lift payload.parsed) (λ request _.
    Ensures-bind (lift (get_item request "receipt")) (λ receipt_data _.
      Ensures-bind (lift (get_item request "user_signature")) (λ signature _.
        Ensures-bind (lift (parse_receipt w receipt_data)) (λ r _.
          Ensures-bind
            (refuse_if (is_zero_hash r.response_hash)
              "final receipt must bind a delivered response")
            (λ _ bound.
              Ensures-bind (lift (verify_user_signature w m.market m.chain_id r signature))
                (λ valid verified.
                  Ensures-bind (refuse_if (not valid) "bad signature") (λ _ accepted.
                    Ensures-bind (stop_if (check_eligibility w chain now m r none)) (λ _ passed.
                      Ensures-go (r, signature)
                        (record {
                          signed =
                              signed_by_user (lift-eq-go _ verified) (refuse_if-eq-go _ _ accepted);
                          binds_response = refuse_if-eq-go _ _ bound;
                          eligible =
                              (check_eligibility_iff w chain now m r none).0
                                (stop_if-eq-go _ passed);
                        })))))))))
