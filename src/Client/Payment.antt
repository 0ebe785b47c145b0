-- ===== src/Client/Payment.antt =====
-- What a final receipt has passed when the client of client/python/basedai_client/client.py signs it.
use mathlib.Core.Path.{subst, ap}
use based_ai.Prelude.{
  ℕ, ◌≡◌, refl, Bool, true, false, not, ◌&&◌, arith, leb, Option-cases, All, [], ◌∷◌, inl, inr,
}
use based_ai.Prelude.Eq.{◌==◌, nat_eq, int_eq, list_eq, list_beq_iff}
use based_ai.Prelude.Int.{ℤ, ◌≤ℤ◌, ltb_ℤ, int_beq_iff}
use based_ai.Prelude.Result.{Result, ok, raise, ◌>>=◌, >>=-eq-ok, Result-cases}
use based_ai.Prelude.Text.{Str, lower}
use based_ai.Prelude.Json.{Json}
use based_ai.Web3.{Web3, Account}
use based_ai.Receipts.{Receipt, lower_of}
use based_ai.Client.{
  Request, read_answer, preauth_of, demand, parse_final, assert_identity, expected_charge,
  accept_final, hash_text, reservation_of,
}
use based_ai.Client.Outcomes.{Response, response_of, countersign, settle_answer, infer}

demand-eq-ok : (b : Bool) {u : Unit {0}} → demand b ≡ ok u → b ≡ true
demand-eq-ok true h = refl
demand-eq-ok false h = cc

-- The amount that a miner may draw without delivering never exceeds the budget.
pub reservation_of-le : (req : Request) → reservation_of req ≤ℤ req.budget
unfolding reservation_of
reservation_of-le req = ground arith

-- Whatever the call returns has the property.
record Returns {ℓ} {V : Type ℓ} (P : V → Type 0) (call : Result V) : Type ℓ where
  pub at : (v : V) → call ≡ ok v → P v

value_of : {V : Type 0} → V → Result V → V
value_of d (ok v) = v
value_of d (raise e) = d

Returns-ok : {V : Type 0} {P : V → Type 0} (v : V) → P v → Returns P (ok v)
unfolding value_of
Returns-ok {P = P} v p = record { at = λ x h. subst P (ap (value_of v) h) p }

Returns-bind :
    {U V : Type 0} {P : V → Type 0} (call : Result U) {next : U → Result V}
    → ((u : U) → call ≡ ok u → Returns P (next u))
    → Returns P (call >>= next)
Returns-bind call each = record {
  at = λ v h. let (u, first, rest) = >>=-eq-ok call _ h in (each u first).at v rest;
}

-- The fields that the final receipt may not change.
pub record IsSameDeal (preauth final : Receipt) : Type 0 where
  pub user : lower final.user ≡ lower preauth.user
  pub miner : lower final.miner ≡ lower preauth.miner
  pub brain_id : final.brain_id ≡ preauth.brain_id
  pub prompt : Str
  pub prompt_given : lower_of final.prompt_hash ≡ ok prompt
  pub prompt_wanted : lower_of preauth.prompt_hash ≡ ok prompt
  pub expiry : final.expiry ≡ preauth.expiry
  pub nonce : final.nonce ≡ preauth.nonce

-- A test of two texts, as the equality that it decides.
same_text : (a b : Str) {u : Unit {0}} → demand (a == b) ≡ ok u → a ≡ b
same_text a b h = (list_beq_iff a b).0 (demand-eq-ok (a == b) h)

same_int : (a b : ℤ) {u : Unit {0}} → demand (a == b) ≡ ok u → a ≡ b
same_int a b h = (int_beq_iff a b).0 (demand-eq-ok (a == b) h)

assert_identity-Returns :
    (preauth final : Receipt)
    → Returns (λ _. IsSameDeal preauth final) (assert_identity preauth final)
unfolding assert_identity
assert_identity-Returns preauth final =
    Returns-bind (demand (lower final.user == lower preauth.user)) (λ _ user.
      Returns-bind (demand (lower final.miner == lower preauth.miner)) (λ _ miner.
        Returns-bind (demand (final.brain_id == preauth.brain_id)) (λ _ brain.
          Returns-bind (lower_of final.prompt_hash) (λ given prompt_given.
            Returns-bind (lower_of preauth.prompt_hash) (λ wanted prompt_wanted.
              Returns-bind (demand (given == wanted)) (λ _ prompt.
                Returns-bind (demand (final.expiry == preauth.expiry)) (λ _ expiry. record {
                  at = λ u nonce. record {
                    user = same_text _ _ user;
                    miner = same_text _ _ miner;
                    brain_id = same_int _ _ brain;
                    prompt = wanted;
                    prompt_given =
                        subst (λ g. lower_of final.prompt_hash ≡ ok g)
                          (same_text given wanted prompt) prompt_given;
                    prompt_wanted = prompt_wanted;
                    expiry = same_int _ _ expiry;
                    nonce = same_int _ _ nonce;
                  };
                })))))))

module _ (w : Web3) (price : ℕ × ℕ) (req : Request) (preauth : Receipt) (text : Str) where
  -- The deal of the preauthorization, the metered charge within the budget, and the hash of the
  -- text that was delivered.
  pub record IsFair (final : Receipt) : Type 0 where
    pub deal : IsSameDeal preauth final
    pub within_budget : final.amount ≤ℤ req.budget
    pub metered : final.amount ≡ expected_charge price req text
    pub priced : (leb price.0 0 && leb price.1 0) ≡ false
    pub binds_text : lower_of final.response_hash ≡ ok (lower (hash_text w text))

  accept_final-Returns :
      (proposed : Json) → Returns IsFair (accept_final w price req preauth text proposed)
  unfolding accept_final
  accept_final-Returns proposed = Returns-bind (parse_final proposed) (λ final _.
      Returns-bind (assert_identity preauth final) (λ u identity.
        Returns-bind (demand (not (ltb_ℤ req.budget final.amount))) (λ _ budget.
          Returns-bind (demand (not (leb price.0 0 && leb price.1 0))) (λ _ priced.
            Returns-bind (demand (final.amount == expected_charge price req text)) (λ _ metered.
              Returns-bind (lower_of final.response_hash) (λ given hash.
                Returns-bind (demand (given == lower (hash_text w text))) (λ _ bound.
                  Returns-ok final (record {
                    deal = (assert_identity-Returns preauth final).at u identity;
                    within_budget = ground (arith, demand-eq-ok _ budget);
                    metered = same_int _ _ metered;
                    priced = ground (arith, demand-eq-ok _ priced);
                    binds_text =
                        subst (λ g. lower_of final.response_hash ≡ ok g)
                          (same_text given (lower (hash_text w text)) bound) hash;
                  }))))))))

  -- A final receipt that the client goes on to sign keeps the preauthorization's user, miner,
  -- Brain, prompt, expiry and nonce, charges exactly what the client metered, which is within the
  -- budget and priced, and binds the text that was delivered.
  pub accept_final-IsFair :
      (proposed : Json) {final : Receipt}
      → accept_final w price req preauth text proposed ≡ ok final
      → IsFair final
  accept_final-IsFair proposed h = (accept_final-Returns proposed).at _ h

-- The receipt does not exceed the budget.
abbrev pub IsWithin : ℤ → Receipt × Str → Type 0
IsWithin budget p = p.0.amount ≤ℤ budget

countersign-IsWithin :
    (budget : ℤ) (sign : Receipt → Result Str) (preauth : Receipt) (signature : Str)
    (respond : ℤ → Result Response) (final : Receipt)
    → preauth.amount ≤ℤ budget
    → final.amount ≤ℤ budget
    → All (IsWithin budget) (countersign sign ((preauth, signature) ∷ []) respond final).signed
unfolding countersign
countersign-IsWithin budget sign preauth signature respond final first last =
    elim (Result-cases (sign final)) [
      | inr (e, raised) ↦ rw (raised, countersign) (first, tt)
      | inl (s, signed) ↦ rw (signed, countersign) (first, (last, tt))
    ]

module _ (w : Web3) (float_true : ℤ → Str → Bool) (price : ℕ × ℕ) (sign : Receipt → Result Str)
    (req : Request) where
  settle_answer-IsWithin :
      (preauth : Receipt) (signature : Str) (answer : Result Json)
      → preauth.amount ≤ℤ req.budget
      → All
          (IsWithin req.budget)
          (settle_answer w float_true price sign req preauth
            ((preauth, signature) ∷ [])
            answer).signed
  unfolding settle_answer
  settle_answer-IsWithin preauth signature answer first =
      elim (Result-cases (read_answer w float_true answer)) [
        | inr (e, raised) ↦ rw (raised, settle_answer) (first, tt)
        | inl ((text, proposal), read) ↦ elim (Option-cases proposal) [
          | inl absent ↦ rw (read, settle_answer) (rw absent (first, tt))
          | inr (proposed, offered) ↦
              elim (Result-cases (accept_final w price req preauth text proposed)) [
                | inr (e, raised) ↦ rw (read, settle_answer) (rw offered (rw raised (first, tt)))
                | inl (final, taken) ↦
                    rw (read, settle_answer)
                      (rw offered (
                        rw taken (
                          countersign-IsWithin req.budget sign preauth signature
                            (response_of answer text preauth.miner) final first
                            (accept_final-IsFair w price req preauth text proposed
                              taken).within_budget)))
              ]
        ]
      ]

  -- Whatever the gateway and the miner answer, no receipt that a call of `infer` signs exceeds the
  -- user's budget: neither the preauthorization nor the final receipt.
  pub infer-IsWithin :
      (account : Account) (now : ℤ) (nonce : ℕ) (miner : Str) (post : Str → Result Json)
      → All
          (IsWithin req.budget)
          (infer w float_true price sign req (preauth_of w account now nonce miner req) post).signed
  unfolding infer preauth_of
  infer-IsWithin account now nonce miner post =
      elim (Result-cases (sign (preauth_of w account now nonce miner req))) [
        | inr (e, raised) ↦ rw (raised, infer) tt
        | inl (signature, signed) ↦
            rw (signed, infer)
              (settle_answer-IsWithin (preauth_of w account now nonce miner req) signature
                (post signature) (reservation_of-le req))
      ]
