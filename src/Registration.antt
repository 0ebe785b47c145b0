-- ===== src/Registration.antt =====
-- Registration with a Brain: `verify_registration` of miner/src/basedai_miner/runtime.py with the
-- command `register` of miner/src/basedai_miner/cli.py, and `_verify_registration` of
-- validator/src/basedai_validator/runtime.py.
use mathlib.Core.List.{append-nil}
use based_ai.Prelude.{
  ℕ, ◌^◌, ◌≡◌, refl, sym, ap, ◌∙◌, Bool, true, false, List, [], ◌∷◌, inl, inr, if◌then◌else◌,
}
use based_ai.Prelude.Eq.{◌==◌, int_eq}
use based_ai.Prelude.Int.{ℤ, pos}
use based_ai.Prelude.Result.{Result, ok, raise, other, Result-cases, raise≢ok}
use based_ai.Prelude.Text.{Str}
use based_ai.Web3.{Account}
use based_ai.Transactions.{
  ContractCall, register_miner, register_validator, Transaction, Io, Node, ◌>>=◌, ◌>>◌, ask, lift,
  transact, IsLedger, Adds, Submitted, took, failed, lost, transact-Submitted, >>=-returns,
}

-- `int(max_registration_fee) or (1 << 255)`
abbrev pub fee_cap : ℤ → ℤ
fee_cap fee = if fee == pos 0 then pos (2 ^ 255) else fee

-- The registry is read by the address of the contract, for the Brain and the account.
module _ {S : Type 0} (node : Node S) (registry : Str) (brain_id max_fee : ℤ) (account : Account)
    (is_member : S → Result Bool) where
  -- The transaction under the account's next nonce, the ones that are pending counted.
  abbrev pub send_call : ContractCall → Io S Str
  send_call call = do
    nonce ← ask (node.transaction_count true account.address)
    transact node (record { to = registry; sender = account.address; nonce = nonce; call = call })

  -- The miner's: it waits for the transaction and asks the registry again.
  unfoldable pub verify_registration : Io S Bool
  verify_registration = do
    registered ← ask is_member
    if registered then lift (ok true) else do
      hash ← send_call (register_miner brain_id (fee_cap max_fee))
      node.wait_for_transaction_receipt hash
      ask is_member

  abbrev confirm : Bool → Result (Unit {0})
  confirm true = ok tt
  confirm false = raise other

  -- The command `register`: it ends without an error only where the registration is confirmed.
  unfoldable pub register : Io S (Unit {0})
  register = do confirmed ← verify_registration; lift (confirm confirmed)

  abbrev try_register : Io S (Unit {0})
  try_register = do
    registered ← ask is_member
    if registered
        then lift (ok tt)
        else do hash ← send_call (register_validator brain_id (fee_cap max_fee)); lift (ok tt)

  abbrev swallow : Result (Unit {0}) → Result (Unit {0})
  swallow r = ok tt

  -- The validator's: it does not wait, and no exception leaves it.
  unfoldable pub verify_validator : Io S (Unit {0})
  verify_validator s = (swallow (try_register s).0, (try_register s).1)

  abbrev enroll : Io S Bool
  enroll = do
    hash ← send_call (register_miner brain_id (fee_cap max_fee))
    node.wait_for_transaction_receipt hash
    ask is_member

  -- What the waiting ends with is what the registry says then.
  enroll-confirmed : (s : S) → (enroll s).0 ≡ ok true → is_member (enroll s).1 ≡ ok true
  enroll-confirmed s h =
      let (hash, _, same) =
        >>=-returns (send_call (register_miner brain_id (fee_cap max_fee)))
          (λ hash. node.wait_for_transaction_receipt hash >> ask is_member) s h in
      let sent = (send_call (register_miner brain_id (fee_cap max_fee)) s).1 in
      let (_, _, last) =
        >>=-returns (node.wait_for_transaction_receipt hash) (λ done. ask is_member) sent
          (rw same at h) in
      rw same (rw last (rw (same, last) at h))

  verify_registration-confirmed :
      (s : S) → (verify_registration s).0 ≡ ok true → is_member (verify_registration s).1 ≡ ok true
  unfolding verify_registration
  verify_registration-confirmed s h = elim (Result-cases (is_member s)) [
    | inr (e, raised) ↦ absurd (raise≢ok (rw raised at h))
    | inl (true, registered) ↦ rw (registered, registered) refl
    | inl (false, outside) ↦ rw outside (enroll-confirmed s (rw outside at h))
  ]

  confirm-true : (b : Bool) → confirm b ≡ ok tt → b ≡ true
  confirm-true true h = refl
  confirm-true false h = absurd (raise≢ok h)

  -- The command `register` ends without an error only where the registry, in the state that the node
  -- is left in, says that the account is a miner of the Brain; whatever the node answers in between.
  pub register-confirmed : (s : S) → (register s).0 ≡ ok tt → is_member (register s).1 ≡ ok true
  unfolding register
  register-confirmed s h =
      let (b, fine, same) =
        >>=-returns verify_registration (λ confirmed. lift (confirm confirmed)) s h in
      let sure = confirm-true b (rw same at h) in
      rw same (verify_registration-confirmed s (fine ∙ ap ok sure))

  -- One transaction at most, and that one a registration under the account's next nonce.
  pub data IsOnce (call : ContractCall) (pending : Result ℕ) : List Transaction → Type 0 where
    quiet : IsOnce call pending []
    once :
        (n : ℕ)
        → pending ≡ ok n
        → IsOnce call pending
            (record { to = registry; sender = account.address; nonce = n; call = call } ∷ [])

  module _ (sent : S → List Transaction) (ledger : IsLedger node sent) where
    abbrev SendsOnce : {A : Type 0} → ContractCall → S → Result A × S → Type 0
    SendsOnce call s m =
        Adds sent s m (λ r added. IsOnce call (node.transaction_count true account.address s) added)

    IsOnce-Submitted :
        (call : ContractCall) (n : ℕ) {r : Result Str} {added : List Transaction}
        {pending : Result ℕ}
        → pending ≡ ok n
        → Submitted
            (record { to = registry; sender = account.address; nonce = n; call = call })
            r
            added
        → IsOnce call pending added
    IsOnce-Submitted call n known (took hash) = once n known
    IsOnce-Submitted call n known (failed e) = quiet
    IsOnce-Submitted call n known (lost e) = once n known

    nothing : {A : Type 0} (call : ContractCall) (s : S) (r : Result A) → SendsOnce call s (r, s)
    nothing call s r = record { added = []; kept = sym (append-nil (sent s)); holds = quiet }

    send_call-SendsOnce : (call : ContractCall) (s : S) → SendsOnce call s (send_call call s)
    send_call-SendsOnce call s =
        elim (Result-cases (node.transaction_count true account.address s)) [
          | inr (e, raised) ↦
              rw raised (record { added = []; kept = sym (append-nil (sent s)); holds = quiet })
          | inl (n, known) ↦
              let one =
                transact-Submitted node sent
                  (record { to = registry; sender = account.address; nonce = n; call = call }) s
                  ledger in
              rw known (record {
                added = one.added;
                kept = one.kept;
                holds = IsOnce-Submitted call n refl one.holds;
              })
        ]

    -- What follows keeps what the node has taken.
    SendsOnce-after :
        {A B : Type 0} (call : ContractCall) (s : S) (m : Io S A) (f : A → Io S B)
        → SendsOnce call s (m s)
        → ((a : A) (t : S) → sent (f a t).1 ≡ sent t)
        → SendsOnce call s ((m >>= f) s)
    SendsOnce-after call s m f first keeps = elim (Result-cases (m s).0) [
      | inr (e, raised) ↦
          rw raised (record { added = first.added; kept = first.kept; holds = first.holds })
      | inl (a, fine) ↦
          rw fine (record {
            added = first.added;
            kept = keeps a (m s).1 ∙ first.kept;
            holds = first.holds;
          })
    ]

    enroll-keeps :
        (hash : Str) (t : S)
        → sent ((node.wait_for_transaction_receipt hash >> ask is_member) t).1 ≡ sent t
    enroll-keeps hash t = elim (Result-cases (node.wait_for_transaction_receipt hash t).0) [
      | inr (e, raised) ↦ rw raised (ledger.waits hash t)
      | inl (done, fine) ↦ rw fine (ledger.waits hash t)
    ]

    -- Either registration sends one transaction at most, its own under the account's next nonce, where
    -- the node is a ledger of what it takes.
    pub registrations-SendsOnce :
        (s : S)
        → SendsOnce (register_miner brain_id (fee_cap max_fee)) s (verify_registration s)
          × SendsOnce (register_validator brain_id (fee_cap max_fee)) s (verify_validator s)
    unfolding verify_registration verify_validator
    registrations-SendsOnce s = elim (Result-cases (is_member s)) [
      | inr (e, raised) ↦ rw raised (nothing _ s (raise e), nothing _ s (ok tt))
      | inl (true, registered) ↦ rw registered (nothing _ s (ok true), nothing _ s (ok tt))
      | inl (false, outside) ↦
          let join = register_validator brain_id (fee_cap max_fee) in
          let tried =
            SendsOnce-after join s (send_call join) (λ hash. lift (ok tt))
              (send_call-SendsOnce join s) (λ hash t. refl) in
          rw outside (
            SendsOnce-after _ s (send_call (register_miner brain_id (fee_cap max_fee)))
                (λ hash. node.wait_for_transaction_receipt hash >> ask is_member)
                (send_call-SendsOnce (register_miner brain_id (fee_cap max_fee)) s) enroll-keeps,
            record { added = tried.added; kept = tried.kept; holds = tried.holds },
          )
    ]
