-- ===== src/Transactions.antt =====
-- How the client, the miner and the validator send transactions: the calls of web3 that
-- client/python/basedai_client/client.py, miner/src/basedai_miner/runtime.py, and runtime.py and
-- aggregator.py of validator/src/basedai_validator make for that. The node is a parameter, with its own state.
use mathlib.Core.List.{append-nil}
use based_ai.Prelude.{ℕ, ◌≡◌, refl, sym, ◌∙◌, Bool, ◌⊎◌, inl, inr, List, [], ◌∷◌, ◌++◌}
use based_ai.Prelude.Int.{ℤ}
use based_ai.Prelude.Result.{Exn, Result, ok, raise, Result-cases, raise≢ok}
use based_ai.Prelude.Text.{Str, Bytes}

-- The contracts' functions that are called, with their arguments.
pub data ContractCall : Type 0 where
  approve : Str → ℤ → ContractCall
  deposit : ℤ → ContractCall
  request_withdraw : ℤ → ContractCall
  withdraw : ContractCall
  register_miner : ℤ → ℤ → ContractCall
  register_validator : ℤ → ℤ → ContractCall
  propose_epoch : ℤ → ℤ → Bytes → List Str → List Bytes → ContractCall

pub record Transaction : Type 0 where
  pub to : Str
  pub sender : Str
  pub nonce : ℕ
  pub call : ContractCall

-- A call of the node returns or raises, and leaves it in a state.
abbrev pub Io {ℓ} : Type 0 → Type ℓ → Type ℓ
Io S A = S → Result A × S

-- The flag of the count is the block "pending". Building a transaction asks the node for its gas.
pub record Node (S : Type 0) : Type 0 where
  pub transaction_count : Bool → Str → S → Result ℕ
  pub build_transaction : Transaction → S → Result (Unit {0})
  pub send_raw_transaction : Transaction → Io S Str
  pub wait_for_transaction_receipt : Str → Io S (Unit {0})

abbrev pub after {ℓ κ} : {S : Type 0} {A : Type ℓ} {B : Type κ} → (A → Io S B) → Result A → Io S B
after f (ok a) s = f a s
after f (raise e) s = (raise e, s)

infixl 5 ◌>>=◌ ◌>>◌
abbrev pub ◌>>=◌ {ℓ κ} : {S : Type 0} {A : Type ℓ} {B : Type κ} → Io S A → (A → Io S B) → Io S B
(m >>= f) s = after f (m s).0 (m s).1

abbrev pub ◌>>◌ {κ} : {S : Type 0} {B : Type κ} → Io S (Unit {0}) → Io S B → Io S B
m >> k = m >>= λ _. k

-- A sequence that returned did so from its first call on, and ended as its rest did.
pub >>=-returns {ℓ κ} :
    {S : Type 0} {A : Type ℓ} {B : Type κ} (m : Io S A) (f : A → Io S B) (s : S) {b : B}
    → ((m >>= f) s).0 ≡ ok b
    → (a : A) × ((m s).0 ≡ ok a) × ((m >>= f) s ≡ f a (m s).1)
>>=-returns m f s h = elim (Result-cases (m s).0) [
  | inl (a, fine) ↦ (a, fine, rw fine refl)
  | inr (e, raised) ↦ absurd (raise≢ok (rw raised at h))
]

-- A call that only reads.
abbrev pub ask {ℓ} : {S : Type 0} {A : Type ℓ} → (S → Result A) → Io S A
ask f s = (f s, s)

-- One that does not ask the node.
abbrev pub lift {ℓ} : {S : Type 0} {A : Type ℓ} → Result A → Io S A
lift r s = (r, s)

-- What the node has taken on after a transaction was submitted.
pub data Submitted (t : Transaction) : Result Str → List Transaction → Type 0 where
  took : (hash : Str) → Submitted t (ok hash) (t ∷ [])
  failed : (e : Exn) → Submitted t (raise e) []
  lost : (e : Exn) → Submitted t (raise e) (t ∷ [])

-- The call's result, with what was taken on.
pub record Adds {S A : Type 0} (sent : S → List Transaction) (before : S) (m : Result A × S)
    (P : Result A → List Transaction → Type 0) : Type 0 where
  pub added : List Transaction
  pub kept : sent m.1 ≡ sent before ++ added
  pub holds : P m.0 added

module _ {S : Type 0} (node : Node S) where
  -- `build_transaction`, signing, and `send_raw_transaction`
  unfoldable pub transact : Transaction → Io S Str
  transact t = do ask (node.build_transaction t); node.send_raw_transaction t

  -- What the node keeps of the transactions that it took: it takes one that it answers for, it may
  -- have taken one for which it raises, and waiting adds none.
  pub record IsLedger (sent : S → List Transaction) : Type 0 where
    pub takes :
        (t : Transaction) (s : S) (hash : Str)
        → (node.send_raw_transaction t s).0 ≡ ok hash
        → sent (node.send_raw_transaction t s).1 ≡ sent s ++ t ∷ []
    pub fails :
        (t : Transaction) (s : S) (e : Exn)
        → (node.send_raw_transaction t s).0 ≡ raise e
        → (sent (node.send_raw_transaction t s).1 ≡ sent s)
          ⊎ (sent (node.send_raw_transaction t s).1 ≡ sent s ++ t ∷ [])
    pub waits : (hash : Str) (s : S) → sent (node.wait_for_transaction_receipt hash s).1 ≡ sent s

  pub transact-Submitted :
      (sent : S → List Transaction) (t : Transaction) (s : S)
      → IsLedger sent
      → Adds sent s (transact t s) (Submitted t)
  unfolding transact
  transact-Submitted sent t s ledger = elim (Result-cases (node.build_transaction t s)) [
    | inr (e, raised) ↦
        rw raised (record { added = []; kept = sym (append-nil (sent s)); holds = failed e })
    | inl (built, fine) ↦ rw fine (elim (Result-cases (node.send_raw_transaction t s).0) [
      | inl (hash, sends) ↦ record {
        added = t ∷ [];
        kept = ledger.takes t s hash sends;
        holds = rw sends (took hash);
      }
      | inr (e, raised) ↦ elim (ledger.fails t s e raised) [
        | inl same ↦ record {
          added = [];
          kept = same ∙ sym (append-nil (sent s));
          holds = rw raised (failed e);
        }
        | inr more ↦ record { added = t ∷ []; kept = more; holds = rw raised (lost e) }
      ]
    ])
  ]
