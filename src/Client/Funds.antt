-- ===== src/Client/Funds.antt =====
-- Deposits and withdrawals of client/python/basedai_client/client.py: the transactions that they send.
use mathlib.Core.List.{append_assoc}
use based_ai.Prelude.{
  ℕ, ◌+◌, ◌≡◌, refl, sym, ap, ◌∙◌, false, Option, none, some, List, [], ◌∷◌, ◌++◌, inl, inr,
}
use based_ai.Prelude.Int.{ℤ}
use based_ai.Prelude.Result.{Exn, Result, ok, raise, other, Result-cases, raise≢ok}
use based_ai.Prelude.Text.{Str}
use based_ai.Prelude.Json.{str}
use based_ai.Web3.{Web3, Account}
use based_ai.Transactions.{
  ContractCall, approve, deposit, request_withdraw, withdraw, Transaction, Io, Node, ◌>>=◌, ◌>>◌,
  after, ask, lift, transact, IsLedger, Adds, Submitted, took, failed, lost, transact-Submitted,
}

-- What the operations read of `ClientConfig`; there is an account where it has a private key.
pub record ClientConfig : Type 0 where
  pub based : Str
  pub market : Str
  pub account : Option Account

-- `_require_account`
abbrev pub require_account : Option Account → Result Account
require_account none = raise other
require_account (some a) = ok a

module _ {S : Type 0} (w : Web3) (node : Node S) (config : ClientConfig) where
  -- `_erc20` and `_market`: the contract at the checksum address
  abbrev pub contract_at : Str → Io S Str
  contract_at address = lift (w.to_checksum_address (str address))

  unfoldable pub deposit_funds : ℤ → Io S Str
  deposit_funds amount = do
    account ← lift (require_account config.account)
    token ← contract_at config.based
    market ← contract_at config.market
    nonce ← ask (node.transaction_count false account.address)
    approve_hash ← transact node (record {
      to = token;
      sender = account.address;
      nonce = nonce;
      call = approve config.market amount;
    })
    node.wait_for_transaction_receipt approve_hash
    transact node
        (record { to = market; sender = account.address; nonce = nonce + 1; call = deposit amount })

  -- What `request_withdraw` and `withdraw` share: one call of the market.
  abbrev call_market : ContractCall → Io S Str
  call_market call = do
    account ← lift (require_account config.account)
    market ← contract_at config.market
    nonce ← ask (node.transaction_count false account.address)
    transact node (record { to = market; sender = account.address; nonce = nonce; call = call })

  unfoldable pub request_withdrawal : ℤ → Io S Str
  request_withdrawal amount = call_market (request_withdraw amount)

  unfoldable pub complete_withdrawal : Io S Str
  complete_withdrawal = call_market withdraw

-- What a deposit has sent when it ends: the approval goes first, and the deposit only after it.
pub data IsDeposit (approval payment : Transaction) : Result Str → List Transaction → Type 0 where
  refused : (e : Exn) → IsDeposit approval payment (raise e) []
  approved : (e : Exn) → IsDeposit approval payment (raise e) (approval ∷ [])
  unanswered : (e : Exn) → IsDeposit approval payment (raise e) (approval ∷ payment ∷ [])
  deposited : (hash : Str) → IsDeposit approval payment (ok hash) (approval ∷ payment ∷ [])

module _ (approval payment : Transaction) where
  IsDeposit-first :
      {r : Result Str} {added : List Transaction} (e : Exn)
      → Submitted approval r added
      → r ≡ raise e
      → IsDeposit approval payment (raise e) added
  IsDeposit-first e (took hash) h = absurd (raise≢ok (sym h))
  IsDeposit-first e (failed f) h = refused e
  IsDeposit-first e (lost f) h = approved e

  Submitted-ok :
      {r : Result Str} {added : List Transaction} (hash : Str)
      → Submitted approval r added
      → r ≡ ok hash
      → added ≡ approval ∷ []
  Submitted-ok hash (took h) same = refl
  Submitted-ok hash (failed f) same = absurd (raise≢ok same)
  Submitted-ok hash (lost f) same = refl

  IsDeposit-last :
      {r : Result Str} {added : List Transaction}
      → Submitted payment r added
      → IsDeposit approval payment r (approval ∷ added)
  IsDeposit-last (took hash) = deposited hash
  IsDeposit-last (failed e) = approved e
  IsDeposit-last (lost e) = unanswered e

module _ {S : Type 0} (w : Web3) (node : Node S) (config : ClientConfig)
    (sent : S → List Transaction) (ledger : IsLedger node sent) (account : Account)
    (known : config.account ≡ some account) (token market : Str)
    (based : w.to_checksum_address (str config.based) ≡ ok token)
    (contract : w.to_checksum_address (str config.market) ≡ ok market) (amount : ℤ) (n : ℕ) (s : S)
    (count : node.transaction_count false account.address s ≡ ok n) where
  abbrev pub approval : Transaction
  approval = record {
    to = token;
    sender = account.address;
    nonce = n;
    call = approve config.market amount;
  }

  abbrev pub payment : Transaction
  payment = record { to = market; sender = account.address; nonce = n + 1; call = deposit amount }

  -- The deposit's transaction, once the approval is sent.
  pay-IsDeposit :
      (later : S)
      → sent later ≡ sent s ++ approval ∷ []
      → Adds sent s (transact node payment later) (IsDeposit approval payment)
  pay-IsDeposit later before =
      let last = transact-Submitted node sent payment later ledger in
      record {
        added = approval ∷ last.added;
        kept = last.kept ∙ (rw before (append_assoc (sent s) (approval ∷ []) last.added));
        holds = IsDeposit-last approval payment last.holds;
      }

  wait-IsDeposit :
      (hash : Str) (later : S)
      → sent later ≡ sent s ++ approval ∷ []
      → Adds sent s
          (after
            (λ done. transact node payment)
            (node.wait_for_transaction_receipt hash later).0
            (node.wait_for_transaction_receipt hash later).1)
          (IsDeposit approval payment)
  wait-IsDeposit hash later before =
      let same = ledger.waits hash later ∙ before in
      elim (Result-cases (node.wait_for_transaction_receipt hash later).0) [
        | inl (done, fine) ↦ rw fine (pay-IsDeposit _ same)
        | inr (e, raised) ↦
            rw raised (record { added = approval ∷ []; kept = same; holds = approved e })
      ]

  -- A deposit sends the approval under the account's next nonce, and the deposit under the one after
  -- it, in this order and each at most once; it returns a hash only where the node has taken both.
  -- This holds of a client with an account, whose contracts have checksum addresses and whose node
  -- gives the count of the account's transactions and is a ledger of what it takes.
  pub deposit_funds-IsDeposit :
      Adds sent s (deposit_funds w node config amount s) (IsDeposit approval payment)
  unfolding deposit_funds
  deposit_funds-IsDeposit =
      let first = transact-Submitted node sent approval s ledger in
      rw (known, based, contract, count)
        (elim (Result-cases (transact node approval s).0) [
          | inr (e, raised) ↦ rw raised (record {
            added = first.added;
            kept = first.kept;
            holds = IsDeposit-first approval payment e first.holds raised;
          })
          | inl (hash, fine) ↦ rw fine (
              wait-IsDeposit hash (transact node approval s).1 (
                first.kept
                ∙ ap (λ l. sent s ++ l) (Submitted-ok approval payment hash first.holds fine)))
        ])

  abbrev pub market_call : ContractCall → Transaction
  market_call call = record { to = market; sender = account.address; nonce = n; call = call }

  -- Either step of a withdrawal sends its one transaction at most, and returns a hash only where the
  -- node has taken it.
  pub withdrawals-Submitted :
      Adds sent s
        (request_withdrawal w node config amount s)
        (Submitted (market_call (request_withdraw amount)))
      × Adds sent s (complete_withdrawal w node config s) (Submitted (market_call withdraw))
  unfolding request_withdrawal complete_withdrawal
  withdrawals-Submitted = (
    rw (known, contract, count)
        (transact-Submitted node sent (market_call (request_withdraw amount)) s ledger),
    rw (known, contract, count) (transact-Submitted node sent (market_call withdraw) s ledger),
  )
