-- ===== src/Miner/Eligibility.antt =====
-- What a handler has verified of a receipt before it spends work on it or queues it.
use based_ai.Prelude.{ℕ, ◌≡◌, ◌↔◌, refl, Bool, true, false, Option, none, some, arith, inl, inr}
use based_ai.Prelude.Eq.{nat_eq, int_eq, list_eq, list_beq_iff}
use based_ai.Prelude.Int.{ℤ, pos, ◌≤ℤ◌, leb_ℤ, int_beq_iff}
use based_ai.Prelude.Result.{Result, ok, raise, Result-cases}
use based_ai.Prelude.Text.{Str, lower}
use based_ai.Prelude.Json.{str}
use based_ai.Web3.{Web3}
use based_ai.Receipts.{Receipt}
use based_ai.Miner.{Miner, Chain, required_balance, account_state, judge_balance, check_eligibility}

-- A receipt that the market would redeem from this miner, now, for the amount required.
pub record IsEligible (w : Web3) (chain : Chain) (now : ℕ) (m : Miner) (r : Receipt) (required : ℤ)
    : Type 0 where
  pub brain : r.brain_id ≡ m.brain_id
  pub miner : lower r.miner ≡ lower m.account.address
  pub unexpired : leb_ℤ r.expiry (pos now) ≡ false
  pub user : Str
  pub checksum : w.to_checksum_address (str r.user) ≡ ok user
  pub unused : chain.used_nonce user r.nonce ≡ ok false
  pub balance : ℕ
  pub funded : chain.balance_of user ≡ ok balance
  pub covered : required ≤ℤ pos balance

judge_balance-none :
    (required : ℤ) (state : Result (Bool × Option ℕ))
    → judge_balance required state ≡ none
    → (balance : ℕ) × (state ≡ ok (false, some balance)) × (required ≤ℤ pos balance)
judge_balance-none required (raise e) h = cc
judge_balance-none required (ok (true, balance)) h = cc
judge_balance-none required (ok (false, none)) h = cc
judge_balance-none required (ok (false, some balance)) h = (balance, refl, ground arith)

judge_balance-covered :
    (required : ℤ) (balance : ℕ)
    → required ≤ℤ pos balance
    → judge_balance required (ok (false, some balance)) ≡ none
judge_balance-covered required balance h = ground arith

module _ (w : Web3) (chain : Chain) (now : ℕ) (m : Miner) (r : Receipt) where
  account_state-ok :
      {balance : ℕ}
      → account_state w chain r ≡ ok (false, some balance)
      → (user : Str) × (w.to_checksum_address (str r.user) ≡ ok user)
        × (chain.used_nonce user r.nonce ≡ ok false)
        × (chain.balance_of user ≡ ok balance)
  unfolding account_state
  account_state-ok h = elim (Result-cases (w.to_checksum_address (str r.user))) [
    | inr (e, raised) ↦ absurd (ground arith)
    | inl (user, checksum) ↦ (user, checksum, ground arith, ground arith)
  ]

  module _ (min_balance : Option ℤ) where
    -- A receipt is passed exactly when it is eligible: it names this Brain and this miner, it has
    -- not expired, its nonce is unused, and the user's balance covers what is required. So where
    -- a call to the chain raises, the receipt is refused.
    pub check_eligibility_iff :
        (check_eligibility w chain now m r min_balance ≡ none)
        ↔ IsEligible w chain now m r (required_balance min_balance r)
    unfolding check_eligibility
    check_eligibility_iff = (sound, complete)
      where
        sound :
            check_eligibility w chain now m r min_balance ≡ none
            → IsEligible w chain now m r (required_balance min_balance r)
        sound h =
            let judged : judge_balance (required_balance min_balance r) (account_state w chain r)
                ≡ none =
              ground arith in
            let (balance, state, covered) = judge_balance-none _ _ judged in
            let (user, checksum, unused, funded) = account_state-ok state in
            record {
              brain = ground (arith, int_beq_iff r.brain_id m.brain_id);
              miner = ground (arith, list_beq_iff (lower r.miner) (lower m.account.address));
              unexpired = ground arith;
              user = user;
              checksum = checksum;
              unused = unused;
              balance = balance;
              funded = funded;
              covered = covered;
            }

        complete :
            IsEligible w chain now m r (required_balance min_balance r)
            → check_eligibility w chain now m r min_balance ≡ none
        complete e =
            let brain = (int_beq_iff r.brain_id m.brain_id).1 e.brain in
            let miner = (list_beq_iff (lower r.miner) (lower m.account.address)).1 e.miner in
            let state : account_state w chain r ≡ ok (false, some e.balance) =
              unfold account_state in rw (e.checksum, e.unused, e.funded) in
            rw (brain, miner, e.unexpired, state)
              (judge_balance-covered (required_balance min_balance r) e.balance e.covered)
