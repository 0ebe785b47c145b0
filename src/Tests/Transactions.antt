-- ===== src/Tests/Transactions.antt =====
-- The theorems on transactions, with a node that takes all of them.
use based_ai.Prelude.{◌≡◌, refl, Bool, true, some, List, [], ◌∷◌, ◌++◌, length, inr, ltb}
use based_ai.Prelude.Int.{pos}
use based_ai.Prelude.Result.{Result, ok}
use based_ai.Prelude.Text.{codes}
use based_ai.Transactions.{Transaction, Node, IsLedger, Adds}
use based_ai.Client.Funds.{
  ClientConfig, deposit_funds, IsDeposit, approval, payment, deposit_funds-IsDeposit,
}
use based_ai.Registration.{register, register-confirmed}
use based_ai.Tests.World.{world, ann, account_of}

abbrev node : Node (List Transaction)
node = record {
  transaction_count = λ pending sender s. ok (length s);
  build_transaction = λ t s. ok tt;
  send_raw_transaction = λ t s. (ok (codes "0x07"), s ++ t ∷ []);
  wait_for_transaction_receipt = λ hash s. (ok tt, s);
}

abbrev all : List Transaction → List Transaction
all s = s

node-IsLedger : IsLedger node all
node-IsLedger = record {
  takes = λ t s hash h. refl;
  fails = λ t s e h. inr refl;
  waits = λ hash s. refl;
}

abbrev config : ClientConfig
config = record { based = codes "0xba"; market = codes "0xee"; account = some (account_of ann) }

deposit_funds-IsDeposit_example : Adds all [] (deposit_funds world node config (pos 5) []) (
    IsDeposit
      (approval world node config all node-IsLedger
        (account_of ann)
        refl
        (codes "0xba")
        (codes "0xee")
        refl
        refl
        (pos 5)
        0
        []
        refl)
      (payment world node config all node-IsLedger
        (account_of ann)
        refl
        (codes "0xba")
        (codes "0xee")
        refl
        refl
        (pos 5)
        0
        []
        refl))
deposit_funds-IsDeposit_example =
    deposit_funds-IsDeposit world node config all node-IsLedger (account_of ann) refl (codes "0xba")
      (codes "0xee") refl refl (pos 5) 0 [] refl

-- The account is a miner once a transaction is taken.
abbrev is_member : List Transaction → Result Bool
is_member s = ok (ltb 0 (length s))

registered : (register node (codes "0xcc") (pos 7) (pos 0) (account_of ann) is_member []).0 ≡ ok tt
unfolding register based_ai.Registration.verify_registration based_ai.Transactions.transact
registered = refl

register-confirmed_example :
    is_member (register node (codes "0xcc") (pos 7) (pos 0) (account_of ann) is_member []).1
    ≡ ok true
register-confirmed_example =
    register-confirmed node (codes "0xcc") (pos 7) (pos 0) (account_of ann) is_member [] registered
