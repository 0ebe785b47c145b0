-- ===== src/Tests/World.antt =====
-- A small world: a signature is the signer's address, a hash is a sum, and every address is its own
-- checksum. Not a claim about web3: an instance of the parameters for the tests.
use based_ai.Prelude.{ℕ, ◌+◌, ◌*◌, ◌%◌, refl, List, [], ◌∷◌, sum, nat_beq, if◌then◌else◌}
use based_ai.Prelude.Int.{ℤ, nat_abs}
use based_ai.Prelude.Result.{Result, ok, raise, value_error, ok-injective}
use based_ai.Prelude.Text.{Str, Bytes, codes}
use based_ai.Prelude.Json.{Json}
use based_ai.Web3.{
  Web3, Account, AbiValue, HasRecovery, HasChecksum, HasAddresses, uint256, uint64, address,
  bytes32, string,
}
use based_ai.Quorum.{Stakes}

abbrev number : ℤ → ℕ
number n = nat_abs n

abbrev weigh : List AbiValue → ℕ
weigh [] = 1
weigh (uint256 n ∷ vs) = number n + 3 * weigh vs
weigh (uint64 n ∷ vs) = number n + 3 * weigh vs
weigh (address a ∷ vs) = sum a + 3 * weigh vs
weigh (bytes32 b ∷ vs) = sum b + 3 * weigh vs
weigh (string s ∷ vs) = sum s + 3 * weigh vs

abbrev pub digest : Bytes → Bytes
digest b = sum b % 251 ∷ []

abbrev text_or_raise : Json → Result Str
text_or_raise (Json.str s) = ok s
text_or_raise _ = raise value_error

abbrev pub world : Web3
world = record {
  keccak = digest;
  keccak_text = digest;
  abi_encode = λ vs. ok (weigh vs ∷ []);
  recover_message = λ d signature. text_or_raise signature;
  to_checksum_address = text_or_raise;
}

abbrev pub ann : Str
ann = codes "0xa1"

abbrev pub bob : Str
bob = codes "0xb2"

abbrev pub account_of : Str → Account
account_of a = record { address = a; sign_message = λ d. a }

pub world-HasRecovery : HasRecovery world (account_of ann)
world-HasRecovery = record { recovers = λ d. refl; recovers_0x = λ d. refl }

pub world-HasChecksum : HasChecksum world
world-HasChecksum = record { keeps = λ s c h. rw (ok-injective s c h) refl }

pub world-HasAddresses : HasAddresses world
world-HasAddresses = record { encodes = λ before after s c small h. rw (ok-injective s c h) refl }

-- Ann has 6 of 10, Bob 4.
abbrev pub stakes : Stakes
stakes = record {
  stake_of = λ brain a. if nat_beq (sum a) (sum ann) then 6 else 4;
  total_stake = λ brain. 10;
}
