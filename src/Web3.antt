-- ===== src/Web3.antt =====
-- What the services take from web3, eth-abi, eth-account and eth-utils. None of that code is in
-- the repository, so it is a parameter: a record of operations, and named facts about them.
use based_ai.Prelude.{◌≡◌, List, ◌∷◌, ◌++◌, All, length}
use based_ai.Prelude.Int.{ℤ}
use based_ai.Prelude.Result.{Result, ok}
use based_ai.Prelude.Text.{Str, Bytes, IsByte, lower, with_0x}
use based_ai.Prelude.Json.{Json}

-- An argument of `abi_encode`, with the type that stands in the list of types.
pub data AbiValue : Type 0 where
  uint256 : ℤ → AbiValue
  uint64 : ℤ → AbiValue
  address : Str → AbiValue
  bytes32 : Bytes → AbiValue
  string : Str → AbiValue

pub record Web3 : Type 0 where
  -- `keccak(bytes)`; `keccak(text=s)` hashes the UTF-8 of `s`
  pub keccak : Bytes → Bytes
  pub keccak_text : Str → Bytes
  -- `abi_encode(types, values)`, which raises on a value out of its type's range
  pub abi_encode : List AbiValue → Result Bytes
  -- `Account.recover_message(encode_defunct(primitive=digest), signature=...)`
  pub recover_message : Bytes → Json → Result Str
  -- `Web3.to_checksum_address(value)`
  pub to_checksum_address : Json → Result Str

-- An unlocked account: `account.sign_message(encode_defunct(primitive=digest)).signature`, in hex.
pub record Account : Type 0 where
  pub address : Str
  pub sign_message : Bytes → Str

-- A keccak digest is 32 bytes.
pub record HasDigests (w : Web3) : Type 0 where
  pub bytes : (b : Bytes) → All IsByte (w.keccak b)
  pub width : (b : Bytes) → length (w.keccak b) ≡ 32

-- Recovery undoes signing: the signature, with or without `0x`, gives back the signer's address.
pub record HasRecovery (w : Web3) (a : Account) : Type 0 where
  pub recovers : (d : Bytes) → w.recover_message d (Json.str (a.sign_message d)) ≡ ok a.address
  pub recovers_0x :
      (d : Bytes) → w.recover_message d (Json.str (with_0x (a.sign_message d))) ≡ ok a.address

-- A checksum address differs from its argument only in the case of its letters.
pub record HasChecksum (w : Web3) : Type 0 where
  pub keeps : (s c : Str) → w.to_checksum_address (Json.str s) ≡ ok c → lower c ≡ lower s

-- An address in small letters is encoded as its checksum address is.
pub record HasAddresses (w : Web3) : Type 0 where
  pub encodes :
      (before after : List AbiValue) (s c : Str)
      → lower s ≡ s
      → w.to_checksum_address (Json.str s) ≡ ok c
      → w.abi_encode (before ++ address s ∷ after) ≡ w.abi_encode (before ++ address c ∷ after)
