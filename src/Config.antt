-- ===== src/Config.antt =====
-- miner/src/basedai_miner/config.py, validator/src/basedai_validator/config.py and the option checks of
-- gateway/src/basedai_gateway/cli.py. Reading YAML and pydantic's own checks of types are parameters; the
-- errors that pydantic collects, and a refused option, are a ValueError.
pub mod Addresses
pub mod Chains
pub mod Env
use based_ai.Prelude.{
  ℕ, zero, suc, Bool, true, false, not, ◌&&◌, ◌||◌, Option, List, [], ◌∷◌, ◌++◌, leb, nat_beq, drop,
  if◌then◌else◌,
}
use based_ai.Prelude.Eq.{◌==◌, nat_eq, list_eq}
use based_ai.Prelude.Int.{ℤ, pos, ltb_ℤ}
use based_ai.Prelude.Result.{
  Result, ok, raise, key_error, value_error, type_error, or_raise, ◌>>=◌, ◌>>◌,
}
use based_ai.Prelude.Text.{Str, codes, lower}
use based_ai.Prelude.Json.{Json, Items, Fields, str, arr, obj, nil, cons, end, field}

-- `[0-9a-fA-F]`
abbrev pub is_hex : ℕ → Bool
is_hex c = leb b'0' c && leb c b'9' || leb b'a' c && leb c b'f' || leb b'A' c && leb c b'F'

-- `[0-9a-fA-F]{n}$`: as `re` has it, `$` also matches before a line break that ends the text.
unfoldable pub hex_run : ℕ → Str → Bool
hex_run zero [] = true
hex_run zero (c ∷ []) = nat_beq c b'\n'
hex_run zero (c ∷ d ∷ s) = false
hex_run (suc n) [] = false
hex_run (suc n) (c ∷ s) = is_hex c && hex_run n s

-- `_ADDR_RE.match(v)`
unfoldable pub addr_match : Str → Bool
addr_match (a ∷ b ∷ s) = nat_beq a b'0' && nat_beq b b'x' && hex_run 40 s
addr_match _ = false

abbrev pub zeros : ℕ → Str
zeros zero = []
zeros (suc n) = b'0' ∷ zeros n

abbrev pub zero_addr : Str
zero_addr = codes "0x" ++ zeros 40

-- `_valid_addr`
unfoldable pub valid_addr : Str → Result Str
valid_addr v = if not (addr_match v) || lower v == zero_addr then raise value_error else ok v

-- `v.startswith(prefix)`
abbrev pub starts_with : Str → Str → Bool
starts_with [] v = true
starts_with (p ∷ ps) [] = false
starts_with (p ∷ ps) (c ∷ v) = nat_beq p c && starts_with ps v

abbrev pub is_safe_rpc : Str → Bool
is_safe_rpc v =
    starts_with (codes "https://") v
    || starts_with (codes "http://localhost") v
    || starts_with (codes "http://127.") v

-- `_https_rpc`
abbrev pub https_rpc : Str → Result Str
https_rpc v = if not (is_safe_rpc v) then raise value_error else ok v

-- `_positive_chain`, of the miner only
abbrev pub positive_chain : ℤ → Result ℤ
positive_chain v = if not (ltb_ℤ (pos 0) v) then raise value_error else ok v

-- `ChainConfig` of the miner, once the types are checked
pub record MinerChain : Type 0 where
  pub rpc_url : Str
  pub chain_id : ℤ
  pub based_token : Str
  pub subnet_registry : Str
  pub market : Str
  pub scoring_registry : Str

unfoldable pub miner_chain : MinerChain → Result MinerChain
miner_chain c = do
  rpc_url ← https_rpc c.rpc_url
  based_token ← valid_addr c.based_token
  subnet_registry ← valid_addr c.subnet_registry
  market ← valid_addr c.market
  scoring_registry ← valid_addr c.scoring_registry
  chain_id ← positive_chain c.chain_id
  ok (record {
    rpc_url = rpc_url;
    chain_id = chain_id;
    based_token = based_token;
    subnet_registry = subnet_registry;
    market = market;
    scoring_registry = scoring_registry;
  })

-- `ChainConfig` of the validator
pub record ValidatorChain : Type 0 where
  pub rpc_url : Str
  pub chain_id : ℤ
  pub based_token : Str
  pub subnet_registry : Str
  pub scoring_registry : Str
  pub staking_vault : Str

unfoldable pub validator_chain : ValidatorChain → Result ValidatorChain
validator_chain c = do
  rpc_url ← https_rpc c.rpc_url
  based_token ← valid_addr c.based_token
  subnet_registry ← valid_addr c.subnet_registry
  scoring_registry ← valid_addr c.scoring_registry
  staking_vault ← valid_addr c.staking_vault
  ok (record {
    rpc_url = rpc_url;
    chain_id = c.chain_id;
    based_token = based_token;
    subnet_registry = subnet_registry;
    scoring_registry = scoring_registry;
    staking_vault = staking_vault;
  })

-- The checks at the start of the gateway's `main`.
unfoldable pub gateway_options : Str → Str → Str → Result (Unit {0})
gateway_options rpc_url subnet_registry scoring_registry =
    if not (addr_match subnet_registry) || not (addr_match scoring_registry)
    then raise value_error
    else if not (is_safe_rpc rpc_url)
    then raise value_error
    else ok tt

-- `s.endswith("}")`
abbrev pub ends_with_brace : Str → Bool
ends_with_brace [] = false
ends_with_brace (c ∷ []) = nat_beq c b'}'
ends_with_brace (c ∷ d ∷ s) = ends_with_brace (d ∷ s)

-- `s[:-1]`
abbrev pub but_last : Str → Str
but_last [] = []
but_last (c ∷ []) = []
but_last (c ∷ d ∷ s) = c ∷ but_last (d ∷ s)

abbrev pub is_reference : Str → Bool
is_reference s = starts_with (codes "${") s && ends_with_brace s

-- `obj[2:-1]`
abbrev pub name_of : Str → Str
name_of s = but_last (drop 2 s)

module _ (environ : Str → Option Str) where
  -- `_expand_env` on a text; KeyError where the variable is not set
  abbrev pub expand_text : Str → Result Str
  expand_text s = if is_reference s then or_raise key_error (environ (name_of s)) else ok s

  unfoldable mutual
    -- `_expand_env`
    pub expand_env : Json → Result Json
    expand_env (str s) = do v ← expand_text s; ok (str v)
    expand_env (arr vs) = do items ← expand_items vs; ok (arr items)
    expand_env (obj fs) = do fields ← expand_fields fs; ok (obj fields)
    expand_env (Json.null) = ok Json.null
    expand_env (Json.bool b) = ok (Json.bool b)
    expand_env (Json.int n) = ok (Json.int n)
    expand_env (Json.real n text) = ok (Json.real n text)

    pub expand_items : Items → Result Items
    expand_items nil = ok nil
    expand_items (cons v vs) = do head ← expand_env v; tail ← expand_items vs; ok (cons head tail)

    pub expand_fields : Fields → Result Fields
    expand_fields end = ok end
    expand_fields (field k v fs) = do
      head ← expand_env v
      tail ← expand_fields fs
      ok (field k head tail)

  -- `**raw`
  abbrev pub as_fields : Json → Result Fields
  as_fields (obj fs) = ok fs
  as_fields _ = raise type_error

  -- `from_file`: the file's value and the model's constructor are parameters.
  unfoldable pub from_file {ℓ} : {C : Type ℓ} → (Fields → Result C) → Result Json → Result C
  from_file construct raw = do
    value ← raw
    expanded ← expand_env value
    fields ← as_fields expanded
    construct fields
