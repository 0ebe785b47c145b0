-- ===== src/Tests/Configs.antt =====
-- The theorems on the configurations, at small ones.
use mathlib.Core.Path.{subst}
use mathlib.Core.Option.{some-injective}
use based_ai.Prelude.{
  Bool-cases, inl, inr, ◌≢◌, ℕ, ◌≡◌, ◌↔◌, refl, true, Option, some, none, List, [], ◌∷◌, ◌++◌,
  if◌then◌else◌,
}
use based_ai.Prelude.Eq.{◌==◌, nat_eq, list_eq}
use based_ai.Prelude.Int.{pos}
use based_ai.Prelude.Result.{ok}
use based_ai.Prelude.Text.{Str, codes}
use based_ai.Prelude.Json.{Json, obj, field, end, str}
use based_ai.Config.{expand_env, MinerChain, miner_chain, valid_addr, is_safe_rpc}
use based_ai.Config.Env.{is_plain, expand_env-again}
use based_ai.Config.Chains.{IsMinerChain, miner_chain_iff}

abbrev environ : Str → Option Str
environ name = if name == codes "KEY" then some (codes "0x01") else none

abbrev config : Json
config = obj (field "private_key" (str (codes "${KEY}")) (field "name" (str (codes "m")) end))

abbrev expanded : Json
expanded = obj (field "private_key" (str (codes "0x01")) (field "name" (str (codes "m")) end))

none≢some : {v : Str} → none ≢ some v
none≢some h = cc

environ_plain : (name v : Str) → environ name ≡ some v → is_plain v ≡ true
environ_plain name v h = elim (Bool-cases (name == codes "KEY")) [
  | inl key ↦ subst (λ u. is_plain u ≡ true) (some-injective (codes "0x01") v (rw key at h)) refl
  | inr other ↦ absurd (none≢some (rw other at h))
]

expansion : expand_env environ config ≡ ok expanded
unfolding expand_env
expansion = refl

expand_env-again_example : expand_env (λ name. none) expanded ≡ ok expanded
expand_env-again_example =
    expand_env-again environ environ_plain (λ name. none) config expanded expansion

abbrev token : Str
token = codes "0x00000000000000000000000000000000000000AB"

abbrev chain : MinerChain
chain = record {
  rpc_url = codes "https://rpc";
  chain_id = pos 57073;
  based_token = token;
  subnet_registry = token;
  market = token;
  scoring_registry = token;
}

miner_chain_iff_example : (miner_chain chain ≡ ok chain) ↔ IsMinerChain chain
miner_chain_iff_example = miner_chain_iff chain

chain_accepted : miner_chain chain ≡ ok chain
unfolding miner_chain valid_addr based_ai.Config.addr_match based_ai.Config.hex_run
    based_ai.Prelude.Text.lower
chain_accepted = refl

-- The zero address is accepted with a line break after it.
zero_accepted :
    valid_addr (codes "0x0000000000000000000000000000000000000000\n")
    ≡ ok (codes "0x0000000000000000000000000000000000000000\n")
unfolding valid_addr based_ai.Config.addr_match based_ai.Config.hex_run based_ai.Prelude.Text.lower
zero_accepted = refl

-- A host whose name only begins like the local one is taken for it.
remote_accepted : is_safe_rpc (codes "http://localhost.example.com") ≡ true
remote_accepted = refl
