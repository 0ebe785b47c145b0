-- ===== src/Config/Chains.antt =====
-- What the chain's part of a configuration has passed, for the miner, the validator and the gateway.
use based_ai.Prelude.{
  ◌≡◌, ◌≢◌, ◌↔◌, refl, Bool, true, false, not, ◌||◌, arith, Bool-cases, inl, inr, if◌then◌else◌,
}
use based_ai.Prelude.Eq.{◌==◌, nat_eq, list_eq}
use based_ai.Prelude.Int.{pos, ◌≤ℤ◌, ltb_ℤ}
use based_ai.Prelude.Result.{ok, raise, value_error, raise≢ok, >>=-eq-ok}
use based_ai.Prelude.Text.{Str, lower}
use based_ai.Config.{
  addr_match, zero_addr, valid_addr, is_safe_rpc, https_rpc, positive_chain, MinerChain,
  miner_chain, ValidatorChain, validator_chain, gateway_options,
}
use based_ai.Config.Addresses.{IsAddress, valid_addr_iff, addr_match_iff}

-- An address of a contract: in the form of the pattern, and not the zero address.
abbrev pub IsContract : Str → Type 0
IsContract v = IsAddress v × (lower v ≢ zero_addr)

valid_addr-IsContract : (v : Str) {u : Str} → valid_addr v ≡ ok u → IsContract v
unfolding valid_addr
valid_addr-IsContract v h =
    (valid_addr_iff v).0 (accepted (not (addr_match v) || lower v == zero_addr) h)
  where
    accepted :
        {u : Str} (refused : Bool)
        → (if refused then raise value_error else ok v) ≡ ok u
        → (if refused then raise value_error else ok v) ≡ ok v
    accepted true g = absurd (raise≢ok g)
    accepted false g = refl

https_rpc-safe : (v : Str) {u : Str} → https_rpc v ≡ ok u → is_safe_rpc v ≡ true
https_rpc-safe v h = elim (Bool-cases (is_safe_rpc v)) [
  | inl safe ↦ safe
  | inr plain ↦ absurd (raise≢ok (rw plain at h))
]

pub record IsMinerChain (c : MinerChain) : Type 0 where
  pub rpc : is_safe_rpc c.rpc_url ≡ true
  pub based_token : IsContract c.based_token
  pub subnet_registry : IsContract c.subnet_registry
  pub market : IsContract c.market
  pub scoring_registry : IsContract c.scoring_registry
  pub chain : pos 1 ≤ℤ c.chain_id

-- The chain's part of a miner's configuration is accepted, as it is, exactly where the URL has one
-- of the three prefixes, each of the four addresses has the form of the pattern and is not the zero
-- address, and the chain's id is positive.
pub miner_chain_iff : (c : MinerChain) → (miner_chain c ≡ ok c) ↔ IsMinerChain c
unfolding miner_chain
miner_chain_iff c = (sound, complete)
  where
    sound : miner_chain c ≡ ok c → IsMinerChain c
    sound h =
        let (_, rpc, h1) = >>=-eq-ok (https_rpc c.rpc_url) _ h in
        let (_, based_token, h2) = >>=-eq-ok (valid_addr c.based_token) _ h1 in
        let (_, subnet_registry, h3) = >>=-eq-ok (valid_addr c.subnet_registry) _ h2 in
        let (_, market, h4) = >>=-eq-ok (valid_addr c.market) _ h3 in
        let (_, scoring_registry, h5) = >>=-eq-ok (valid_addr c.scoring_registry) _ h4 in
        let (_, chain, _) = >>=-eq-ok (positive_chain c.chain_id) _ h5 in
        record {
          rpc = https_rpc-safe c.rpc_url rpc;
          based_token = valid_addr-IsContract c.based_token based_token;
          subnet_registry = valid_addr-IsContract c.subnet_registry subnet_registry;
          market = valid_addr-IsContract c.market market;
          scoring_registry = valid_addr-IsContract c.scoring_registry scoring_registry;
          chain = ground arith;
        }

    complete : IsMinerChain c → miner_chain c ≡ ok c
    complete g =
        let positive : ltb_ℤ (pos 0) c.chain_id ≡ true = ground (arith, g.chain) in
        rw
          (
            g.rpc,
            (valid_addr_iff c.based_token).1 g.based_token,
            (valid_addr_iff c.subnet_registry).1 g.subnet_registry,
            (valid_addr_iff c.market).1 g.market,
            (valid_addr_iff c.scoring_registry).1 g.scoring_registry,
            positive,
          )
          refl

pub record IsValidatorChain (c : ValidatorChain) : Type 0 where
  pub rpc : is_safe_rpc c.rpc_url ≡ true
  pub based_token : IsContract c.based_token
  pub subnet_registry : IsContract c.subnet_registry
  pub scoring_registry : IsContract c.scoring_registry
  pub staking_vault : IsContract c.staking_vault

-- The same for a validator, whose chain's id is not checked.
pub validator_chain_iff : (c : ValidatorChain) → (validator_chain c ≡ ok c) ↔ IsValidatorChain c
unfolding validator_chain
validator_chain_iff c = (sound, complete)
  where
    sound : validator_chain c ≡ ok c → IsValidatorChain c
    sound h =
        let (_, rpc, h1) = >>=-eq-ok (https_rpc c.rpc_url) _ h in
        let (_, based_token, h2) = >>=-eq-ok (valid_addr c.based_token) _ h1 in
        let (_, subnet_registry, h3) = >>=-eq-ok (valid_addr c.subnet_registry) _ h2 in
        let (_, scoring_registry, h4) = >>=-eq-ok (valid_addr c.scoring_registry) _ h3 in
        let (_, staking_vault, _) = >>=-eq-ok (valid_addr c.staking_vault) _ h4 in
        record {
          rpc = https_rpc-safe c.rpc_url rpc;
          based_token = valid_addr-IsContract c.based_token based_token;
          subnet_registry = valid_addr-IsContract c.subnet_registry subnet_registry;
          scoring_registry = valid_addr-IsContract c.scoring_registry scoring_registry;
          staking_vault = valid_addr-IsContract c.staking_vault staking_vault;
        }

    complete : IsValidatorChain c → validator_chain c ≡ ok c
    complete g =
        rw
          (
            g.rpc,
            (valid_addr_iff c.based_token).1 g.based_token,
            (valid_addr_iff c.subnet_registry).1 g.subnet_registry,
            (valid_addr_iff c.scoring_registry).1 g.scoring_registry,
            (valid_addr_iff c.staking_vault).1 g.staking_vault,
          )
          refl

-- The gateway starts exactly where both registries have the form of an address, zero included, and
-- the URL has one of the three prefixes.
pub gateway_options_iff :
    (rpc_url subnet_registry scoring_registry : Str)
    → (gateway_options rpc_url subnet_registry scoring_registry ≡ ok tt)
      ↔ (IsAddress subnet_registry × IsAddress scoring_registry × (is_safe_rpc rpc_url ≡ true))
unfolding gateway_options
gateway_options_iff rpc_url subnet_registry scoring_registry = (
  λ h. (
    (addr_match_iff subnet_registry).0 (ground arith),
    (addr_match_iff scoring_registry).0 (ground arith),
    ground arith,
  ),
  λ (subnet, scoring, rpc).
      rw
        (
          (addr_match_iff subnet_registry).1 subnet,
          (addr_match_iff scoring_registry).1 scoring,
          rpc,
        )
        refl,
)
