-- ===== src/Miner/Transport.antt =====
-- miner/src/basedai_miner/http_server.py: the announcement that a miner sends to the gateway. The
-- routes there only pass a body to a handler.
use based_ai.Prelude.{Bool, true, false, [], ◌∷◌}
use based_ai.Prelude.Int.{ℤ}
use based_ai.Prelude.Result.{Result, ok, raise, ◌>>=◌}
use based_ai.Prelude.Text.{Str, Bytes, codes, with_0x}
use based_ai.Prelude.Json.{Json, str, int, obj, field, end}
use based_ai.Web3.{Web3, Account, bytes32, uint256, string}

-- The miner's own copy of the gateway's convention.
unfoldable pub announce_digest : Web3 → ℤ → Str → ℤ → Result Bytes
announce_digest w brain_id url ts = do
  encoded ← w.abi_encode (
      bytes32 (w.keccak_text (codes "BasedAI:MinerAnnounce:v1"))
      ∷ uint256 brain_id
      ∷ string url
      ∷ uint256 ts
      ∷ [])
  ok (w.keccak encoded)

unfoldable pub sign_announce : Web3 → Account → ℤ → Str → ℤ → Result Str
unfolding announce_digest
sign_announce w account brain_id url ts = do
  digest ← announce_digest w brain_id url ts
  ok (account.sign_message digest)

abbrev pub announce_payload : Account → Str → ℤ → Str → Json
announce_payload account public_url ts signature = obj (
    field "address" (str account.address) (
      field "url" (str public_url)
        (field "ts" (int ts) (field "signature" (str (with_0x signature)) end))))

-- Whether the gateway took it: a call that raises, or a status that is no success, is `raise`.
abbrev succeeded : Result (Unit {0}) → Bool
succeeded (ok done) = true
succeeded (raise e) = false

-- `announce_once`, at the time `ts`. The signing is outside the `try`.
unfoldable pub announce_once :
    Web3 → Account → ℤ → Str → ℤ → (Json → Result (Unit {0})) → Result Bool
unfolding sign_announce
announce_once w account brain_id public_url ts post = do
  signature ← sign_announce w account brain_id public_url ts
  ok (succeeded (post (announce_payload account public_url ts signature)))
