-- ===== src/Miner/Flow.antt =====
-- The control flow of a request handler of miner/src/basedai_miner/runtime.py: a stage goes on,
-- returns `_err(message)` early, or raises to the handler's `except` clauses.
use based_ai.Prelude.{String}
use based_ai.Prelude.Early.{Early}
pub use based_ai.Prelude.Early.{
  go, stop, fail, ◌>>=◌, ◌>>◌, lift, refuse_if, stop_if, lift-eq-go, refuse_if-eq-go, stop_if-eq-go,
  go-injective, Ensures, Ensures-go, Ensures-bind, Early-cases,
}

abbrev pub Stage {ℓ} : Type ℓ → Type ℓ
Stage A = Early String A
