-- ===== src/Prelude/Http.antt =====
-- The replies of an aiohttp handler: a status and a JSON body. What a handler raises, aiohttp
-- answers with a 500.
use Prim.Native.Nat.{ℕ}
use Prim.Native.String.{String}
use based_ai.Prelude.Result.{key_error, value_error, type_error, Result, ok, raise}
use based_ai.Prelude.Text.{codes}
use based_ai.Prelude.Json.{Json, str, obj, field, end}
use based_ai.Prelude.Early.{Early, go, stop, fail}

pub record Reply : Type 0 where
  pub status : ℕ
  pub body : Json

unfoldable pub error_reply : ℕ → String → Reply
error_reply status message = record {
  status = status;
  body = obj (field "error" (str (codes message)) end);
}

-- `except (KeyError, ValueError, TypeError): return reply`
abbrev pub or_reply {ℓ} : {A : Type ℓ} → Reply → Result A → Early Reply A
or_reply reply (ok a) = go a
or_reply reply (raise key_error) = stop reply
or_reply reply (raise value_error) = stop reply
or_reply reply (raise type_error) = stop reply
or_reply reply (raise e) = fail e

-- `except Exception: return reply`
abbrev pub or_any_reply {ℓ} : {A : Type ℓ} → Reply → Result A → Early Reply A
or_any_reply reply (ok a) = go a
or_any_reply reply (raise e) = stop reply
