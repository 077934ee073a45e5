-- ===== src/Rpc/Errors.antt =====
-- src/blockchain/utils/rpc-backoff.util.ts: which errors are worth a retry. An error is an object
-- with the fields that the code reads, or some other value; `lower` is the language's toLowerCase.
use truthbounty_api.Prelude.{
  ℕ, String, Bool, true, false, ◌&&◌, ◌||◌, Option, none, some, ◌===◌, string_eq, ◌==◌, leb, ltb,
}
use text.Mathlib.Text.{find?}

-- The code of an error: a JSON-RPC number, as the number after its minus sign, or a text.
pub data Code : Type 0 where
  negative : ℕ → Code
  named : String → Code

pub record RpcError : Type 0 where
  pub status : Option ℕ
  pub status_code : Option ℕ
  pub response_status : Option String
  pub code : Option Code
  pub message : Option String
  pub short_message : Option String

pub data Thrown : Type 0 where
  object : RpcError → Thrown
  other : Thrown

abbrev pub is : Option ℕ → ℕ → Bool
is none n = false
is (some m) n = m == n

abbrev pub found : Option ℕ → Bool
found none = false
found (some i) = true

-- `text.includes(part)`
abbrev pub includes : String → String → Bool
includes part text = found (find? text part)

abbrev pub mentions : String → Option String → Bool
mentions part none = false
mentions part (some text) = includes part text

abbrev pub is_limit_code : Option Code → Bool
is_limit_code none = false
is_limit_code (some (negative n)) = n == 32005
is_limit_code (some (named t)) = false

-- `a ?? b`
abbrev pub coalesce {ℓ} : {A : Type ℓ} → Option A → Option A → Option A
coalesce (some a) b = some a
coalesce none b = b

abbrev pub text_or_empty : Option String → String
text_or_empty none = ""
text_or_empty (some t) = t

abbrev pub speaks_of_limit : String → Bool
speaks_of_limit t =
    includes "429" t
    || includes "too many requests" t
    || includes "rate limit" t
    || includes "rate-limit" t
    || includes "exceeded" t

unfoldable pub is_rate_limit_error : (String → String) → Thrown → Bool
is_rate_limit_error lower other = false
is_rate_limit_error lower (object e) =
    is e.status 429
    || is e.status_code 429
    || mentions "429" e.response_status
    || is_limit_code e.code
    || speaks_of_limit (lower (text_or_empty (coalesce e.message e.short_message)))

abbrev pub is_transient_name : String → Bool
is_transient_name t =
    t === "SERVER_ERROR"
    || t === "TIMEOUT"
    || t === "NETWORK_ERROR"
    || t === "ECONNRESET"
    || t === "ECONNREFUSED"
    || t === "ETIMEDOUT"
    || t === "EAI_AGAIN"

abbrev pub is_transient_code : Option Code → Bool
is_transient_code none = false
is_transient_code (some (negative n)) = false
is_transient_code (some (named t)) = is_transient_name t

abbrev pub is_server_status : Option ℕ → Bool
is_server_status none = false
is_server_status (some n) = leb 500 n && ltb n 600

abbrev pub is_transient : Thrown → Bool
is_transient other = false
is_transient (object e) =
    is_transient_code e.code || is_server_status (coalesce e.status e.status_code)

unfoldable pub is_retryable_rpc_error : (String → String) → Thrown → Bool
is_retryable_rpc_error lower t = is_rate_limit_error lower t || is_transient t
