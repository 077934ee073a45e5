-- ===== src/Rpc/Backoff.antt =====
-- src/blockchain/utils/rpc-backoff.util.ts: `withRpcBackoff`. The function that is called is given
-- by what its calls do, one after another; `draw` is the random part of the jitter.
pub mod Attempts
use truthbounty_api.Prelude.{
  ℕ, zero, suc, ◌+◌, ◌*◌, ◌^◌, min, Bool, true, false, List, [], ◌∷◌, if◌then◌else◌,
}
use truthbounty_api.Rpc.Errors.{Thrown}

-- What a call does.
pub data Outcome (T : Type 0) : Type 0 where
  returned : T → Outcome T
  threw : Thrown → Outcome T

pub record RpcBackoffOptions : Type 0 where
  pub max_retries : ℕ
  pub base_delay_ms : ℕ
  pub max_delay_ms : ℕ
  pub jitter : Bool
  pub is_retryable : Thrown → Bool

-- The defaults of the options.
abbrev pub default_options : (Thrown → Bool) → RpcBackoffOptions
default_options is_retryable = record {
  max_retries = 5;
  base_delay_ms = 250;
  max_delay_ms = 10000;
  jitter = true;
  is_retryable = is_retryable;
}

abbrev pub exponential : RpcBackoffOptions → ℕ → ℕ
exponential o retry = min o.max_delay_ms (o.base_delay_ms * 2 ^ retry)

-- `computeDelay(retry + 1, ...)`, where `draw` gives Math.floor(Math.random() * n).
unfoldable pub compute_delay : (ℕ → ℕ → ℕ) → RpcBackoffOptions → ℕ → ℕ
compute_delay draw o retry =
    if o.jitter then draw retry (exponential o retry) else exponential o retry

-- The end of a run: what it returns or throws, and the times it slept.
pub record Run (T : Type 0) : Type 0 where
  pub outcome : Outcome T
  pub delays : List ℕ

abbrev pub slept : {T : Type 0} → ℕ → Run T → Run T
slept delay r = record r { delays = delay ∷ r.delays }

module _ {T : Type 0} where
  abbrev pub stop : Outcome T → Run T
  stop out = record { outcome = out; delays = [] }

  -- After a call: `again` is the rest of the loop.
  abbrev pub after_call : Bool → ℕ → Outcome T → Run T → Run T
  after_call may_retry delay out again = if may_retry then slept delay again else stop out

  abbrev pub retries : RpcBackoffOptions → Outcome T → Bool
  retries o (returned t) = false
  retries o (threw e) = o.is_retryable e

  -- The loop with `left` retries left, at its call number `attempt`.
  unfoldable pub backoff_from : (ℕ → ℕ → ℕ) → RpcBackoffOptions → (ℕ → Outcome T) → ℕ → ℕ → Run T
  backoff_from draw o call zero attempt = stop (call attempt)
  backoff_from draw o call (suc left) attempt =
      after_call (retries o (call attempt)) (compute_delay draw o attempt) (call attempt)
        (backoff_from draw o call left (attempt + 1))

  unfoldable pub with_rpc_backoff : (ℕ → ℕ → ℕ) → RpcBackoffOptions → (ℕ → Outcome T) → Run T
  with_rpc_backoff draw o call = backoff_from draw o call o.max_retries 0
