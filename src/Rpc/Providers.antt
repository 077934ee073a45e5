-- ===== src/Rpc/Providers.antt =====
-- src/blockchain/utils/rpc-backoff.util.ts: `RpcProviderManager`. A call visits the providers in
-- their order; a visit has the provider's key, the times before and after the attempt, and what the
-- attempt does: `checked` of the observed chain, the run with its retries and the hash of its result.
pub mod Failover
use truthbounty_api.Prelude.{
  ℕ, ◌+◌, String, Bool, true, false, not, ◌&&◌, ◌||◌, Option, none, some, List, [], ◌∷◌,
  if◌then◌else◌, ltb, leb, ◌==◌, ◌===◌, string_eq,
}
use truthbounty_api.Prelude.Maps.{JsMap, get, put}
use truthbounty_api.Rpc.Errors.{Thrown, other}
use truthbounty_api.Rpc.Backoff.{Outcome, returned, threw}

pub record Circuit : Type 0 where
  pub is_open : Bool
  pub failures : ℕ
  pub opened_at : ℕ
  pub next_retry_at : ℕ
  pub rate_limit_until : ℕ

abbrev pub fresh_circuit : Circuit
fresh_circuit = record {
  is_open = false;
  failures = 0;
  opened_at = 0;
  next_retry_at = 0;
  rate_limit_until = 0;
}

pub record ProviderOptions : Type 0 where
  pub circuit_breaker_threshold : ℕ
  pub circuit_breaker_reset_ms : ℕ
  pub rate_limit_ms : ℕ

abbrev pub default_provider_options : ProviderOptions
default_provider_options = record {
  circuit_breaker_threshold = 3;
  circuit_breaker_reset_ms = 60000;
  rate_limit_ms = 1000;
}

-- `getProviderKey`; `numbered` gives the text `provider-<index>`.
abbrev pub key_by_index : (ℕ → String) → ℕ → String
key_by_index numbered n = if n == 0 then "primary" else if n == 1 then "secondary" else numbered n

abbrev pub key_by_url : (ℕ → String) → ℕ → Option String → String
key_by_url numbered n none = key_by_index numbered n
key_by_url numbered n (some url) = if url === "" then key_by_index numbered n else url

unfoldable pub get_provider_key : (ℕ → String) → Option String → Option String → ℕ → String
get_provider_key numbered none url n = key_by_url numbered n url
get_provider_key numbered (some name) url n =
    if name === "" then key_by_url numbered n url else name

pub record Visit (T : Type 0) : Type 0 where
  pub key : String
  pub before : ℕ
  pub after : ℕ
  pub attempt : Outcome T

-- The checks around an attempt: the chain id that was observed, when both are known, and the hash of
-- the result, when one is expected and the result has one.
abbrev pub differs {ℓ} : {A : Type ℓ} → (A → A → Bool) → Option A → Option A → Bool
differs same none b = false
differs same (some a) none = false
differs same (some a) (some b) = not (same a b)

unfoldable pub checked :
    {T : Type 0}
    → Option ℕ
    → Option ℕ
    → Option String
    → (T → Option String)
    → Thrown
    → Outcome T
    → Outcome T
checked chain seen hash hash_of mismatch (threw e) =
    if differs (λ a b. a == b) chain seen then threw mismatch else threw e
checked chain seen hash hash_of mismatch (returned t) =
    if differs (λ a b. a == b) chain seen
    then threw mismatch
    else if differs (λ a b. a === b) hash (hash_of t)
    then threw mismatch
    else returned t

-- The state under a key, created when it is missing.
abbrev pub or_fresh : Option Circuit → Circuit
or_fresh none = fresh_circuit
or_fresh (some c) = c

-- An open circuit whose time has come is closed again.
abbrev pub reset_due : ℕ → Circuit → Circuit
reset_due now c =
    if c.is_open && leb c.next_retry_at now then record c { is_open = false; failures = 0 } else c

-- Whether the provider is passed over: its circuit is open, or its rate limit lasts.
abbrev pub is_blocked : ℕ → Circuit → Bool
is_blocked now c = c.is_open || ltb now c.rate_limit_until

abbrev pub limited : Bool → ℕ → ProviderOptions → Circuit → Circuit
limited limit now o c =
    if limit
    then record c { rate_limit_until = now + o.rate_limit_ms; failures = c.failures + 1 }
    else record c { failures = c.failures + 1 }

abbrev pub tripped : ℕ → ProviderOptions → Circuit → Circuit
tripped now o c =
    if leb o.circuit_breaker_threshold c.failures
    then record c {
      is_open = true;
      opened_at = now;
      next_retry_at = now + o.circuit_breaker_reset_ms;
    }
    else c

unfoldable pub mark_failure : (Thrown → Bool) → ProviderOptions → ℕ → Thrown → Circuit → Circuit
mark_failure is_limit o now e c = tripped now o (limited (is_limit e) now o c)

unfoldable pub mark_success : Circuit → Circuit
mark_success c = record c {
  failures = 0;
  is_open = false;
  opened_at = 0;
  next_retry_at = 0;
  rate_limit_until = 0;
}

abbrev pub Circuits : Type 0
Circuits = JsMap String Circuit

module _ {T : Type 0} where
  -- The error at the end, the last one or a general one.
  abbrev pub give_up : Option Thrown → Outcome T
  give_up none = threw other
  give_up (some e) = threw e

  -- The circuits after a visit, and its outcome when there was an attempt.
  abbrev pub settle_visit :
      (Thrown → Bool) → ProviderOptions → Visit T → Circuit → Outcome T → Circuit
  settle_visit is_limit o v c (returned t) = mark_success c
  settle_visit is_limit o v c (threw e) = mark_failure is_limit o v.after e c

  -- The circuit that a visit finds, reset when it is due.
  abbrev pub at_visit : Visit T → Circuits → Circuit
  at_visit v cs = reset_due v.before (or_fresh (get v.key cs))

  abbrev pub visited : (Thrown → Bool) → ProviderOptions → Visit T → Circuits → Circuits
  visited is_limit o v cs =
      put v.key
        (if is_blocked v.before (at_visit v cs)
          then at_visit v cs
          else settle_visit is_limit o v (at_visit v cs) v.attempt)
        cs

  -- How the loop goes on after an attempt.
  abbrev pub proceed : Outcome T → Circuits → Circuits × Outcome T → Circuits × Outcome T
  proceed (returned t) cs rest = (cs, returned t)
  proceed (threw e) cs rest = rest

  abbrev pub last_error : Bool → Outcome T → Option Thrown → Option Thrown
  last_error blocked (returned t) last = last
  last_error true (threw e) last = last
  last_error false (threw e) last = some e

  -- The loop of `call` over the providers.
  unfoldable pub call_from :
      (Thrown → Bool)
      → ProviderOptions
      → List (Visit T)
      → Option Thrown
      → Circuits
      → Circuits × Outcome T
  call_from is_limit o [] last cs = (cs, give_up last)
  call_from is_limit o (v ∷ vs) last cs =
      let cs' = visited is_limit o v cs in
      let blocked = is_blocked v.before (at_visit v cs) in
      let rest = call_from is_limit o vs (last_error blocked v.attempt last) cs' in
      if blocked then rest else proceed v.attempt cs' rest

  unfoldable pub call :
      (Thrown → Bool) → ProviderOptions → List (Visit T) → Circuits → Circuits × Outcome T
  call is_limit o vs cs = call_from is_limit o vs none cs
