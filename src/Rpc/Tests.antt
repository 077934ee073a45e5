-- ===== src/Rpc/Tests.antt =====
-- The theorems on RPC calls at concrete outcomes.
use truthbounty_api.Prelude.{ℕ, zero, suc, ◌≤◌, none, List, [], ◌∷◌, Bool, true, string_eq, arith}
use truthbounty_api.Prelude.Sorting.{All}
use truthbounty_api.Rpc.Errors.{Thrown, other}
use truthbounty_api.Rpc.Backoff.{Outcome, returned, threw, default_options, with_rpc_backoff}
use truthbounty_api.Rpc.Providers.{default_provider_options, Visit, call}
use truthbounty_api.Rpc.Providers.Failover.{Run, call-Run}
use truthbounty_api.Rpc.Backoff.Attempts.{
  Attempted, with_rpc_backoff-Attempted, with_rpc_backoff-delays,
}

abbrev always : Thrown → Bool
always e = true

-- Two failures, then an answer.
abbrev third_time : ℕ → Outcome ℕ
third_time zero = threw other
third_time (suc zero) = threw other
third_time (suc (suc n)) = returned 7

abbrev full : ℕ → ℕ → ℕ
full i n = n

with_rpc_backoff-Attempted_example :
    Attempted
      (default_options always)
      third_time
      0
      5
      (with_rpc_backoff full (default_options always) third_time)
with_rpc_backoff-Attempted_example =
    with_rpc_backoff-Attempted full (default_options always) third_time

with_rpc_backoff-delays_example :
    All (λ d. d ≤ 10000) (with_rpc_backoff full (default_options always) third_time).delays
with_rpc_backoff-delays_example =
    with_rpc_backoff-delays full (default_options always) third_time (λ i n. ground arith)

abbrev visits : List (Visit ℕ)
visits =
    record { key = "primary"; before = 1; after = 2; attempt = threw other }
    ∷ record { key = "secondary"; before = 3; after = 4; attempt = returned 7 }
    ∷ []

call-Run_example :
    Run always default_provider_options visits none []
      (call always default_provider_options visits []).0
      (call always default_provider_options visits []).1
call-Run_example = call-Run always default_provider_options visits []
