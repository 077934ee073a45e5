-- ===== src/Rpc/Backoff/Attempts.antt =====
-- How often a call is tried, what comes out, and how long it sleeps in between.
use truthbounty_api.Prelude.{
  ℕ, zero, suc, ◌+◌, ◌≤◌, ◌<◌, ◌≡◌, refl, sym, ap, ◌∙◌, inl, inr, ◌⊎◌, true, false, length, arith,
  Bool-cases,
}
use truthbounty_api.Prelude.Sorting.{All}
use truthbounty_api.Rpc.Backoff.{
  Outcome, RpcBackoffOptions, exponential, compute_delay, Run, slept, stop, retries, backoff_from,
  with_rpc_backoff,
}

delay_bound :
    (draw : ℕ → ℕ → ℕ) (o : RpcBackoffOptions) (retry : ℕ)
    → ((i n : ℕ) → draw i n ≤ n)
    → compute_delay draw o retry ≤ o.max_delay_ms
unfolding compute_delay
delay_bound draw o retry fair = ground (arith, fair retry (exponential o retry))

module _ {T : Type 0} where
  -- A run from call `first` on: it ends with call `last`, its outcome; every call before it threw
  -- an error worth a retry; the last one does not, or no retry is left; it slept between any two.
  pub record Attempted (o : RpcBackoffOptions) (call : ℕ → Outcome T) (first left : ℕ) (r : Run T)
      : Type 0 where
    pub tries : ℕ
    pub within : tries ≤ left
    pub result : r.outcome ≡ call (first + tries)
    pub before : (i : ℕ) → i < tries → retries o (call (first + i)) ≡ true
    pub ended : (retries o (call (first + tries)) ≡ false) ⊎ (tries ≡ left)
    pub sleeps : length r.delays ≡ tries

  from_start :
      (o : RpcBackoffOptions) (call : ℕ → Outcome T) (first : ℕ)
      → retries o (call (first + 0)) ≡ retries o (call first)
  from_start o call first = ap (λ n. retries o (call n)) (ground arith)

  once-Attempted :
      (o : RpcBackoffOptions) (call : ℕ → Outcome T) (left first : ℕ)
      → retries o (call first) ≡ false
      → Attempted o call first left (stop (call first))
  once-Attempted o call left first may_not = record {
    tries = 0;
    within = ground arith;
    result = ap call (ground arith);
    before = λ i h. ground arith;
    ended = inl (from_start o call first ∙ may_not);
    sleeps = refl;
  }

  retried :
      (o : RpcBackoffOptions) (call : ℕ → Outcome T) (first tries i : ℕ)
      → retries o (call first) ≡ true
      → ((j : ℕ) → j < tries → retries o (call (first + 1 + j)) ≡ true)
      → i < tries + 1
      → retries o (call (first + i)) ≡ true
  retried o call first tries zero may rest h = from_start o call first ∙ may
  retried o call first tries (suc i) may rest h =
      ap (λ n. retries o (call n)) (omega arith) ∙ rest i (omega arith)

  again-Attempted :
      (o : RpcBackoffOptions) (call : ℕ → Outcome T) (left first delay : ℕ) (r : Run T)
      → retries o (call first) ≡ true
      → Attempted o call (first + 1) left r
      → Attempted o call first (suc left) (slept delay r)
  again-Attempted o call left first delay r may h =
      let tries = h.tries in
      let within = h.within in
      let shift : first + 1 + tries ≡ first + (tries + 1) = omega arith in
      let sleeps = h.sleeps in
      record {
        tries = tries + 1;
        within = omega arith;
        result = h.result ∙ ap call shift;
        before = λ i below. retried o call first tries i may h.before below;
        ended = elim h.ended [
          | inl final ↦ inl (ap (λ n. retries o (call n)) (sym shift) ∙ final)
          | inr spent ↦ inr (omega arith)
        ];
        sleeps = omega arith;
      }

  backoff_from-Attempted :
      (draw : ℕ → ℕ → ℕ) (o : RpcBackoffOptions) (call : ℕ → Outcome T) (left first : ℕ)
      → Attempted o call first left (backoff_from draw o call left first)
  unfolding backoff_from
  backoff_from-Attempted draw o call zero first = record {
    tries = 0;
    within = ground arith;
    result = ap call (ground arith);
    before = λ i h. ground arith;
    ended = inr refl;
    sleeps = refl;
  }
  backoff_from-Attempted draw o call (suc left) first = elim (Bool-cases (retries o (call first))) [
    | inl may ↦ rw may (
        again-Attempted o call left first (compute_delay draw o first)
          (backoff_from draw o call left (first + 1)) may
          (backoff_from-Attempted draw o call left (first + 1)))
    | inr may_not ↦ rw may_not (once-Attempted o call (suc left) first may_not)
  ]

  -- A run of `withRpcBackoff` returns after at most `maxRetries` retries. It ends with its last call,
  -- returning or throwing what that call did; every call before it threw an error worth a retry;
  -- the last call returned, threw an error that is not worth a retry, or was the last one allowed;
  -- and it slept once between any two calls.
  pub with_rpc_backoff-Attempted :
      (draw : ℕ → ℕ → ℕ) (o : RpcBackoffOptions) (call : ℕ → Outcome T)
      → Attempted o call 0 o.max_retries (with_rpc_backoff draw o call)
  unfolding with_rpc_backoff
  with_rpc_backoff-Attempted draw o call = backoff_from-Attempted draw o call o.max_retries 0

  backoff_from-delays :
      (draw : ℕ → ℕ → ℕ) (o : RpcBackoffOptions) (call : ℕ → Outcome T) (left first : ℕ)
      → ((i n : ℕ) → draw i n ≤ n)
      → All (λ d. d ≤ o.max_delay_ms) (backoff_from draw o call left first).delays
  unfolding backoff_from
  backoff_from-delays draw o call zero first fair = tt
  backoff_from-delays draw o call (suc left) first fair =
      elim (Bool-cases (retries o (call first))) [
        | inl may ↦
            rw may
              (delay_bound draw o first fair, backoff_from-delays draw o call left (first + 1) fair)
        | inr may_not ↦ rw may_not tt
      ]

  -- No sleep of a run is longer than `maxDelayMs`, with and without jitter, where the random part
  -- does not exceed its bound.
  pub with_rpc_backoff-delays :
      (draw : ℕ → ℕ → ℕ) (o : RpcBackoffOptions) (call : ℕ → Outcome T)
      → ((i n : ℕ) → draw i n ≤ n)
      → All (λ d. d ≤ o.max_delay_ms) (with_rpc_backoff draw o call).delays
  unfolding with_rpc_backoff
  with_rpc_backoff-delays draw o call fair = backoff_from-delays draw o call o.max_retries 0 fair
