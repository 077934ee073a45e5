-- ===== src/Rpc/Providers/Failover.antt =====
-- src/blockchain/utils/rpc-backoff.util.ts: which providers `call` tries, and what each visit does to
-- the provider's circuit, by the stored times and counts.
use truthbounty_api.Prelude.{
  ℕ, ◌+◌, ◌≤◌, ◌<◌, String, ◌≡◌, ◌≢◌, refl, ap, ◌∙◌, inl, inr, Option, none, some, List, [], ◌∷◌,
  Bool, true, false, if◌then◌else◌, string_eq, arith, Bool-cases, beq_ne,
}
use truthbounty_api.Prelude.Maps.{get, put, get-put, get-put_self}
use truthbounty_api.Rpc.Errors.{Thrown, other}
use truthbounty_api.Rpc.Backoff.{Outcome, returned, threw}
use truthbounty_api.Rpc.Providers.{
  Circuit, Circuits, fresh_circuit, ProviderOptions, Visit, or_fresh, reset_due, is_blocked,
  mark_failure, mark_success, settle_visit, at_visit, proceed, last_error, call_from, call,
}

-- A provider may be tried: its circuit is closed or due, and its rate limit is over.
pub record IsFree (now : ℕ) (c : Circuit) : Type 0 where
  pub due : c.is_open ≡ true → c.next_retry_at ≤ now
  pub limit_over : c.rate_limit_until ≤ now

-- The circuit `d` of a provider that is passed over, from the circuit `c`.
pub record PassedOver (now : ℕ) (c d : Circuit) : Type 0 where
  pub closed : c.is_open ≡ false → d ≡ c
  pub waits : c.is_open ≡ true → now < c.next_retry_at → d ≡ c
  pub due :
      c.is_open ≡ true → c.next_retry_at ≤ now → d ≡ record c { is_open = false; failures = 0 }

-- The circuit `d` after a failure at a time, from the circuit `c`.
pub record Counted (is_limit : Thrown → Bool) (o : ProviderOptions) (now : ℕ) (e : Thrown)
    (c d : Circuit) : Type 0 where
  pub again : c.is_open ≡ false → d.failures ≡ c.failures + 1
  pub anew : c.is_open ≡ true → d.failures ≡ 1
  pub limits : is_limit e ≡ true → d.rate_limit_until ≡ now + o.rate_limit_ms
  pub ordinary : is_limit e ≡ false → d.rate_limit_until ≡ c.rate_limit_until
  pub opens :
      o.circuit_breaker_threshold ≤ d.failures
      → (d.is_open ≡ true)
        × (d.opened_at ≡ now)
        × (d.next_retry_at ≡ now + o.circuit_breaker_reset_ms)
  pub stays : d.failures < o.circuit_breaker_threshold → d.is_open ≡ false

blocked-PassedOver :
    (now : ℕ) (c : Circuit)
    → is_blocked now (reset_due now c) ≡ true
    → ¬ IsFree now c × PassedOver now c (reset_due now c)
blocked-PassedOver now c h = (
  λ f. let due = f.due in let over = f.limit_over in ground arith,
  record { closed = λ p. ground arith; waits = λ p q. ground arith; due = λ p q. ground arith },
)

unblocked-IsFree : (now : ℕ) (c : Circuit) → is_blocked now (reset_due now c) ≡ false → IsFree now c
unblocked-IsFree now c h = record { due = λ p. ground arith; limit_over = ground arith }

mark_failure-Counted :
    (is_limit : Thrown → Bool) (o : ProviderOptions) (before now : ℕ) (e : Thrown) (c : Circuit)
    → IsFree before c
    → Counted is_limit o now e c (mark_failure is_limit o now e (reset_due before c))
unfolding mark_failure
mark_failure-Counted is_limit o before now e c f =
    let due = f.due in
    record {
      again = λ p. ground arith;
      anew = λ p. ground arith;
      limits = λ p. ground arith;
      ordinary = λ p. ground arith;
      opens = λ p. ground arith;
      stays = λ p. ground arith;
    }

module _ {T : Type 0} (is_limit : Thrown → Bool) (o : ProviderOptions) where
  -- The circuit of a visit's provider, a fresh one where none is stored.
  abbrev pub circuit_of : Visit T → Circuits → Circuit
  circuit_of v cs = or_fresh (get v.key cs)

  -- The circuits after a visit: the provider's own is `d`, all others are as before.
  pub record Changed (v : Visit T) (cs : Circuits) (d : Circuit) (ds : Circuits) : Type 0 where
    pub own : get v.key ds ≡ some d
    pub others : (k : String) → v.key ≢ k → get k ds ≡ get k cs

  -- The visits of a call, from the error so far and the circuits to the circuits and the outcome.
  pub data Run : List (Visit T) → Option Thrown → Circuits → Circuits → Outcome T → Type 0 where
    none_tried : (cs : Circuits) → Run [] none cs cs (threw other)
    all_failed : (e : Thrown) (cs : Circuits) → Run [] (some e) cs cs (threw e)
    passed_over :
        (v : Visit T) (vs : List (Visit T)) (last : Option Thrown) (cs ds es : Circuits)
        (d : Circuit) (out : Outcome T)
        → ¬ IsFree v.before (circuit_of v cs)
        → PassedOver v.before (circuit_of v cs) d
        → Changed v cs d ds
        → Run vs last ds es out
        → Run (v ∷ vs) last cs es out
    failed :
        (v : Visit T) (vs : List (Visit T)) (last : Option Thrown) (cs ds es : Circuits)
        (d : Circuit) (out : Outcome T) (e : Thrown)
        → IsFree v.before (circuit_of v cs)
        → v.attempt ≡ threw e
        → Counted is_limit o v.after e (circuit_of v cs) d
        → Changed v cs d ds
        → Run vs (some e) ds es out
        → Run (v ∷ vs) last cs es out
    answered :
        (v : Visit T) (vs : List (Visit T)) (last : Option Thrown) (cs ds : Circuits) (t : T)
        → IsFree v.before (circuit_of v cs)
        → v.attempt ≡ returned t
        → Changed v cs fresh_circuit ds
        → Run (v ∷ vs) last cs ds (returned t)

  put-Changed : (v : Visit T) (cs : Circuits) (d : Circuit) → Changed v cs d (put v.key d cs)
  put-Changed v cs d = record {
    own = get-put_self v.key d cs;
    others =
        λ k ne. get-put v.key k d cs ∙ ap (λ b. if b then some d else get k cs) (beq_ne v.key k ne);
  }

  attempt-Run :
      (v : Visit T) (vs : List (Visit T)) (last : Option Thrown) (cs : Circuits) (out : Outcome T)
      → v.attempt ≡ out
      → is_blocked v.before (at_visit v cs) ≡ false
      → (let ds = put v.key (settle_visit is_limit o v (at_visit v cs) out) cs in
          let r = call_from is_limit o vs (last_error false out last) ds in
          Run vs (last_error false out last) ds r.0 r.1
          → Run (v ∷ vs) last cs (proceed out ds r).0 (proceed out ds r).1)
  unfolding mark_success
  attempt-Run v vs last cs (returned t) h free rest =
      answered v vs last cs _ t (unblocked-IsFree v.before (circuit_of v cs) free) h
        (put-Changed v cs fresh_circuit)
  attempt-Run v vs last cs (threw e) h free rest =
      let c = circuit_of v cs in
      let may = unblocked-IsFree v.before c free in
      failed v vs last cs _ _ (mark_failure is_limit o v.after e (reset_due v.before c)) _ e may h
        (mark_failure-Counted is_limit o v.before v.after e c may) (put-Changed v cs _) rest

  last_kept : (out : Outcome T) (last : Option Thrown) → last_error true out last ≡ last
  last_kept (returned t) last = refl
  last_kept (threw e) last = refl

  call_from-Run :
      (vs : List (Visit T)) (last : Option Thrown) (cs : Circuits)
      → Run vs last cs (call_from is_limit o vs last cs).0 (call_from is_limit o vs last cs).1
  unfolding call_from
  call_from-Run [] none cs = none_tried cs
  call_from-Run [] (some e) cs = all_failed e cs
  call_from-Run (v ∷ vs) last cs = elim (Bool-cases (is_blocked v.before (at_visit v cs))) [
    | inl blocked ↦
        let over = blocked-PassedOver v.before (circuit_of v cs) blocked in
        rw (blocked, last_kept v.attempt last)
          (passed_over v vs last cs _ _ (at_visit v cs) _ over.0 over.1 (put-Changed v cs _)
            (call_from-Run vs last (put v.key (at_visit v cs) cs)))
    | inr free ↦
        let ds = put v.key (settle_visit is_limit o v (at_visit v cs) v.attempt) cs in
        rw free (
          attempt-Run v vs last cs v.attempt refl free
            (call_from-Run vs (last_error false v.attempt last) ds))
  ]

  -- A call visits the providers in their order. It passes over one whose circuit is open with its
  -- next try still to come, or whose rate limit lasts; the circuit is as before, but closed and with
  -- no failures where that try was due. It tries each other one: if it throws, its failures go up by
  -- one (from 0 where its circuit was open), a rate limit starts if the error is of that kind and
  -- only then, and the circuit is open afterwards, until the reset time after the failure, exactly
  -- if the failures reach the threshold; if it returns, the circuit is the fresh one, and the call
  -- ends with what it returned. Without an answer the call throws the error of the provider tried
  -- last, or a general one if none was tried. Each visit leaves the circuits of other keys alone.
  pub call-Run :
      (vs : List (Visit T)) (cs : Circuits)
      → Run vs none cs (call is_limit o vs cs).0 (call is_limit o vs cs).1
  unfolding call
  call-Run vs cs = call_from-Run vs none cs
