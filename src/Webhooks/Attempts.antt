-- ===== src/Webhooks/Attempts.antt =====
-- Runs of attempts at one delivery, and of deliveries to one endpoint. The queue library calls the
-- processor again after a failure, until the job's `attempts` are used up; the counter that it
-- shows to the first attempt is the argument `first`.
use truthbounty_api.Prelude.{
  ℕ, suc, ◌+◌, ◌≤◌, String, ◌≡◌, refl, sym, ap, ◌∙◌, subst, inl, inr, Option, none, some, Bool,
  true, false, not, List, [], ◌∷◌, length, arith, ltb, string_eq, Bool-cases, if◌then◌else◌,
}
use truthbounty_api.Prelude.Sorting.{All}
use truthbounty_api.Prelude.Maps.{get, get-put_self}
use truthbounty_api.Webhooks.Types.{
  Webhook, WebhookDelivery, DeliveryStatus, delivered, failed, DeliverJobData, Store,
}
use truthbounty_api.Webhooks.Processor.{
  Answer, response, failure, count_failure, reset_failures, update_delivery, update_webhook,
  count_if, final_status, succeeded, not_delivered, process,
}
use truthbounty_api.Webhooks.Steps.{update_delivery-webhooks}

-- What one attempt comes to, how long it takes and when it ends.
pub record Attempt : Type 0 where
  pub answer : Answer
  pub latency : ℕ
  pub now : ℕ

abbrev pub is_failure : Answer → Bool
is_failure (response code body) = false
is_failure (failure message code) = true

-- An attempt that is answered delivers; one that fails is a dead letter past the retries.
abbrev pub outcome : Bool → Answer → DeliveryStatus
outcome final (response code body) = delivered
outcome final (failure message code) = final_status final

outcome_answered : (final : Bool) (a : Answer) → is_failure a ≡ false → outcome final a ≡ delivered
outcome_answered final (response code body) h = refl
outcome_answered final (failure message code) h = cc

outcome_failed :
    (final : Bool) (a : Answer) → is_failure a ≡ true → outcome final a ≡ final_status final
outcome_failed final (response code body) h = cc
outcome_failed final (failure message code) h = refl

module _ {V : Type 0} where
  -- The row of a delivery, with its status.
  pub record Stored (id : String) (status : DeliveryStatus) (s : Store V) : Type 0 where
    pub row : WebhookDelivery V
    pub found : get id s.deliveries ≡ some row
    pub has_status : row.status ≡ status

  abbrev pub run_job : DeliverJobData V → ℕ → List Attempt → Store V → Store V
  run_job job first [] s = s
  run_job job first (x ∷ xs) s =
      let t = process job first x.latency x.now x.answer s in
      let rest = run_job job (suc first) xs t.0 in if t.1 then t.0 else rest

  update_delivery-Stored :
      (id : String) (f : WebhookDelivery V → WebhookDelivery V) (status : DeliveryStatus)
      (d : WebhookDelivery V) (s : Store V)
      → get id s.deliveries ≡ some d
      → (f d).status ≡ status
      → Stored id status (update_delivery id f (get id s.deliveries) s)
  update_delivery-Stored id f status d s found has =
      subst (λ o. Stored id status (update_delivery id f o s)) (sym found)
        (record { row = f d; found = get-put_self id (f d) s.deliveries; has_status = has })

  update_webhook-deliveries :
      (id : String) (f : Webhook → Webhook) (o : Option Webhook) (s : Store V)
      → (update_webhook id f o s).deliveries ≡ s.deliveries
  update_webhook-deliveries id f none s = refl
  update_webhook-deliveries id f (some w) s = refl

  same-Stored :
      (id : String) (status : DeliveryStatus) (s t : Store V)
      → t.deliveries ≡ s.deliveries
      → Stored id status s
      → Stored id status t
  same-Stored id status s t same h = record {
    row = h.row;
    found = ap (get id) same ∙ h.found;
    has_status = h.has_status;
  }

  count_if-deliveries :
      (final : Bool) (id : String) (s : Store V) → (count_if final id s).deliveries ≡ s.deliveries
  count_if-deliveries false id s = refl
  count_if-deliveries true id s = update_webhook-deliveries id count_failure (get id s.webhooks) s

  process-Stored :
      (job : DeliverJobData V) (attempts_made latency now : ℕ) (answer : Answer)
      (d : WebhookDelivery V) (s : Store V)
      → get job.delivery_id s.deliveries ≡ some d
      → Stored job.delivery_id
          (outcome (ltb job.max_retries attempts_made) answer)
          (process job attempts_made latency now answer s).0
  unfolding process
  process-Stored job attempts_made latency now (response code body) d s found =
      let f = succeeded code body attempts_made latency now in
      let t = update_delivery job.delivery_id f (get job.delivery_id s.deliveries) s in
      same-Stored job.delivery_id delivered t
        (update_webhook job.webhook_id reset_failures (get job.webhook_id t.webhooks) t)
        (update_webhook-deliveries job.webhook_id reset_failures (get job.webhook_id t.webhooks) t)
        (update_delivery-Stored job.delivery_id f delivered d s found refl)
  process-Stored job attempts_made latency now (failure message code) d s found =
      let final = ltb job.max_retries attempts_made in
      let f = not_delivered final message code attempts_made latency now in
      let t = update_delivery job.delivery_id f (get job.delivery_id s.deliveries) s in
      same-Stored job.delivery_id (final_status final) t (count_if final job.webhook_id t)
        (count_if-deliveries final job.webhook_id t)
        (update_delivery-Stored job.delivery_id f (final_status final) d s found refl)

  process-done :
      (job : DeliverJobData V) (attempts_made latency now : ℕ) (answer : Answer) (s : Store V)
      → (process job attempts_made latency now answer s).1 ≡ not (is_failure answer)
  unfolding process
  process-done job attempts_made latency now (response code body) s = refl
  process-done job attempts_made latency now (failure message code) s = refl

  -- A run with an answered attempt, wherever its counter starts.
  run_job_answered :
      (job : DeliverJobData V) (first : ℕ) (xs : List Attempt) (d : WebhookDelivery V) (s : Store V)
      → ¬ All (λ y. is_failure y.answer ≡ true) xs
      → get job.delivery_id s.deliveries ≡ some d
      → Stored job.delivery_id delivered (run_job job first xs s)
  run_job_answered job first [] d s some_answer found = absurd (some_answer tt)
  run_job_answered job first (x ∷ xs) d s some_answer found =
      let final = ltb job.max_retries first in
      let t = (process job first x.latency x.now x.answer s).0 in
      let done = process-done job first x.latency x.now x.answer s in
      let stored = process-Stored job first x.latency x.now x.answer d s found in
      elim (Bool-cases (is_failure x.answer)) [
        | inr answered ↦ rw (done ∙ ap not answered) (
            subst (λ st. Stored job.delivery_id st t) (outcome_answered final x.answer answered)
              stored)
        | inl fails ↦ rw (done ∙ ap not fails) (
            run_job_answered job (suc first) xs stored.row t (λ rest. some_answer (fails, rest))
              stored.found)
      ]

  process-webhooks :
      (job : DeliverJobData V) (attempts_made latency now : ℕ) (answer : Answer) (s : Store V)
      → ltb job.max_retries attempts_made ≡ false
      → is_failure answer ≡ true
      → ((process job attempts_made latency now answer s).0).webhooks ≡ s.webhooks
  unfolding process
  process-webhooks job attempts_made latency now (response code body) s early fails = cc
  process-webhooks job attempts_made latency now (failure message code) s early fails =
      let f =
        not_delivered (ltb job.max_retries attempts_made) message code attempts_made latency now in
      let t = update_delivery job.delivery_id f (get job.delivery_id s.deliveries) s in
      ap (λ final. (count_if final job.webhook_id t).webhooks) early
      ∙ update_delivery-webhooks job.delivery_id f (get job.delivery_id s.deliveries) s

  -- A run of failed attempts whose counter stays at `maxRetries` or below.
  run_job_failed :
      (job : DeliverJobData V) (first : ℕ) (x : Attempt) (xs : List Attempt) (d : WebhookDelivery V)
      (s : Store V)
      → first + length xs ≤ job.max_retries
      → All (λ y. is_failure y.answer ≡ true) (x ∷ xs)
      → get job.delivery_id s.deliveries ≡ some d
      → Stored job.delivery_id failed (run_job job first (x ∷ xs) s)
        × ((run_job job first (x ∷ xs) s).webhooks ≡ s.webhooks)
  run_job_failed job first x [] d s short fail found =
      let early : ltb job.max_retries first ≡ false = ground arith in
      let done = process-done job first x.latency x.now x.answer s ∙ ap not fail.0 in
      let status =
        outcome_failed (ltb job.max_retries first) x.answer fail.0 ∙ ap final_status early in
      let stored = process-Stored job first x.latency x.now x.answer d s found in
      rw done (
        subst (λ st. Stored job.delivery_id st (process job first x.latency x.now x.answer s).0)
            status stored,
        process-webhooks job first x.latency x.now x.answer s early fail.0,
      )
  run_job_failed job first x (y ∷ ys) d s short fail found =
      let early : ltb job.max_retries first ≡ false = ground arith in
      let done = process-done job first x.latency x.now x.answer s ∙ ap not fail.0 in
      let stored = process-Stored job first x.latency x.now x.answer d s found in
      let t = (process job first x.latency x.now x.answer s).0 in
      let rest =
        run_job_failed job (suc first) y ys stored.row t (omega arith) fail.1 stored.found in
      rw done (rest.0, rest.1 ∙ process-webhooks job first x.latency x.now x.answer s early fail.0)

  -- A job has at most maxRetries + 1 attempts, and the queue shows them the counts 0, 1, 2 and so
  -- on. Where the delivery of the job is stored: if some attempt is answered, the delivery is
  -- DELIVERED after the run, which stops at the first answer; if every attempt fails, the delivery
  -- is FAILED, not DEAD_LETTER, and no endpoint has changed, so that no failure is counted.
  pub run_job_lem :
      (job : DeliverJobData V) (x : Attempt) (xs : List Attempt) (d : WebhookDelivery V)
      (s : Store V)
      → length xs ≤ job.max_retries
      → get job.delivery_id s.deliveries ≡ some d
      → (¬ All (λ y. is_failure y.answer ≡ true) (x ∷ xs)
          → Stored job.delivery_id delivered (run_job job 0 (x ∷ xs) s))
        × (All (λ y. is_failure y.answer ≡ true) (x ∷ xs)
            → Stored job.delivery_id failed (run_job job 0 (x ∷ xs) s)
              × ((run_job job 0 (x ∷ xs) s).webhooks ≡ s.webhooks))
  run_job_lem job x xs d s short found = (
    λ answer. run_job_answered job 0 (x ∷ xs) d s answer found,
    λ fail. run_job_failed job 0 x xs d s (omega arith) fail found,
  )
