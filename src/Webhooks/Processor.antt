-- ===== src/Webhooks/Processor.antt =====
-- src/webhooks/webhooks.processor.ts: one attempt at a delivery. `attempts_made` is the counter of
-- the queue library for the job, `answer` what the request came to: any HTTP response, whatever its
-- status, or the error of `fetch`. Metrics are left out.
use truthbounty_api.Prelude.{
  ℕ, ◌+◌, String, Option, none, some, Bool, true, false, string_eq, leb, ltb, if◌then◌else◌,
}
use truthbounty_api.Prelude.Int.{sub_ℕ}
use truthbounty_api.Prelude.Maps.{get, put}
use truthbounty_api.Webhooks.Types.{
  Webhook, WebhookDelivery, DeliveryStatus, delivered, failed, dead_letter, DeliverJobData, Store,
}

abbrev pub max_consecutive_failures_before_disable : ℕ
max_consecutive_failures_before_disable = 10

-- The response, with its body cut, or the error's message and status.
pub data Answer : Type 0 where
  response : ℕ → String → Answer
  failure : String → Option ℕ → Answer

-- A field that `update` is given as undefined keeps its value.
abbrev pub or_kept {ℓ} : {A : Type ℓ} → Option A → Option A → Option A
or_kept none old = old
or_kept (some a) old = some a

abbrev pub count_failure : Webhook → Webhook
count_failure w =
    let failures = w.consecutive_failures + 1 in
    let counted = record w { consecutive_failures = failures } in
    let stopped = record w { consecutive_failures = failures; disabled = true; enabled = false } in
    if leb max_consecutive_failures_before_disable failures then stopped else counted

abbrev pub reset_failures : Webhook → Webhook
reset_failures w = record w { consecutive_failures = 0 }

abbrev pub final_status : Bool → DeliveryStatus
final_status true = dead_letter
final_status false = failed

abbrev pub when_final : Bool → ℕ → Option ℕ
when_final true now = some now
when_final false now = none

module _ {V : Type 0} where
  -- `repo.update(id, …)`: nothing, where there is no row.
  abbrev pub update_delivery :
      String
      → (WebhookDelivery V → WebhookDelivery V)
      → Option (WebhookDelivery V)
      → Store V
      → Store V
  update_delivery id f none s = s
  update_delivery id f (some d) s = record s { deliveries = put id (f d) s.deliveries }

  abbrev pub update_webhook : String → (Webhook → Webhook) → Option Webhook → Store V → Store V
  update_webhook id f none s = s
  update_webhook id f (some w) s = record s { webhooks = put id (f w) s.webhooks }

  abbrev pub succeeded : ℕ → String → ℕ → ℕ → ℕ → WebhookDelivery V → WebhookDelivery V
  succeeded code body attempts_made latency now d = record d {
    status = delivered;
    response_status = some code;
    response_body = some body;
    latency = some latency;
    retry_count = sub_ℕ attempts_made 1;
    completed_at = some now;
  }

  abbrev pub not_delivered :
      Bool → String → Option ℕ → ℕ → ℕ → ℕ → WebhookDelivery V → WebhookDelivery V
  not_delivered final message code attempts_made latency now d = record d {
    status = final_status final;
    response_status = or_kept code d.response_status;
    response_body = some message;
    latency = some latency;
    retry_count = sub_ℕ attempts_made 1;
    failure_reason = some message;
    completed_at = or_kept (when_final final now) d.completed_at;
  }

  abbrev pub count_if : Bool → String → Store V → Store V
  count_if false id s = s
  count_if true id s = update_webhook id count_failure (get id s.webhooks) s

  -- The state after an attempt; a failure is thrown on, so that the queue makes the next attempt.
  unfoldable pub process : DeliverJobData V → ℕ → ℕ → ℕ → Answer → Store V → Store V × Bool
  process job attempts_made latency now (response code body) s =
      let s' =
        update_delivery job.delivery_id (succeeded code body attempts_made latency now)
          (get job.delivery_id s.deliveries) s in
      (update_webhook job.webhook_id reset_failures (get job.webhook_id s'.webhooks) s', true)
  process job attempts_made latency now (failure message code) s =
      let final = ltb job.max_retries attempts_made in
      let s' =
        update_delivery job.delivery_id (not_delivered final message code attempts_made latency now)
          (get job.delivery_id s.deliveries) s in
      (count_if final job.webhook_id s', false)
