-- ===== src/Webhooks/Dispatch.antt =====
-- src/webhooks/webhooks.service.ts: the dispatch of an event to the webhooks that subscribe to it,
-- the retry of a delivery, and the signatures. The comparison of JSON values, the printing of a
-- payload, the HMAC and the byte length of a text are the runtime's: a record of operations. What
-- is drawn for a delivery (its id, request id, nonce and time) is the ticket of its position.
use Prim.Native.String.{◌++◌ as append_text}
use truthbounty_api.Prelude.{
  ℕ, suc, ◌+◌, ◌==◌, String, Option, none, some, Bool, true, false, not, ◌&&◌, ◌||◌, List, [], ◌∷◌,
  ◌++◌, length, Result, ok, err, Exception, string_eq, ◌===◌, if◌then◌else◌, filter_by,
}
use truthbounty_api.Prelude.Int.{pos}
use truthbounty_api.Prelude.Maps.{JsMap, get, put}
use truthbounty_api.Webhooks.Types.{
  Webhook, WebhookSubscription, WebhookEventPayload, WebhookDelivery, pending, DeliverJobData,
  Store,
}

-- `strict` is `===` on JSON values, `nullish` is the test of `??`.
pub record Runtime (V : Type 0) : Type 0 where
  pub strict : V → V → Bool
  pub nullish : V → Bool
  pub stringify : WebhookEventPayload V → String
  pub hmac : String → String → String
  pub byte_length : String → ℕ

pub record Ticket : Type 0 where
  pub delivery_id : String
  pub request_id : String
  pub nonce : String
  pub timestamp : String

abbrev pub is_live : Webhook → Bool
is_live w = w.enabled && not w.disabled

abbrev pub live_row : Option Webhook → Bool
live_row none = false
live_row (some w) = is_live w

module _ {V : Type 0} where
  -- `retryCount: 0` and the options of the job.
  abbrev pub job_for : Webhook → WebhookDelivery V → DeliverJobData V
  job_for w d = record {
    delivery_id = d.id;
    webhook_id = w.id;
    url = w.url;
    payload = d.payload;
    event_type = d.event_type;
    signature = d.signature;
    nonce = d.nonce;
    timestamp = d.timestamp;
    request_id = d.request_id;
    retry_count = 0;
    max_retries = w.max_retries;
    retry_interval_ms = w.retry_interval_ms;
    attempts = w.max_retries + 1;
    backoff_delay = w.retry_interval_ms;
  }

  -- The relation `webhook` of a subscription.
  abbrev pub webhook_of : WebhookSubscription V → Store V → Option Webhook
  webhook_of sub s = get sub.webhook_id s.webhooks

  abbrev pub subscriptions_to : String → Store V → List (WebhookSubscription V)
  subscriptions_to event s = filter_by (λ sub. sub.event_type === event) s.subscriptions

  abbrev pub active_subscriptions :
      Store V → List (WebhookSubscription V) → List (WebhookSubscription V)
  active_subscriptions s subs = filter_by (λ sub. live_row (webhook_of sub s)) subs

module _ {V : Type 0} (js : Runtime V) where
  abbrev pub sign_payload : String → WebhookEventPayload V → String → String → String
  sign_payload secret payload timestamp nonce = js.hmac secret (
      append_text timestamp
        (append_text "." (append_text nonce (append_text "." (js.stringify payload)))))

  -- `crypto.timingSafeEqual` throws on texts of different lengths.
  unfoldable pub verify_signature :
      WebhookEventPayload V → String → String → String → String → Result Bool
  verify_signature payload signature secret timestamp nonce =
      let expected = sign_payload secret payload timestamp nonce in
      if js.byte_length expected == js.byte_length signature
      then ok (expected === signature)
      else err Exception.error

  -- `payload[key] ?? payload.data?.[key]`
  abbrev pub or_data : String → WebhookEventPayload V → Option V → Option V
  or_data key payload none = get key payload.data_
  or_data key payload (some v) = if js.nullish v then get key payload.data_ else some v

  abbrev pub is_value : V → Option V → Bool
  is_value v none = false
  is_value v (some u) = js.strict u v

  abbrev pub matches_all : WebhookEventPayload V → JsMap String V → Bool
  matches_all payload [] = true
  matches_all payload ((key, v) ∷ rest) =
      is_value v (or_data key payload (get key payload.fields)) && matches_all payload rest

  abbrev pub matches_filters : WebhookEventPayload V → Option (JsMap String V) → Bool
  matches_filters payload none = true
  matches_filters payload (some filters) = matches_all payload filters

  abbrev pub new_delivery : Ticket → Webhook → String → WebhookEventPayload V → WebhookDelivery V
  new_delivery t w event payload = record {
    id = t.delivery_id;
    webhook_id = w.id;
    event_type = event;
    payload = payload;
    status = pending;
    response_status = none;
    response_body = none;
    latency = none;
    retry_count = pos 0;
    max_retries = w.max_retries;
    failure_reason = none;
    request_id = t.request_id;
    nonce = t.nonce;
    signature = sign_payload w.secret payload t.timestamp t.nonce;
    timestamp = t.timestamp;
    completed_at = none;
  }

  abbrev pub enqueue_delivery :
      Ticket → Webhook → String → WebhookEventPayload V → Store V → Store V
  enqueue_delivery t w event payload s =
      let d = new_delivery t w event payload in
      record s { deliveries = put d.id d s.deliveries; queue = s.queue ++ (job_for w d ∷ []) }

  -- The row was loaded with the subscription.
  abbrev pub enqueue_row :
      Ticket → Option Webhook → String → WebhookEventPayload V → Store V → Store V
  enqueue_row t none event payload s = s
  enqueue_row t (some w) event payload s = enqueue_delivery t w event payload s

  -- The loop over the matched subscriptions; `n` counts the rounds.
  abbrev pub enqueue_all :
      (ℕ → Ticket)
      → ℕ
      → String
      → WebhookEventPayload V
      → List (WebhookSubscription V)
      → Store V
      → Store V
  enqueue_all tickets n event payload [] s = s
  enqueue_all tickets n event payload (sub ∷ subs) s =
      enqueue_all tickets (suc n) event payload subs
        (enqueue_row (tickets n) (webhook_of sub s) event payload s)

  abbrev pub matched_subscriptions :
      WebhookEventPayload V → List (WebhookSubscription V) → List (WebhookSubscription V)
  matched_subscriptions payload subs = filter_by (λ sub. matches_filters payload sub.filters) subs

  -- The early return where nothing matches.
  abbrev pub dispatch_to :
      (ℕ → Ticket)
      → String
      → WebhookEventPayload V
      → List (WebhookSubscription V)
      → Store V
      → Store V × ℕ
  dispatch_to tickets event payload [] s = (s, 0)
  dispatch_to tickets event payload (sub ∷ subs) s =
      (enqueue_all tickets 0 event payload (sub ∷ subs) s, length (sub ∷ subs))

  -- The early return where no subscriber is active.
  abbrev pub dispatch_active :
      (ℕ → Ticket)
      → String
      → WebhookEventPayload V
      → List (WebhookSubscription V)
      → Store V
      → Store V × ℕ
  dispatch_active tickets event payload [] s = (s, 0)
  dispatch_active tickets event payload (sub ∷ subs) s =
      dispatch_to tickets event payload (matched_subscriptions payload (sub ∷ subs)) s

  unfoldable pub dispatch_event :
      (ℕ → Ticket) → String → WebhookEventPayload V → Store V → Store V × ℕ
  dispatch_event tickets event payload s =
      dispatch_active tickets event payload (active_subscriptions s (subscriptions_to event s)) s

module _ {V : Type 0} where
  abbrev pub reset : WebhookDelivery V → WebhookDelivery V
  reset d = record d {
    status = pending;
    retry_count = pos 0;
    failure_reason = none;
    completed_at = none;
  }

  abbrev pub retry_row : WebhookDelivery V → Option Webhook → Store V → Store V × Result (Unit {0})
  retry_row d none s = (s, err Exception.not_found)
  retry_row d (some w) s = if not w.enabled || w.disabled then (s, err Exception.bad_request) else (
    record s {
      deliveries = put d.id (reset d) s.deliveries;
      queue = s.queue ++ (job_for w (reset d) ∷ []);
    },
    ok tt,
  )

  abbrev pub retry_found : Option (WebhookDelivery V) → Store V → Store V × Result (Unit {0})
  retry_found none s = (s, err Exception.not_found)
  retry_found (some d) s = retry_row d (get d.webhook_id s.webhooks) s

  unfoldable pub retry_delivery : String → Store V → Store V × Result (Unit {0})
  retry_delivery delivery_id s = retry_found (get delivery_id s.deliveries) s
