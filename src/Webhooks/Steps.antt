-- ===== src/Webhooks/Steps.antt =====
-- The operations on the webhooks as steps, and the health of the endpoints over all of them.
use truthbounty_api.Prelude.{
  ℕ, suc, String, ◌≡◌, refl, ap, ◌∙◌, inl, inr, Option, none, some, Bool, true, false, not, List,
  [], ◌∷◌, arith, string_eq, Bool-cases, Option-cases, length, ltb, ◌+◌, ◌||◌,
}
use truthbounty_api.Prelude.Maps.{get}
use truthbounty_api.Prelude.Rows.{put-AllRows}
use truthbounty_api.Webhooks.Types.{
  Webhook, WebhookSubscription, WebhookEventPayload, WebhookDelivery, DeliverJobData, Store,
  CreateWebhookDto, UpdateWebhookDto,
}
use truthbounty_api.Webhooks.Service.{
  create, remove, update, rotated, rotate_secret, revoked, revoke_secret, loaded_of,
  secret_rotation_grace_period_ms,
}
use truthbounty_api.Webhooks.Dispatch.{
  Runtime, Ticket, webhook_of, enqueue_row, enqueue_all, dispatch_to, dispatch_active,
  active_subscriptions, subscriptions_to, matched_subscriptions, dispatch_event, retry_found,
  retry_delivery,
}
use truthbounty_api.Webhooks.Processor.{
  Answer, response, failure, count_failure, reset_failures, update_delivery, update_webhook,
  count_if, succeeded, not_delivered, process,
}
use truthbounty_api.Webhooks.Health.{
  Fit, IsHealthy, count_failure-Fit, same-IsHealthy, create-IsHealthy, remove_row-IsHealthy,
  update_row-IsHealthy, save_found-IsHealthy,
}

module _ {V : Type 0} where
  enqueue_row-webhooks :
      (js : Runtime V) (ticket : Ticket) (o : Option Webhook) (event : String)
      (payload : WebhookEventPayload V) (s : Store V)
      → ((enqueue_row js ticket o event payload s).webhooks ≡ s.webhooks)
        × ((enqueue_row js ticket o event payload s).subscriptions ≡ s.subscriptions)
  enqueue_row-webhooks js ticket none event payload s = (refl, refl)
  enqueue_row-webhooks js ticket (some w) event payload s = (refl, refl)

  pub enqueue_all-webhooks :
      (js : Runtime V) (tickets : ℕ → Ticket) (n : ℕ) (event : String)
      (payload : WebhookEventPayload V) (subs : List (WebhookSubscription V)) (s : Store V)
      → ((enqueue_all js tickets n event payload subs s).webhooks ≡ s.webhooks)
        × ((enqueue_all js tickets n event payload subs s).subscriptions ≡ s.subscriptions)
  enqueue_all-webhooks js tickets n event payload [] s = (refl, refl)
  enqueue_all-webhooks js tickets n event payload (sub ∷ subs) s =
      let first = enqueue_row-webhooks js (tickets n) (webhook_of sub s) event payload s in
      let rest =
        enqueue_all-webhooks js tickets (suc n) event payload subs
          (enqueue_row js (tickets n) (webhook_of sub s) event payload s) in
      (rest.0 ∙ first.0, rest.1 ∙ first.1)

  -- The code's two early returns are the loop over no subscription.
  pub dispatch_event_parts :
      (js : Runtime V) (tickets : ℕ → Ticket) (event : String) (payload : WebhookEventPayload V)
      (s : Store V)
      → let subs =
          matched_subscriptions js payload (active_subscriptions s (subscriptions_to event s)) in
        dispatch_event js tickets event payload s
        ≡ (enqueue_all js tickets 0 event payload subs s, length subs)
  unfolding dispatch_event
  dispatch_event_parts js tickets event payload s =
      active (active_subscriptions s (subscriptions_to event s))
    where
      matched :
          (subs : List (WebhookSubscription V))
          → dispatch_to js tickets event payload subs s
            ≡ (enqueue_all js tickets 0 event payload subs s, length subs)
      matched [] = refl
      matched (sub ∷ subs) = refl

      active :
          (subs : List (WebhookSubscription V))
          → dispatch_active js tickets event payload subs s ≡ (
            enqueue_all js tickets 0 event payload (matched_subscriptions js payload subs) s,
            length (matched_subscriptions js payload subs),
          )
      active [] = refl
      active (sub ∷ subs) = matched (matched_subscriptions js payload (sub ∷ subs))

  retry_found-webhooks :
      (o : Option (WebhookDelivery V)) (s : Store V) → ((retry_found o s).0).webhooks ≡ s.webhooks
  retry_found-webhooks none s = refl
  retry_found-webhooks (some d) s = elim (Option-cases (get d.webhook_id s.webhooks)) [
    | inl gone ↦ rw gone refl
    | inr row ↦ elim (Bool-cases (not (row.0).enabled || (row.0).disabled)) [
      | inl off ↦ rw (row.1, off) refl
      | inr on ↦ rw (row.1, on) refl
    ]
  ]

  pub update_delivery-webhooks :
      (id : String) (f : WebhookDelivery V → WebhookDelivery V) (o : Option (WebhookDelivery V))
      (s : Store V)
      → (update_delivery id f o s).webhooks ≡ s.webhooks
  update_delivery-webhooks id f none s = refl
  update_delivery-webhooks id f (some d) s = refl

  update_webhook-IsHealthy :
      (id : String) (f : Webhook → Webhook) (o : Option Webhook) (s : Store V)
      → ((w : Webhook) → Fit id w → Fit id (f w))
      → get id s.webhooks ≡ o
      → IsHealthy s
      → IsHealthy (update_webhook id f o s)
  update_webhook-IsHealthy id f none s mild row h = h
  update_webhook-IsHealthy id f (some w) s mild row h =
      put-AllRows Fit id (f w) s.webhooks (mild w (h.each id w row)) h

  process-IsHealthy :
      (job : DeliverJobData V) (attempts_made latency now : ℕ) (answer : Answer) (s : Store V)
      → IsHealthy s
      → IsHealthy (process job attempts_made latency now answer s).0
  unfolding process
  process-IsHealthy job attempts_made latency now (response code body) s h =
      let f = succeeded code body attempts_made latency now in
      let t = update_delivery job.delivery_id f (get job.delivery_id s.deliveries) s in
      let kept =
        same-IsHealthy s t
          (update_delivery-webhooks job.delivery_id f (get job.delivery_id s.deliveries) s) h in
      update_webhook-IsHealthy job.webhook_id reset_failures (get job.webhook_id t.webhooks) t
        (λ w fit. record { own = fit.own; below = λ d. omega arith; off = fit.off }) refl kept
  process-IsHealthy job attempts_made latency now (failure message code) s h =
      let final = ltb job.max_retries attempts_made in
      let f = not_delivered final message code attempts_made latency now in
      let t = update_delivery job.delivery_id f (get job.delivery_id s.deliveries) s in
      let kept =
        same-IsHealthy s t
          (update_delivery-webhooks job.delivery_id f (get job.delivery_id s.deliveries) s) h in
      counted final t kept
    where
      counted :
          (final : Bool) (t : Store V) → IsHealthy t → IsHealthy (count_if final job.webhook_id t)
      counted false t k = k
      counted true t k =
          update_webhook-IsHealthy job.webhook_id count_failure (get job.webhook_id t.webhooks) t
            (count_failure-Fit job.webhook_id) refl k

  -- One operation of the service, or one attempt of the processor. What the mapper's cascade does
  -- to the subscriptions is any function.
  pub data Step (js : Runtime V) (s : Store V) : Store V → Type 0 where
    creates : (id secret : String) (dto : CreateWebhookDto V) → Step js s (create id secret dto s).0
    updates :
        (cascade : List (WebhookSubscription V)
          → List (WebhookSubscription V)
          → List (WebhookSubscription V))
        (id : String) (dto : UpdateWebhookDto V)
        → Step js s (update cascade id dto s).0
    removes : (id : String) → Step js s (remove id s).0
    rotates :
        (cascade : List (WebhookSubscription V)
          → List (WebhookSubscription V)
          → List (WebhookSubscription V))
        (id secret : String) (now later : ℕ)
        → Step js s (rotate_secret cascade id secret now later s).0
    revokes :
        (cascade : List (WebhookSubscription V)
          → List (WebhookSubscription V)
          → List (WebhookSubscription V))
        (id secret : String)
        → Step js s (revoke_secret cascade id secret s).0
    dispatches :
        (tickets : ℕ → Ticket) (event : String) (payload : WebhookEventPayload V)
        → Step js s (dispatch_event js tickets event payload s).0
    retries : (delivery_id : String) → Step js s (retry_delivery delivery_id s).0
    processes :
        (job : DeliverJobData V) (attempts_made latency now : ℕ) (answer : Answer)
        → Step js s (process job attempts_made latency now answer s).0

  -- Every operation on the webhooks, those that throw included, and every attempt at a delivery
  -- keep this of each endpoint: it has fewer than ten final failures in a row unless it is
  -- disabled, and a disabled endpoint is not enabled; its row stands under its own id.
  pub Step-IsHealthy : (js : Runtime V) (s t : Store V) → Step js s t → IsHealthy s → IsHealthy t
  unfolding remove update rotate_secret revoke_secret retry_delivery
  Step-IsHealthy js s t (creates id secret dto) h = create-IsHealthy id secret dto s h
  Step-IsHealthy js s t (updates cascade id dto) h =
      update_row-IsHealthy cascade id dto (get id s.webhooks) s refl h
  Step-IsHealthy js s t (removes id) h = remove_row-IsHealthy id (get id s.webhooks) s h
  Step-IsHealthy js s t (rotates cascade id secret now later) h =
      save_found-IsHealthy cascade (loaded_of cascade id s) (rotated secret now)
        (secret, later + secret_rotation_grace_period_ms) id (get id s.webhooks) s
        (λ w fit. record { own = fit.own; below = fit.below; off = fit.off }) refl h
  Step-IsHealthy js s t (revokes cascade id secret) h =
      save_found-IsHealthy cascade (loaded_of cascade id s) (revoked secret) tt id
        (get id s.webhooks) s (λ w fit. record { own = fit.own; below = fit.below; off = fit.off })
        refl h
  Step-IsHealthy js s t (dispatches tickets event payload) h =
      let subs =
        matched_subscriptions js payload (active_subscriptions s (subscriptions_to event s)) in
      same-IsHealthy s (dispatch_event js tickets event payload s).0
        (ap (λ q. (q.0).webhooks) (dispatch_event_parts js tickets event payload s)
          ∙ (enqueue_all-webhooks js tickets 0 event payload subs s).0)
        h
  Step-IsHealthy js s t (retries delivery_id) h =
      same-IsHealthy s (retry_found (get delivery_id s.deliveries) s).0
        (retry_found-webhooks (get delivery_id s.deliveries) s) h
  Step-IsHealthy js s t (processes job attempts_made latency now answer) h =
      process-IsHealthy job attempts_made latency now answer s h
