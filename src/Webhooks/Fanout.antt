-- ===== src/Webhooks/Fanout.antt =====
-- What the dispatch of an event enqueues.
use mathlib.Core.List.{append_assoc, append-nil}
use truthbounty_api.Prelude.{
  ℕ, suc, ◌<◌, ◌+◌, ◌==◌, ==_iff, String, ◌≡◌, refl, sym, ap, ◌∙◌, subst, inl, inr, Option, none,
  some, Bool, true, ◌&&◌, List, [], ◌∷◌, ◌++◌, length, ok, arith, string_eq, ◌===◌, beq_refl,
  eq_of_beq, Bool-cases, filter_by, filter_by-filter_by,
}
use truthbounty_api.Prelude.Maps.{JsMap, get, get-put, get-put_self}
use truthbounty_api.Prelude.Sorting.{All}
use truthbounty_api.Webhooks.Types.{
  Webhook, WebhookSubscription, WebhookEventPayload, WebhookDelivery, pending, DeliverJobData,
  Store,
}
use truthbounty_api.Webhooks.Dispatch.{
  Runtime, Ticket, is_live, live_row, webhook_of, sign_payload, verify_signature, new_delivery,
  job_for, matches_filters, enqueue_row, enqueue_delivery, enqueue_all, matched_subscriptions,
  active_subscriptions, subscriptions_to, dispatch_event,
}
use truthbounty_api.Webhooks.Steps.{enqueue_all-webhooks, dispatch_event_parts}

live_row-some :
    (o : Option Webhook) → live_row o ≡ true → (w : Webhook) × ((o ≡ some w) × (is_live w ≡ true))
live_row-some none h = cc
live_row-some (some w) h = (w, (refl, h))

module _ {ℓ} {A : Type ℓ} where
  filter_by-All :
      (p q : A → Bool)
      → ((x : A) → p x ≡ true → q x ≡ true)
      → (xs : List A) → All (λ x. q x ≡ true) (filter_by p xs)
  filter_by-All p q h [] = tt
  filter_by-All p q h (x ∷ xs) = elim (Bool-cases (p x)) [
    | inl yes_ ↦ rw yes_ (h x yes_, filter_by-All p q h xs)
    | inr no_ ↦ rw no_ (filter_by-All p q h xs)
  ]

and_first : (a b c : Bool) → ((a && b) && c) ≡ true → b ≡ true
and_first a b c h = ground arith

module _ {V : Type 0} (js : Runtime V) where
  -- A signature is accepted under the secret that made it.
  pub verify_signature-sign_payload :
      (payload : WebhookEventPayload V) (secret timestamp nonce : String)
      → verify_signature js payload
          (sign_payload js secret payload timestamp nonce)
          secret
          timestamp
          nonce
        ≡ ok true
  unfolding verify_signature
  verify_signature-sign_payload payload secret timestamp nonce =
      let signature = sign_payload js secret payload timestamp nonce in
      let same_length : (js.byte_length signature == js.byte_length signature) ≡ true =
        (==_iff _ _).1 refl in
      rw (same_length, beq_refl signature) refl

  module _ (event : String) (payload : WebhookEventPayload V) where
    -- Whether a subscription is to receive the event.
    abbrev pub wants : JsMap String Webhook → WebhookSubscription V → Bool
    wants rows sub =
        ((sub.event_type === event) && live_row (get sub.webhook_id rows))
        && matches_filters js payload sub.filters

    -- A job that delivers the event to the endpoint of a subscription, in the state `t`.
    pub record IsJobFor (rows : JsMap String Webhook) (t : Store V) (sub : WebhookSubscription V)
        (job : DeliverJobData V) : Type 0 where
      pub row : Webhook
      pub found : get sub.webhook_id rows ≡ some row
      pub live : is_live row ≡ true
      pub target : (job.webhook_id ≡ sub.webhook_id) × (job.url ≡ row.url)
      pub content : (job.event_type ≡ event) × (job.payload ≡ payload)
      pub attempts : job.attempts ≡ row.max_retries + 1
      pub signed :
          verify_signature js job.payload job.signature row.secret job.timestamp job.nonce ≡ ok true
      pub delivery : WebhookDelivery V
      pub stored : get job.delivery_id t.deliveries ≡ some delivery
      pub is_pending : delivery.status ≡ pending
      pub same_request :
          (delivery.webhook_id ≡ job.webhook_id) × (delivery.signature ≡ job.signature)

    abbrev pub Pairs :
        JsMap String Webhook
        → Store V
        → List (WebhookSubscription V)
        → List (DeliverJobData V)
        → Type 0
    Pairs rows t [] [] = Unit
    Pairs rows t [] (job ∷ jobs) = ⊥
    Pairs rows t (sub ∷ subs) [] = ⊥
    Pairs rows t (sub ∷ subs) (job ∷ jobs) = IsJobFor rows t sub job × Pairs rows t subs jobs

    -- The queue has grown by one job for each of the subscriptions.
    abbrev pub Fanned :
        JsMap String Webhook
        → List (DeliverJobData V)
        → List (WebhookSubscription V)
        → Store V
        → Type 0
    Fanned rows queue subs t =
        (jobs : List (DeliverJobData V)) × ((t.queue ≡ queue ++ jobs) × Pairs rows t subs jobs)

    module _ (tickets : ℕ → Ticket)
        (distinct : (i j : ℕ) → (tickets i).delivery_id ≡ (tickets j).delivery_id → i ≡ j) where
      enqueue_row-keeps :
          (n k : ℕ) (o : Option Webhook) (s : Store V)
          → k < n
          → get (tickets k).delivery_id (enqueue_row js (tickets n) o event payload s).deliveries
            ≡ get (tickets k).delivery_id s.deliveries
      enqueue_row-keeps n k none s h = refl
      enqueue_row-keeps n k (some w) s h =
          let d = new_delivery js (tickets n) w event payload in
          elim (Bool-cases (d.id === (tickets k).delivery_id)) [
            | inl same ↦
                let e = distinct n k (eq_of_beq d.id (tickets k).delivery_id same) in
                absurd (omega arith)
            | inr other ↦ get-put d.id (tickets k).delivery_id d s.deliveries ∙ rw other refl
          ]

      enqueue_all-keeps :
          (n k : ℕ) (subs : List (WebhookSubscription V)) (s : Store V)
          → k < n
          → get (tickets k).delivery_id (enqueue_all js tickets n event payload subs s).deliveries
            ≡ get (tickets k).delivery_id s.deliveries
      enqueue_all-keeps n k [] s h = refl
      enqueue_all-keeps n k (sub ∷ subs) s h =
          enqueue_all-keeps (suc n) k subs
            (enqueue_row js (tickets n) (webhook_of sub s) event payload s) (omega arith)
          ∙ enqueue_row-keeps n k (webhook_of sub s) s h

      -- The job that a round adds.
      round-IsJobFor :
          (n : ℕ) (sub : WebhookSubscription V) (w : Webhook) (rows : JsMap String Webhook)
          (subs : List (WebhookSubscription V)) (s : Store V)
          → w.id ≡ sub.webhook_id
          → get sub.webhook_id rows ≡ some w
          → is_live w ≡ true
          → IsJobFor rows
              (enqueue_all js tickets
                (suc n)
                event
                payload
                subs
                (enqueue_delivery js (tickets n) w event payload s))
              sub
              (job_for w (new_delivery js (tickets n) w event payload))
      round-IsJobFor n sub w rows subs s own found live =
          let d = new_delivery js (tickets n) w event payload in
          record {
            row = w;
            found = found;
            live = live;
            target = (own, refl);
            content = (refl, refl);
            attempts = refl;
            signed =
                verify_signature-sign_payload payload w.secret (tickets n).timestamp
                  (tickets n).nonce;
            delivery = d;
            stored =
                enqueue_all-keeps (suc n) n subs (enqueue_delivery js (tickets n) w event payload s)
                  (omega arith)
                ∙ get-put_self d.id d s.deliveries;
            is_pending = refl;
            same_request = (refl, refl);
          }

      enqueue_all-Fanned :
          (rows : JsMap String Webhook)
          → ((id : String) (w : Webhook) → get id rows ≡ some w → w.id ≡ id)
          → (n : ℕ) (subs : List (WebhookSubscription V)) (s : Store V) → s.webhooks ≡ rows
          → All (λ sub. live_row (get sub.webhook_id rows) ≡ true) subs
          → Fanned rows s.queue subs (enqueue_all js tickets n event payload subs s)
      enqueue_all-Fanned rows keyed n [] s same live = ([], (sym (append-nil s.queue), tt))
      enqueue_all-Fanned rows keyed n (sub ∷ subs) s same live =
          let row = live_row-some (get sub.webhook_id rows) live.0 in
          let w = row.0 in
          let t = enqueue_delivery js (tickets n) w event payload s in
          let d = new_delivery js (tickets n) w event payload in
          let rest = enqueue_all-Fanned rows keyed (suc n) subs t same live.1 in
          let goal = λ (o : Option Webhook). Fanned rows s.queue (sub ∷ subs) (
            enqueue_all js tickets (suc n) event payload subs
              (enqueue_row js (tickets n) o event payload s)) in
          let here = ap (get sub.webhook_id) same ∙ (row.1).0 in
          subst goal (sym here) (
            job_for w d ∷ rest.0,
            (
              (rest.1).0 ∙ append_assoc s.queue (job_for w d ∷ []) rest.0,
              (
                round-IsJobFor n sub w rows subs s (keyed sub.webhook_id w (row.1).0) (row.1).0
                    (row.1).1,
                (rest.1).1,
              ),
            ),
          )

      -- The state and the number after a dispatch.
      pub record Dispatched (s t : Store V) (n : ℕ) : Type 0 where
        pub same_webhooks : t.webhooks ≡ s.webhooks
        pub same_subscriptions : t.subscriptions ≡ s.subscriptions
        pub count : n ≡ length (filter_by (wants s.webhooks) s.subscriptions)
        pub fanned : Fanned s.webhooks s.queue (filter_by (wants s.webhooks) s.subscriptions) t

      matched-eq-wants :
          (s : Store V)
          → matched_subscriptions js payload (active_subscriptions s (subscriptions_to event s))
            ≡ filter_by (wants s.webhooks) s.subscriptions
      matched-eq-wants s =
          ap (matched_subscriptions js payload) (
            filter_by-filter_by (λ sub. sub.event_type === event)
              (λ sub. live_row (webhook_of sub s)) s.subscriptions)
          ∙ filter_by-filter_by
              (λ sub. (sub.event_type === event) && live_row (get sub.webhook_id s.webhooks))
              (λ sub. matches_filters js payload sub.filters) s.subscriptions

      -- Dispatching an event adds one job to the queue for each subscription that wants it (its
      -- event is that one, its endpoint is enabled and not disabled, its filters match), in their
      -- order, and no other; it returns their number. Each job carries the event to the endpoint's
      -- URL, with a signature that the endpoint's secret verifies, and its delivery is stored as
      -- pending. Webhooks and subscriptions stay. The rows stand under their ids, and the drawn
      -- delivery ids are distinct.
      pub dispatch_event-Dispatched :
          (s : Store V)
          → ((id : String) (w : Webhook) → get id s.webhooks ≡ some w → w.id ≡ id)
          → Dispatched s
              (dispatch_event js tickets event payload s).0
              (dispatch_event js tickets event payload s).1
      dispatch_event-Dispatched s keyed =
          let wanted = filter_by (wants s.webhooks) s.subscriptions in
          let parts =
            dispatch_event_parts js tickets event payload s
            ∙ ap (λ subs. (enqueue_all js tickets 0 event payload subs s, length subs))
                (matched-eq-wants s) in
          let t = enqueue_all js tickets 0 event payload wanted s in
          let kept = enqueue_all-webhooks js tickets 0 event payload wanted s in
          let live =
            filter_by-All (wants s.webhooks) (λ sub. live_row (get sub.webhook_id s.webhooks))
              (λ sub h. and_first _ _ _ h) s.subscriptions in
          subst (λ (q : Store V × ℕ). Dispatched s q.0 q.1) (sym parts)
            (record {
              same_webhooks = kept.0;
              same_subscriptions = kept.1;
              count = refl;
              fanned = enqueue_all-Fanned s.webhooks keyed 0 wanted s refl live;
            })
