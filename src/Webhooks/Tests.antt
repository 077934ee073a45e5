-- ===== src/Webhooks/Tests.antt =====
-- The webhooks at concrete endpoints, with texts for the values of a payload.
use Prim.Native.String.{◌++◌ as append_text}
use text.Mathlib.TextLemmas.{nil≢cons, cons≢nil, tail-eq_of_cons-eq}
use truthbounty_api.Prelude.{
  ℕ, zero, suc, ap, String, ◌≡◌, refl, none, some, true, false, [], ◌∷◌, err, Exception, arith,
  string_eq, ◌===◌, length, inl, inr, subst,
}
use truthbounty_api.Prelude.Int.{pos}
use truthbounty_api.Prelude.Sorting.{All}
use truthbounty_api.Prelude.Maps.{get}
use truthbounty_api.Prelude.Texts.{utf16_length}
use truthbounty_api.Prelude.Caches.{put-some}
use truthbounty_api.Webhooks.Types.{
  Webhook, WebhookSubscription, WebhookEventPayload, WebhookDelivery, pending, delivered, failed,
  DeliverJobData, Store, CreateWebhookDto,
}
use truthbounty_api.Webhooks.Service.{create}
use truthbounty_api.Webhooks.Dispatch.{Runtime, Ticket, dispatch_event}
use truthbounty_api.Webhooks.Processor.{failure}
use truthbounty_api.Webhooks.Health.{Fit, IsHealthy}
use truthbounty_api.Webhooks.Steps.{dispatches, Step-IsHealthy}
use truthbounty_api.Webhooks.Fanout.{Dispatched, dispatch_event-Dispatched}
use truthbounty_api.Webhooks.Attempts.{Attempt, Stored, is_failure, run_job, run_job_lem}

abbrev js : Runtime String
js = record {
  strict = λ a b. a === b;
  nullish = λ a. false;
  stringify = λ p. "{}";
  hmac = λ secret text. append_text secret text;
  byte_length = utf16_length;
}

abbrev hook : Webhook
hook = record {
  id = "w";
  url = "https://a.b";
  description = "";
  owner_id = "o";
  enabled = true;
  secret = "s";
  secret_expires_at = none;
  previous_secret = none;
  previous_secret_expires_at = none;
  consecutive_failures = 0;
  max_retries = 1;
  retry_interval_ms = 5;
  disabled = false;
}

abbrev payload : WebhookEventPayload String
payload = record { fields = ("network", "main") ∷ []; data_ = ("severity", "high") ∷ [] }

abbrev subscription : WebhookSubscription String
subscription = record {
  webhook_id = "w";
  event_type = "claim.created";
  filters = some (("severity", "high") ∷ ("network", "main") ∷ []);
}

abbrev delivery : WebhookDelivery String
delivery = record {
  id = "d";
  webhook_id = "w";
  event_type = "claim.created";
  payload = payload;
  status = pending;
  response_status = none;
  response_body = none;
  latency = none;
  retry_count = pos 0;
  max_retries = 1;
  failure_reason = none;
  request_id = "r";
  nonce = "n";
  signature = "x";
  timestamp = "t";
  completed_at = none;
}

abbrev store : Store String
store = record {
  webhooks = ("w", hook) ∷ [];
  subscriptions =
      subscription
      ∷ record subscription { event_type = "claim.updated" }
      ∷ record subscription { filters = some (("network", "test") ∷ []) }
      ∷ [];
  deliveries = ("d", delivery) ∷ [];
  queue = [];
}

abbrev no_rows : Store String
no_rows = record { webhooks = []; subscriptions = []; deliveries = []; queue = [] }

abbrev create_dto : CreateWebhookDto String
create_dto = record {
  url = "https://a.b";
  description = none;
  owner_id = "o";
  enabled = none;
  events = "claim.created" ∷ [];
  filters = none;
  max_retries = none;
  retry_interval_ms = none;
}

-- A text as long as the number.
abbrev mark : ℕ → String
mark zero = ""
mark (suc n) = String.◌∷◌ "x" (mark n)

mark_inj : (i j : ℕ) → mark i ≡ mark j → i ≡ j
mark_inj zero zero h = refl
mark_inj zero (suc j) h = absurd (nil≢cons h)
mark_inj (suc i) zero h = absurd (cons≢nil h)
mark_inj (suc i) (suc j) h = ap suc (mark_inj i j (tail-eq_of_cons-eq h))

abbrev tickets : ℕ → Ticket
tickets n = record { delivery_id = mark n; request_id = "r"; nonce = "n"; timestamp = "t" }

abbrev job : DeliverJobData String
job = record {
  delivery_id = "d";
  webhook_id = "w";
  url = "https://a.b";
  payload = payload;
  event_type = "claim.created";
  signature = "x";
  nonce = "n";
  timestamp = "t";
  request_id = "r";
  retry_count = 0;
  max_retries = 1;
  retry_interval_ms = 5;
  attempts = 2;
  backoff_delay = 5;
}

dispatched_once : (dispatch_event js tickets "claim.created" payload store).1 ≡ 1
unfolding dispatch_event
dispatched_once = refl

-- An event that stands twice throws after the webhook was saved.
repeated_event :
    let r =
      create "v" "s"
        (record create_dto { events = "claim.created" ∷ "claim.created" ∷ [] })
        no_rows in
    (r.1 ≡ err Exception.error) × ((r.0).subscriptions ≡ []) × (length (r.0).webhooks ≡ 1)
unfolding create
repeated_event = (refl, refl, refl)

plain_url :
    (create "v" "s" (record create_dto { url = "http://a.b" }) no_rows).1
    ≡ err Exception.bad_request
unfolding create
plain_url = refl

second_copy : (create "v" "s" create_dto store).1 ≡ err Exception.conflict
unfolding create
second_copy = refl

hook-Fit : Fit "w" hook
hook-Fit = record { own = refl; below = λ d. omega arith; off = λ d. cc }

store-IsHealthy : IsHealthy store
store-IsHealthy = record {
  is_map = (refl, tt);
  each = λ id w found. elim (put-some "w" id hook w [] found) [
    | inl hit ↦ subst (λ k. Fit k w) hit.0 (subst (λ y. Fit "w" y) hit.1 hook-Fit)
    | inr other ↦ cc
  ];
}

keyed_store : (id : String) (w : Webhook) → get id store.webhooks ≡ some w → w.id ≡ id
keyed_store id w found = (store-IsHealthy.each id w found).own

abbrev failed_attempt : Attempt
failed_attempt = record { answer = failure "down" none; latency = 1; now = 2 }

Step-IsHealthy_example : IsHealthy (dispatch_event js tickets "claim.created" payload store).0
Step-IsHealthy_example =
    Step-IsHealthy js store (dispatch_event js tickets "claim.created" payload store).0
      (dispatches tickets "claim.created" payload) store-IsHealthy

dispatch_event-Dispatched_example :
    Dispatched js "claim.created" payload tickets
      (λ i j. mark_inj i j)
      store
      (dispatch_event js tickets "claim.created" payload store).0
      (dispatch_event js tickets "claim.created" payload store).1
dispatch_event-Dispatched_example =
    dispatch_event-Dispatched js "claim.created" payload tickets (λ i j. mark_inj i j) store
      keyed_store

run_job_lem_example :
    (¬ All (λ y. is_failure y.answer ≡ true) (failed_attempt ∷ failed_attempt ∷ [])
      → Stored "d" delivered (run_job job 0 (failed_attempt ∷ failed_attempt ∷ []) store))
    × (All (λ y. is_failure y.answer ≡ true) (failed_attempt ∷ failed_attempt ∷ [])
        → Stored "d" failed (run_job job 0 (failed_attempt ∷ failed_attempt ∷ []) store)
          × ((run_job job 0 (failed_attempt ∷ failed_attempt ∷ []) store).webhooks
              ≡ store.webhooks))
run_job_lem_example =
    run_job_lem job failed_attempt (failed_attempt ∷ []) delivery store (ground arith) refl
