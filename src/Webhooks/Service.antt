-- ===== src/Webhooks/Service.antt =====
-- src/webhooks/webhooks.service.ts: the rows of the webhooks and of their subscriptions. New ids
-- and secrets are arguments. The unique index of the subscriptions table makes their insertion
-- throw on a repeated event. `findOne` loads the subscriptions, and `save` of the webhook cascades
-- to them: what the mapper then makes of the table is the argument `cascade`.
use truthbounty_api.Prelude.{
  ℕ, ◌+◌, String, Option, none, some, Bool, true, false, not, ◌&&◌, ◌||◌, List, [], ◌∷◌, ◌++◌, map,
  Result, ok, err, Exception, or_throw, string_eq, ◌===◌, if◌then◌else◌, filter_by, any_of,
}
use truthbounty_api.Prelude.Maps.{JsMap, get, put, delete, values}
use text.Mathlib.Text.{starts_with}
use truthbounty_api.Webhooks.Types.{
  all_webhook_events, Webhook, WebhookSubscription, WebhookDelivery, Store, CreateWebhookDto,
  UpdateWebhookDto,
}

-- 24 hours.
abbrev pub secret_rotation_grace_period_ms : ℕ
secret_rotation_grace_period_ms = 86400000

abbrev pub given {ℓ} : {A : Type ℓ} → Option A → A → A
given none a = a
given (some b) a = b

abbrev pub is_event : String → Bool
is_event e = any_of (λ known. known === e) all_webhook_events

abbrev pub some_invalid : List String → Bool
some_invalid events = any_of (λ e. not (is_event e)) events

abbrev pub is_https : String → Bool
is_https url = starts_with url "https://"

abbrev pub bad_url : Option String → Bool
bad_url none = false
bad_url (some url) = not (is_https url)

-- Whether an event stands twice, which the unique index refuses.
abbrev pub repeats : List String → Bool
repeats [] = false
repeats (e ∷ es) = any_of (λ f. f === e) es || repeats es

-- The row with the fields of the request.
abbrev pub is_active_copy : String → String → Webhook → Bool
is_active_copy url owner w = w.url === url && w.owner_id === owner && not w.disabled

-- `webhook.enabled = …`, with the reset on re-enabling.
abbrev pub set_enabled : Option Bool → Webhook → Webhook
set_enabled none w = w
set_enabled (some false) w = record w { enabled = false }
set_enabled (some true) w = record w { enabled = true; disabled = false; consecutive_failures = 0 }

abbrev pub rotated : String → ℕ → Webhook → Webhook
rotated secret now w = record w {
  previous_secret = some w.secret;
  previous_secret_expires_at = some (now + secret_rotation_grace_period_ms);
  secret = secret;
  secret_expires_at = none;
}

abbrev pub revoked : String → Webhook → Webhook
revoked secret w = record w {
  secret = secret;
  previous_secret = none;
  previous_secret_expires_at = none;
  secret_expires_at = none;
}

module _ {V : Type 0} where
  abbrev pub new_webhook : String → String → CreateWebhookDto V → Webhook
  new_webhook id secret dto = record {
    id = id;
    url = dto.url;
    description = given dto.description "";
    owner_id = dto.owner_id;
    enabled = given dto.enabled true;
    secret = secret;
    secret_expires_at = none;
    previous_secret = none;
    previous_secret_expires_at = none;
    consecutive_failures = 0;
    max_retries = given dto.max_retries 3;
    retry_interval_ms = given dto.retry_interval_ms 30000;
    disabled = false;
  }

  abbrev pub subscription_for : String → Option (JsMap String V) → String → WebhookSubscription V
  subscription_for id filters event = record {
    webhook_id = id;
    event_type = event;
    filters = filters;
  }

  -- `subscriptionRepo.save` of new rows for a webhook that has none.
  abbrev pub save_subscriptions :
      String → List String → Option (JsMap String V) → Store V → Store V × Result (Unit {0})
  save_subscriptions id events filters s = if repeats events then (s, err Exception.error) else (
    record s { subscriptions = s.subscriptions ++ map (subscription_for id filters) events },
    ok tt,
  )

  abbrev pub create_rows : Webhook → CreateWebhookDto V → Store V → Store V × Result (Unit {0})
  create_rows w dto s =
      save_subscriptions w.id dto.events dto.filters (record s { webhooks = put w.id w s.webhooks })

  abbrev pub returning {ℓ} : {A : Type ℓ} → A → Store V × Result (Unit {0}) → Store V × Result A
  returning a (s, ok u) = (s, ok a)
  returning a (s, err e) = (s, err e)

  abbrev pub create_with :
      List String → Webhook → CreateWebhookDto V → Store V → Store V × Result Webhook
  create_with [] w dto s = (s, err Exception.bad_request)
  create_with (e ∷ es) w dto s =
      if some_invalid (e ∷ es)
      then (s, err Exception.bad_request)
      else returning w (create_rows w dto s)

  -- The guards stand in the order of the code.
  unfoldable pub create : String → String → CreateWebhookDto V → Store V → Store V × Result Webhook
  create id secret dto s =
      if not (is_https dto.url)
      then (s, err Exception.bad_request)
      else if any_of (is_active_copy dto.url dto.owner_id) (values s.webhooks)
      then (s, err Exception.conflict)
      else create_with dto.events (new_webhook id secret dto) dto s

  -- `findOne`, without the subscriptions.
  abbrev pub find_one : String → Store V → Result Webhook
  find_one id s = or_throw (get id s.webhooks) Exception.not_found

  abbrev pub is_of : String → WebhookSubscription V → Bool
  is_of id sub = sub.webhook_id === id

  abbrev pub without : String → Store V → Store V
  without id s = record s { subscriptions = filter_by (λ sub. not (is_of id sub)) s.subscriptions }

  abbrev pub set_filters : String → JsMap String V → WebhookSubscription V → WebhookSubscription V
  set_filters id filters sub = if is_of id sub then record sub { filters = some filters } else sub

  abbrev pub updated : UpdateWebhookDto V → Webhook → Webhook
  updated dto w =
      let w' = set_enabled dto.enabled (record w {
        url = given dto.url w.url;
        description = given dto.description w.description;
      }) in
      record w' {
        max_retries = given dto.max_retries w'.max_retries;
        retry_interval_ms = given dto.retry_interval_ms w'.retry_interval_ms;
      }

  -- The part of `update` about the subscriptions.
  abbrev pub update_subscriptions :
      String
      → Option (List String)
      → Option (JsMap String V)
      → Store V
      → Store V × Result (Unit {0})
  update_subscriptions id (some events) filters s =
      if some_invalid events
      then (s, err Exception.bad_request)
      else save_subscriptions id events filters (without id s)
  update_subscriptions id none (some filters) s =
      (record s { subscriptions = map (set_filters id filters) s.subscriptions }, ok tt)
  update_subscriptions id none none s = (s, ok tt)

  -- The rows of a webhook's deliveries go with it, as its subscriptions do.
  abbrev pub drop_deliveries :
      String → JsMap String (WebhookDelivery V) → JsMap String (WebhookDelivery V)
  drop_deliveries id ds = filter_by (λ d. not ((d.1).webhook_id === id)) ds

  abbrev pub remove_row : String → Option Webhook → Store V → Store V × Result (Unit {0})
  remove_row id none s = (s, err Exception.not_found)
  remove_row id (some w) s = (
    record (without id s) {
      webhooks = delete id s.webhooks;
      deliveries = drop_deliveries id s.deliveries;
    },
    ok tt,
  )

  unfoldable pub remove : String → Store V → Store V × Result (Unit {0})
  remove id s = remove_row id (get id s.webhooks) s

  module _
      (cascade : List (WebhookSubscription V)
        → List (WebhookSubscription V)
        → List (WebhookSubscription V)) where
    -- `webhookRepo.save` of a webhook that was loaded with the subscriptions `loaded`.
    abbrev pub save_webhook : List (WebhookSubscription V) → Webhook → Store V → Store V
    save_webhook loaded w s = record s {
      webhooks = put w.id w s.webhooks;
      subscriptions = cascade loaded s.subscriptions;
    }

    abbrev pub loaded_of : String → Store V → List (WebhookSubscription V)
    loaded_of id s = filter_by (is_of id) s.subscriptions

    -- The end of `update`: nothing is saved once something was thrown.
    abbrev pub save_updated :
        List (WebhookSubscription V)
        → Webhook
        → Store V × Result (Unit {0})
        → Store V × Result Webhook
    save_updated loaded w (s, err e) = (s, err e)
    save_updated loaded w (s, ok u) =
        (save_webhook loaded w s, find_one w.id (save_webhook loaded w s))

    abbrev pub update_row :
        String → UpdateWebhookDto V → Option Webhook → Store V → Store V × Result Webhook
    update_row id dto none s = (s, err Exception.not_found)
    update_row id dto (some w) s =
        if bad_url dto.url
        then (s, err Exception.bad_request)
        else save_updated (loaded_of id s) (updated dto w)
            (update_subscriptions id dto.events dto.filters s)

    unfoldable pub update : String → UpdateWebhookDto V → Store V → Store V × Result Webhook
    update id dto s = update_row id dto (get id s.webhooks) s

    -- `findOne`, a change of the webhook, `save` and the answer.
    abbrev pub save_found {ℓ} :
        {A : Type ℓ}
        → List (WebhookSubscription V)
        → (Webhook → Webhook)
        → A
        → Option Webhook
        → Store V
        → Store V × Result A
    save_found loaded f answer none s = (s, err Exception.not_found)
    save_found loaded f answer (some w) s = (save_webhook loaded (f w) s, ok answer)

    -- `later` is the second reading of the clock.
    unfoldable pub rotate_secret : String → String → ℕ → ℕ → Store V → Store V × Result (String × ℕ)
    rotate_secret id secret now later s =
        save_found (loaded_of id s) (rotated secret now)
          (secret, later + secret_rotation_grace_period_ms) (get id s.webhooks) s

    unfoldable pub revoke_secret : String → String → Store V → Store V × Result (Unit {0})
    revoke_secret id secret s =
        save_found (loaded_of id s) (revoked secret) tt (get id s.webhooks) s
