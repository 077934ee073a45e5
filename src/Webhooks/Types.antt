-- ===== src/Webhooks/Types.antt =====
-- The rows of the webhooks: src/webhooks/entities, the two DTOs, and the job of the delivery queue.
-- Creation and update times of the rows are not read by the code and left out. A payload and the
-- filters are JSON objects, with values of a type that the program only compares.
use truthbounty_api.Prelude.{ℕ, String, Option, Bool, List, [], ◌∷◌}
use truthbounty_api.Prelude.Maps.{JsMap}
use truthbounty_api.Prelude.Int.{ℤ}

-- The values of the enum, which are also the texts that a request carries.
abbrev pub all_webhook_events : List String
all_webhook_events =
    "claim.created" ∷ "claim.updated" ∷ "verification.started" ∷ "verification.completed"
    ∷ "dispute.created" ∷ "dispute.resolved" ∷ "reward.distributed" ∷ "governance.created"
    ∷ "governance.executed" ∷ "reputation.updated" ∷ "treasury.updated" ∷ "staking.updated" ∷ []

pub record Webhook : Type 0 where
  pub id : String
  pub url : String
  pub description : String
  pub owner_id : String
  pub enabled : Bool
  pub secret : String
  pub secret_expires_at : Option ℕ
  pub previous_secret : Option String
  pub previous_secret_expires_at : Option ℕ
  pub consecutive_failures : ℕ
  pub max_retries : ℕ
  pub retry_interval_ms : ℕ
  pub disabled : Bool

pub record WebhookSubscription (V : Type 0) : Type 0 where
  pub webhook_id : String
  pub event_type : String
  pub filters : Option (JsMap String V)

-- A payload: its own fields, and those of `data`.
pub record WebhookEventPayload (V : Type 0) : Type 0 where
  pub fields : JsMap String V
  pub data_ : JsMap String V

pub data DeliveryStatus : Type 0 where
  pending delivered failed dead_letter : DeliveryStatus

pub record WebhookDelivery (V : Type 0) : Type 0 where
  pub id : String
  pub webhook_id : String
  pub event_type : String
  pub payload : WebhookEventPayload V
  pub status : DeliveryStatus
  pub response_status : Option ℕ
  pub response_body : Option String
  pub latency : Option ℕ
  pub retry_count : ℤ
  pub max_retries : ℕ
  pub failure_reason : Option String
  pub request_id : String
  pub nonce : String
  pub signature : String
  pub timestamp : String
  pub completed_at : Option ℕ

-- A job of the queue, with the options it was added with.
pub record DeliverJobData (V : Type 0) : Type 0 where
  pub delivery_id : String
  pub webhook_id : String
  pub url : String
  pub payload : WebhookEventPayload V
  pub event_type : String
  pub signature : String
  pub nonce : String
  pub timestamp : String
  pub request_id : String
  pub retry_count : ℕ
  pub max_retries : ℕ
  pub retry_interval_ms : ℕ
  pub attempts : ℕ
  pub backoff_delay : ℕ

pub record Store (V : Type 0) : Type 0 where
  pub webhooks : JsMap String Webhook
  pub subscriptions : List (WebhookSubscription V)
  pub deliveries : JsMap String (WebhookDelivery V)
  pub queue : List (DeliverJobData V)

pub record CreateWebhookDto (V : Type 0) : Type 0 where
  pub url : String
  pub description : Option String
  pub owner_id : String
  pub enabled : Option Bool
  pub events : List String
  pub filters : Option (JsMap String V)
  pub max_retries : Option ℕ
  pub retry_interval_ms : Option ℕ

pub record UpdateWebhookDto (V : Type 0) : Type 0 where
  pub url : Option String
  pub description : Option String
  pub enabled : Option Bool
  pub events : Option (List String)
  pub filters : Option (JsMap String V)
  pub max_retries : Option ℕ
  pub retry_interval_ms : Option ℕ
