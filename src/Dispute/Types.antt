-- ===== src/Dispute/Types.antt =====
-- The types of src/dispute: the entity, the configuration and the arguments of the operations.
use truthbounty_api.Prelude.{ℕ, String, Option, Bool}
use truthbounty_api.Prelude.Maps.{JsMap}

pub data DisputeStatus : Type 0 where
  opened reviewing resolved rejected : DisputeStatus

pub data DisputeTrigger : Type 0 where
  low_confidence minority_opposition manual : DisputeTrigger

pub data DisputeOutcome : Type 0 where
  confirmed overturned : DisputeOutcome

pub record Confidences (Num : Type 0) : Type 0 where
  pub zero_ : Num
  pub one : Num
  pub lt : Num → Num → Bool
  pub le : Num → Num → Bool
  pub is_finite : Num → Bool

pub record DisputeConfig (Num : Type 0) : Type 0 where
  pub low_confidence_threshold : Num
  pub minority_opposition_threshold : Num
  pub max_dispute_duration_hours : ℕ
  pub dispute_cooldown_hours : ℕ

-- The hours of `DEFAULT_CONFIG`, with the two thresholds that it writes as 0.6 and 0.3.
abbrev pub default_config : {Num : Type 0} → Num → Num → DisputeConfig Num
default_config low minority = record {
  low_confidence_threshold = low;
  minority_opposition_threshold = minority;
  max_dispute_duration_hours = 72;
  dispute_cooldown_hours = 24;
}

abbrev pub Metadata : Type 0
Metadata = JsMap String String

pub record Dispute (Num : Type 0) : Type 0 where
  pub id : String
  pub claim_id : String
  pub status : DisputeStatus
  pub trigger : DisputeTrigger
  pub original_confidence : Num
  pub final_confidence : Option Num
  pub outcome : Option DisputeOutcome
  pub initiator_id : Option String
  pub metadata : Metadata
  pub review_started_at : Option ℕ
  pub resolved_at : Option ℕ
  pub created_at : ℕ

pub record CreateDisputeDto (Num : Type 0) : Type 0 where
  pub claim_id : String
  pub trigger : DisputeTrigger
  pub original_confidence : Num
  pub initiator_id : Option String
  pub metadata : Option Metadata

pub record ResolveDisputeDto (Num : Type 0) : Type 0 where
  pub dispute_id : String
  pub outcome : DisputeOutcome
  pub final_confidence : Num
  pub metadata : Option Metadata

pub record RejectDisputeDto : Type 0 where
  pub dispute_id : String
  pub reason : Option String
  pub rejected_by : Option String

abbrev pub Disputes : Type 0 → Type 0
Disputes Num = JsMap String (Dispute Num)
