-- ===== src/FeatureFlags/Flags/Types.antt =====
-- The entity and the types of the feature flags, and their tables. isPermanent and metadata, which the
-- service never touches, are left out.
use truthbounty_api.Prelude.{ℕ, String, Option, Bool, List}
use truthbounty_api.Prelude.Maps.{JsMap}
use truthbounty_api.Prelude.Redis.{Entry}

-- The column is a text: `other` is a stored text that is none of the seven.
pub data FlagType : Type 0 where
  boolean percentage user role environment time kill_switch : FlagType
  other : String → FlagType

pub record RuleSet : Type 0 where
  pub user_ids : Option (List String)
  pub roles : Option (List String)
  pub start_at : Option String
  pub end_at : Option String

pub record FeatureFlag (N : Type 0) : Type 0 where
  pub id : String
  pub key : String
  pub type : FlagType
  pub enabled : Bool
  pub rollout_percentage : N
  pub rules : Option RuleSet
  pub environment : String
  pub description : Option String
  pub expires_at : Option ℕ
  pub version : ℕ
  pub created_by : Option String

pub record FeatureFlagContext : Type 0 where
  pub user_id : Option String
  pub roles : Option (List String)
  pub environment : Option String
  pub wallet_address : Option String

-- The type of the flag, or `disabled`.
pub data Reason : Type 0 where
  of_type : FlagType → Reason
  disabled : Reason

pub record EvaluationResult : Type 0 where
  pub key : String
  pub enabled : Bool
  pub reason : Reason

pub record Store (N : Type 0) : Type 0 where
  pub rows : JsMap String (FeatureFlag N)
  pub cache : JsMap String (Entry (FeatureFlag N))

pub record CreateInput (N : Type 0) : Type 0 where
  pub key : String
  pub type : FlagType
  pub enabled : Bool
  pub rollout_percentage : Option N
  pub rules : Option RuleSet
  pub environment : Option String
  pub description : Option String
  pub expires_at : Option ℕ
  pub created_by : Option String

-- A field that is none is undefined; `expires_at` may be null.
pub record UpdateInput (N : Type 0) : Type 0 where
  pub enabled : Option Bool
  pub rollout_percentage : Option N
  pub rules : Option RuleSet
  pub description : Option String
  pub expires_at : Option (Option ℕ)
