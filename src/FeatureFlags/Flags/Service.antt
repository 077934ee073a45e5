-- ===== src/FeatureFlags/Flags/Service.antt =====
-- The operations of src/feature-flags/feature-flags.service.ts. Rows stand under their ids. The default
-- percentage, the environment of the process, the clock in milliseconds, and the id of a new row are
-- arguments. Redis is at hand.
use Prim.Native.String.{◌++◌ as append_text}
use truthbounty_api.Prelude.{
  ℕ, ◌+◌, String, Option, none, some, Bool, false, ◌&&◌, ◌||◌, Result, ok, err, Exception, ltb, leb,
  string_eq, ◌===◌, if◌then◌else◌,
}
use truthbounty_api.Prelude.Maps.{get, put, delete}
use truthbounty_api.Prelude.Redis.{read, write}
use truthbounty_api.Prelude.Tables.{find_row}
use truthbounty_api.FeatureFlags.Flags.Types.{FeatureFlag, Store, CreateInput, UpdateInput}

abbrev pub cache_key : String → String → String
cache_key key env = append_text "flag:" (append_text env (append_text ":" key))

abbrev pub or_default {ℓ} : {A : Type ℓ} → Option A → A → A
or_default none a = a
or_default (some b) a = b

abbrev pub or_old {ℓ} : {A : Type ℓ} → Option A → Option A → Option A
or_old none old = old
or_old (some a) old = some a

module _ {N : Type 0} where
  abbrev pub is_at : String → String → FeatureFlag N → Bool
  is_at key env f = (f.key === key) && (f.environment === env)

  abbrev pub at_key : String → String → Store N → Option (FeatureFlag N)
  at_key key env s = find_row (is_at key env) s.rows

  abbrev pub cache_found :
      ℕ → String → String → Option (FeatureFlag N) → Store N → Store N × Option (FeatureFlag N)
  cache_found now key env none s = (s, none)
  cache_found now key env (some f) s =
      (record s { cache = write now 60 (cache_key key env) f s.cache }, some f)

  abbrev pub from_cache :
      ℕ → String → String → Option (FeatureFlag N) → Store N → Store N × Option (FeatureFlag N)
  from_cache now key env none s = cache_found now key env (at_key key env s) s
  from_cache now key env (some f) s = (s, some f)

  unfoldable pub find_flag : ℕ → String → String → Store N → Store N × Option (FeatureFlag N)
  find_flag now key env s = from_cache now key env (read now (cache_key key env) s.cache) s

  abbrev pub find_by_id : String → Store N → Result (FeatureFlag N)
  find_by_id id s = elim (get id s.rows) [ none ↦ err Exception.not_found | some f ↦ ok f ]

  abbrev pub invalidate_cache : FeatureFlag N → Store N → Store N
  invalidate_cache f s = record s { cache = delete (cache_key f.key f.environment) s.cache }

  abbrev pub new_flag : N → String → String → CreateInput N → FeatureFlag N
  new_flag zero_percent id env input = record {
    id = id;
    key = input.key;
    type = input.type;
    enabled = input.enabled;
    rollout_percentage = or_default input.rollout_percentage zero_percent;
    rules = input.rules;
    environment = env;
    description = input.description;
    expires_at = input.expires_at;
    version = 1;
    created_by = input.created_by;
  }

  abbrev pub create_at :
      N
      → String
      → String
      → CreateInput N
      → Option (FeatureFlag N)
      → Store N
      → Store N × Result (FeatureFlag N)
  create_at zero_percent id env input (some f) s = (s, err Exception.error)
  create_at zero_percent id env input none s =
      let f = new_flag zero_percent id env input in
      (invalidate_cache f (record s { rows = put id f s.rows }), ok f)

  -- `default_env` is the environment of the process, `zero_percent` the default of the column.
  unfoldable pub create :
      N → String → String → CreateInput N → Store N → Store N × Result (FeatureFlag N)
  create zero_percent default_env id input s =
      let env = or_default input.environment default_env in
      create_at zero_percent id env input (at_key input.key env s) s

  abbrev pub changed : UpdateInput N → Option String → FeatureFlag N → FeatureFlag N
  changed input updated_by f = record f {
    enabled = or_default input.enabled f.enabled;
    rollout_percentage = or_default input.rollout_percentage f.rollout_percentage;
    rules = or_old input.rules f.rules;
    description = or_old input.description f.description;
    expires_at = or_default input.expires_at f.expires_at;
    version = f.version + 1;
    created_by = or_old updated_by f.created_by;
  }

  abbrev pub update_found :
      String
      → UpdateInput N
      → Option String
      → Option (FeatureFlag N)
      → Store N
      → Store N × Result (FeatureFlag N)
  update_found id input updated_by none s = (s, err Exception.not_found)
  update_found id input updated_by (some f) s = (
    invalidate_cache f (record s { rows = put id (changed input updated_by f) s.rows }),
    ok (changed input updated_by f),
  )

  unfoldable pub update :
      String → UpdateInput N → Option String → Store N → Store N × Result (FeatureFlag N)
  update id input updated_by s = update_found id input updated_by (get id s.rows) s

  -- `{ enabled }`
  abbrev pub only_enabled : Bool → UpdateInput N
  only_enabled enabled = record {
    enabled = some enabled;
    rollout_percentage = none;
    rules = none;
    description = none;
    expires_at = none;
  }

  unfoldable pub toggle : String → Bool → Option String → Store N → Store N × Result (FeatureFlag N)
  toggle id enabled updated_by s = update id (only_enabled enabled) updated_by s

  abbrev pub rollback_found :
      String → ℕ → Option (FeatureFlag N) → Store N → Store N × Result (FeatureFlag N)
  rollback_found id target none s = (s, err Exception.not_found)
  rollback_found id target (some f) s =
      if leb f.version target || ltb target 1
      then (s, err Exception.error)
      else update id (only_enabled false) f.created_by s

  unfoldable pub rollback : String → ℕ → Store N → Store N × Result (FeatureFlag N)
  rollback id target s = rollback_found id target (get id s.rows) s
