-- ===== src/FeatureFlags/Configuration/Restore.antt =====
-- Rollback, history and promotion of src/feature-flags/configuration.service.ts and of the
-- controller.
use truthbounty_api.Prelude.{
  ℕ, String, Option, none, some, ◌&&◌, ◌||◌, List, Result, ok, err, Exception, ltb, leb, string_eq,
  ◌===◌, if◌then◌else◌, filter_by, take,
}
use mathlib.Core.List.{reverse}
use truthbounty_api.Prelude.Maps.{get}
use truthbounty_api.FeatureFlags.Configuration.{
  ConfigurationValue, ConfigurationHistory, Store, history_at, get_required, set_value,
}

module _ {V : Type 0} where
  abbrev pub restore :
      String
      → Option String
      → String
      → ConfigurationValue V
      → Option (ConfigurationHistory V)
      → Store V
      → Store V × Result (ConfigurationValue V)
  restore new_id rolled_back_by reason current none s = (s, err Exception.not_found)
  restore new_id rolled_back_by reason current (some h) s =
      let r =
        set_value new_id current.key h.value current.environment rolled_back_by (some reason) s in
      (r.0, ok r.1)

  abbrev pub rollback_found :
      String
      → String
      → ℕ
      → Option String
      → String
      → Option (ConfigurationValue V)
      → Store V
      → Store V × Result (ConfigurationValue V)
  rollback_found new_id id target rolled_back_by reason none s = (s, err Exception.not_found)
  rollback_found new_id id target rolled_back_by reason (some current) s =
      if leb current.version target || ltb target 1
      then (s, err Exception.error)
      else restore new_id rolled_back_by reason current (history_at id target s) s

  unfoldable pub rollback :
      String
      → String
      → ℕ
      → Option String
      → String
      → Store V
      → Store V × Result (ConfigurationValue V)
  rollback new_id id target rolled_back_by reason s =
      rollback_found new_id id target rolled_back_by reason (get id s.rows) s

  -- `orderBy createdAt DESC` with `take`: the newest rows first.
  unfoldable pub get_history : String → String → ℕ → Store V → List (ConfigurationHistory V)
  get_history key environment limit s =
      take limit
        (reverse (filter_by (λ h. (h.key === key) && (h.environment === environment)) s.history))

  abbrev pub promote_found :
      String
      → String
      → String
      → Option String
      → String
      → Store V × Result V
      → Store V × Result (ConfigurationValue V)
  promote_found id key target created_by reason (s, err x) = (s, err x)
  promote_found id key target created_by reason (s, ok v) =
      let r = set_value id key v target created_by (some reason) s in (r.0, ok r.1)

  -- The value of one environment is set in another.
  unfoldable pub promote :
      ℕ
      → String
      → String
      → String
      → String
      → Option String
      → String
      → Store V
      → Store V × Result (ConfigurationValue V)
  promote now id key source target created_by reason s =
      promote_found id key target created_by reason (get_required now key source s)
