-- ===== src/FeatureFlags/Flags/Evaluation.antt =====
-- `evaluate` of src/feature-flags/feature-flags.service.ts. The comparison of a whole number with a
-- percentage and the reading of a date are arguments.
use Prim.Native.String.{◌++◌ as append_text}
use truthbounty_api.Prelude.{
  ℕ, ◌%◌, String, Option, none, some, Bool, true, false, not, ◌&&◌, List, ltb, string_eq, ◌===◌,
  if◌then◌else◌, any_of,
}
use truthbounty_api.FeatureFlags.Flags.Types.{
  FlagType, boolean, percentage, user, role, time, kill_switch, other, RuleSet, FeatureFlag,
  FeatureFlagContext, of_type, disabled, EvaluationResult, Store,
}
use truthbounty_api.FeatureFlags.Flags.Hash.{stable_hash}
use truthbounty_api.FeatureFlags.Flags.Service.{or_default, find_flag}

abbrev pub includes : String → List String → Bool
includes x xs = any_of (λ y. y === x) xs

-- `context.userId && rules.userIds?.includes(context.userId)`
abbrev pub user_listed : Option String → Option (List String) → Bool
user_listed none ids = false
user_listed (some u) none = false
user_listed (some u) (some ids) = not (u === "") && includes u ids

abbrev pub role_listed : Option (List String) → Option (List String) → Bool
role_listed none rules = false
role_listed (some mine) none = false
role_listed (some mine) (some rules) = any_of (λ r. includes r mine) rules

-- `context.userId ?? context.walletAddress ?? 'anonymous'`
abbrev pub rollout_user : FeatureFlagContext → String
rollout_user c = or_default c.user_id (or_default c.wallet_address "anonymous")

abbrev pub bucket_of : String → FeatureFlagContext → ℕ
bucket_of key c = stable_hash (append_text (rollout_user c) (append_text ":" key)) % 100

abbrev pub starts_later : (String → Option ℕ) → ℕ → Option String → Bool
starts_later date now none = false
starts_later date now (some t) =
    not (t === "") && elim (date t) [ none ↦ false | some at ↦ ltb now at ]

abbrev pub ended_before : (String → Option ℕ) → ℕ → Option String → Bool
ended_before date now none = false
ended_before date now (some t) =
    not (t === "") && elim (date t) [ none ↦ false | some at ↦ ltb at now ]

abbrev pub is_within_time_window : (String → Option ℕ) → ℕ → Option String → Option String → Bool
is_within_time_window date now start_at end_at =
    if starts_later date now start_at then false else not (ended_before date now end_at)

abbrev pub no_rules : RuleSet
no_rules = record { user_ids = none; roles = none; start_at = none; end_at = none }

abbrev pub is_expired : ℕ → Option ℕ → Bool
is_expired now none = false
is_expired now (some t) = ltb t now

module _ {N : Type 0} (below : ℕ → N → Bool) (date : String → Option ℕ) where
  abbrev pub rules_of : FeatureFlag N → RuleSet
  rules_of f = or_default f.rules no_rules

  abbrev pub disabled_result : String → EvaluationResult
  disabled_result key = record { key = key; enabled = false; reason = disabled }

  abbrev pub typed_result : String → FlagType → Bool → EvaluationResult
  typed_result key type enabled = record { key = key; enabled = enabled; reason = of_type type }

  -- The switch over the type.
  abbrev pub by_type :
      ℕ → String → FeatureFlagContext → String → FeatureFlag N → FlagType → EvaluationResult
  by_type now key c env f kill_switch = disabled_result key
  by_type now key c env f (other text) = disabled_result key
  by_type now key c env f boolean = typed_result key boolean true
  by_type now key c env f percentage =
      typed_result key percentage (below (bucket_of key c) f.rollout_percentage)
  by_type now key c env f user = typed_result key user (user_listed c.user_id (rules_of f).user_ids)
  by_type now key c env f role = typed_result key role (role_listed c.roles (rules_of f).roles)
  by_type now key c env f FlagType.environment =
      typed_result key FlagType.environment (f.environment === env)
  by_type now key c env f time =
      typed_result key time
        (is_within_time_window date now (rules_of f).start_at (rules_of f).end_at)

  abbrev pub evaluate_flag :
      ℕ → String → FeatureFlagContext → String → Option (FeatureFlag N) → EvaluationResult
  evaluate_flag now key c env none = disabled_result key
  evaluate_flag now key c env (some f) =
      if not f.enabled
      then disabled_result key
      else if is_expired now f.expires_at
      then disabled_result key
      else by_type now key c env f f.type

  unfoldable pub evaluate :
      ℕ → String → String → FeatureFlagContext → Store N → Store N × EvaluationResult
  evaluate now default_env key c s =
      let env = or_default c.environment default_env in
      let r = find_flag now key env s in (r.0, evaluate_flag now key c env r.1)
