-- ===== src/FeatureFlags/Tests.antt =====
-- The configuration and the flags at concrete keys, with numbers for values and percentages.
use truthbounty_api.Prelude.{
  ℕ, ◌%◌, ◌^◌, ltb, String, ◌≡◌, refl, Option, none, some, true, false, [], ok, arith,
}
use mathlib.Core.Option.{map as option_map}
use truthbounty_api.FeatureFlags.Configuration.{
  ConfigurationValue, Store, at_key, set_value, get_value,
}
use truthbounty_api.FeatureFlags.Configuration.Restore.{rollback}
use truthbounty_api.FeatureFlags.Configuration.Records.{IsVersioned}
use truthbounty_api.FeatureFlags.Configuration.Versions.{
  IsFresh, Run, here, next, sets, gets, Run-IsVersioned,
}
use truthbounty_api.Prelude.KeyedCache.{plain}
use truthbounty_api.FeatureFlags.Configuration.Lookup.{get_uncached}
use truthbounty_api.FeatureFlags.Configuration.Rollback.{set_then_rollback}
use truthbounty_api.FeatureFlags.Flags.Types as Flags
use truthbounty_api.FeatureFlags.Flags.Types.{boolean, FeatureFlag, FeatureFlagContext, CreateInput}
use truthbounty_api.FeatureFlags.Flags.Hash.{
  units, abs_int32, stable_hash, power_sum, stable_hash_lem,
}
use truthbounty_api.FeatureFlags.Flags.Service as Service
use truthbounty_api.FeatureFlags.Flags.Service.{create, update, toggle, find_flag}
use truthbounty_api.FeatureFlags.Flags.Evaluation.{evaluate_flag, evaluate}
use truthbounty_api.FeatureFlags.Flags.Rollout as Rollout
use truthbounty_api.FeatureFlags.Flags.Rollout.{evaluate_uncached, rollback_switches_off}

abbrev no_values : Store ℕ
no_values = record { rows = []; history = []; cache = [] }

no_values-IsVersioned : IsVersioned no_values
no_values-IsVersioned = record {
  table = record {
    is_map = tt;
    own_id = λ id r found. cc;
    unique = λ id id' r r' found found' same same'. cc;
  };
  positive = λ id r found. cc;
  past = λ id r n found low high. cc;
  present = λ id r found. cc;
  future = λ id r n found high. cc;
}

abbrev one_value : Store ℕ
one_value = (set_value "c1" "limit" 10 "test" none none no_values).0

abbrev two_values : Store ℕ
two_values = (set_value "c2" "limit" 20 "test" none none one_value).0

abbrev shown : Store ℕ
shown = (get_value 1000 "limit" "test" two_values).0

c1-IsFresh : IsFresh "c1" no_values
c1-IsFresh = record { no_row = refl; no_history = λ n. refl }

c2-IsFresh : IsFresh "c2" one_value
unfolding set_value
c2-IsFresh = record { no_row = refl; no_history = λ n. refl }

abbrev run_from_one : Run plain one_value shown
run_from_one =
    next (next here (sets "c2" "limit" "test" 20 none none c2-IsFresh))
      (gets 1000 "limit" "test" refl)

abbrev whole_run : Run plain no_values shown
whole_run =
    next
      (next (next here (sets "c1" "limit" "test" 10 none none c1-IsFresh))
        (sets "c2" "limit" "test" 20 none none c2-IsFresh))
      (gets 1000 "limit" "test" refl)

Run-IsVersioned_example : IsVersioned shown
Run-IsVersioned_example = Run-IsVersioned plain no_values shown whole_run no_values-IsVersioned

get_uncached_example :
    (get_value 2000 "limit" "test" shown).1
    ≡ option_map (λ (r : ConfigurationValue ℕ). r.value) (at_key "limit" "test" shown)
get_uncached_example =
    get_uncached no_values shown 2000 "limit" "test" no_values-IsVersioned refl whole_run refl

abbrev present_row : ConfigurationValue ℕ
present_row = record {
  id = "c1";
  key = "limit";
  value = 20;
  environment = "test";
  version = 2;
  created_by = none;
  change_reason = none;
}

set_then_rollback_example :
    (r : ConfigurationValue ℕ) × ((rollback "c3" "c1" 1 (some "admin") "back" shown).1 ≡ ok r)
    × (r.value ≡ 10)
    × (r.version ≡ 3)
    × (r.key ≡ "limit")
    × (r.environment ≡ "test")
unfolding set_value get_value
set_then_rollback_example =
    set_then_rollback plain "c1" "limit" "test" 10 none none no_values shown present_row "c3"
      (some "admin") "back" no_values-IsVersioned c1-IsFresh run_from_one refl (omega arith)

stable_hash_lem_example :
    stable_hash "anna:beta" ≡ abs_int32 (power_sum (units "anna:beta") % 2 ^ 32)
stable_hash_lem_example = stable_hash_lem "anna:beta"

abbrev no_flags : Flags.Store ℕ
no_flags = record { rows = []; cache = [] }

-- The percentages are whole, and no date can be read.
abbrev no_date : String → Option ℕ
no_date text = none

abbrev anybody : FeatureFlagContext
anybody = record { user_id = none; roles = none; environment = none; wallet_address = none }

abbrev beta : CreateInput ℕ
beta = record {
  key = "beta";
  type = boolean;
  enabled = true;
  rollout_percentage = none;
  rules = none;
  environment = none;
  description = none;
  expires_at = none;
  created_by = none;
}

abbrev with_beta : Flags.Store ℕ
with_beta = (create 0 "test" "f1" beta no_flags).0

abbrev asked : Flags.Store ℕ
asked = (evaluate ltb no_date 1000 "test" "beta" anybody with_beta).0

abbrev off_and_on : Flags.Store ℕ
off_and_on = (toggle "f1" true none asked).0

abbrev flag_run : Rollout.Run ltb no_date no_flags off_and_on
flag_run =
    Rollout.next
      (Rollout.next (Rollout.next Rollout.here (Rollout.creates 0 "test" "f1" beta refl))
        (Rollout.evaluates 1000 "test" "beta" anybody refl))
      (Rollout.toggles "f1" true none)

evaluate_uncached_example :
    (evaluate ltb no_date 2000 "test" "beta" anybody off_and_on).1
    ≡ evaluate_flag ltb no_date 2000 "beta" anybody "test" (Service.at_key "beta" "test" off_and_on)
evaluate_uncached_example =
    evaluate_uncached ltb no_date no_flags off_and_on 2000 "test" "beta" anybody refl refl flag_run
      refl

abbrev beta_row : FeatureFlag ℕ
beta_row = record {
  id = "f1";
  key = "beta";
  type = boolean;
  enabled = true;
  rollout_percentage = 0;
  rules = none;
  environment = "test";
  description = none;
  expires_at = none;
  version = 2;
  created_by = none;
}

rollback_switches_off_example :
    (Service.rollback "f1" 1 off_and_on ≡ toggle "f1" false none off_and_on)
    × ((evaluate ltb no_date 3000 "test" "beta" anybody
          (Service.rollback "f1" 1 off_and_on).0).1.enabled
        ≡ false)
unfolding create evaluate toggle update find_flag
rollback_switches_off_example =
    rollback_switches_off ltb no_date no_flags off_and_on "f1" beta_row 1 3000 "test" anybody refl
      refl flag_run refl (omega arith) (omega arith) refl refl
