-- ===== src/FeatureFlags/Configuration.antt =====
-- src/feature-flags/configuration.service.ts with its two entities, and the promotion of
-- feature-flags.controller.ts. Rows stand under their ids; the history is in the order of insertion.
-- A value is any JSON value but null, which its column refuses; a row that is found has the key and
-- environment of its query. The environment of the process, the clock, the id of a new row and the
-- reason of a rollback are arguments, and Redis is at hand.
use Prim.Native.String.{◌++◌ as append_text}
use truthbounty_api.Prelude.{
  ℕ, suc, ◌+◌, ◌==◌, String, Option, none, some, Bool, true, false, ◌&&◌, ◌||◌, List, [], ◌∷◌, ◌++◌,
  Result, ok, err, Exception, ◌>>=◌, or_throw, throw_if, ltb, leb, string_eq, ◌===◌, if◌then◌else◌,
  filter_by, take,
}
use mathlib.Core.List.{reverse}
use truthbounty_api.Prelude.Maps.{JsMap, get, put, delete}
use truthbounty_api.Prelude.Redis.{Entry, read, write}
use truthbounty_api.Prelude.Tables.{find_row, find_by}
pub mod Restore
pub mod Records
pub mod Versions
pub mod Lookup
pub mod Rollback

pub record ConfigurationValue (V : Type 0) : Type 0 where
  pub id : String
  pub key : String
  pub value : V
  pub environment : String
  pub version : ℕ
  pub created_by : Option String
  pub change_reason : Option String

pub record ConfigurationHistory (V : Type 0) : Type 0 where
  pub configuration_id : String
  pub key : String
  pub value : V
  pub environment : String
  pub version : ℕ
  pub created_by : Option String
  pub change_reason : Option String

pub record Store (V : Type 0) : Type 0 where
  pub rows : JsMap String (ConfigurationValue V)
  pub history : List (ConfigurationHistory V)
  pub cache : JsMap String (Entry V)

abbrev pub cache_key : String → String → String
cache_key key environment = append_text "config:" (append_text environment (append_text ":" key))

-- An update leaves a field alone that is undefined.
abbrev pub or_kept : Option String → Option String → Option String
or_kept none old = old
or_kept (some a) old = some a

module _ {V : Type 0} where
  abbrev pub is_at : String → String → ConfigurationValue V → Bool
  is_at key environment r = (r.key === key) && (r.environment === environment)

  abbrev pub is_version : String → ℕ → ConfigurationHistory V → Bool
  is_version id version h = (h.configuration_id === id) && (h.version == version)

  abbrev pub at_key : String → String → Store V → Option (ConfigurationValue V)
  at_key key environment s = find_row (is_at key environment) s.rows

  abbrev pub history_at : String → ℕ → Store V → Option (ConfigurationHistory V)
  history_at id version s = find_by (is_version id version) s.history

  abbrev pub get_missed :
      ℕ → String → String → Option (ConfigurationValue V) → Store V → Store V × Option V
  get_missed now key environment none s = (s, none)
  get_missed now key environment (some r) s =
      (record s { cache = write now 60 (cache_key key environment) r.value s.cache }, some r.value)

  abbrev pub get_cached : ℕ → String → String → Option V → Store V → Store V × Option V
  get_cached now key environment none s =
      get_missed now key environment (at_key key environment s) s
  get_cached now key environment (some v) s = (s, some v)

  unfoldable pub get_value : ℕ → String → String → Store V → Store V × Option V
  get_value now key environment s =
      get_cached now key environment (read now (cache_key key environment) s.cache) s

  unfoldable pub get_required : ℕ → String → String → Store V → Store V × Result V
  get_required now key environment s =
      let r = get_value now key environment s in (r.0, or_throw r.1 Exception.not_found)

  -- The row of the history for a row of the table.
  abbrev pub history_row :
      Option String → Option String → ConfigurationValue V → ConfigurationHistory V
  history_row created_by change_reason r = record {
    configuration_id = r.id;
    key = r.key;
    value = r.value;
    environment = r.environment;
    version = r.version;
    created_by = created_by;
    change_reason = change_reason;
  }

  -- A row is written, its history row inserted, and its entry of the cache deleted.
  abbrev pub store_row : Option String → Option String → ConfigurationValue V → Store V → Store V
  store_row created_by change_reason r s = record {
    rows = put r.id r s.rows;
    history = s.history ++ (history_row created_by change_reason r ∷ []);
    cache = delete (cache_key r.key r.environment) s.cache;
  }

  abbrev pub new_row :
      String → String → V → String → Option String → Option String → ConfigurationValue V
  new_row id key value environment created_by change_reason = record {
    id = id;
    key = key;
    value = value;
    environment = environment;
    version = 1;
    created_by = created_by;
    change_reason = change_reason;
  }

  abbrev pub next_row :
      V → Option String → Option String → ConfigurationValue V → ConfigurationValue V
  next_row value created_by change_reason r = record r {
    value = value;
    version = r.version + 1;
    created_by = or_kept created_by r.created_by;
    change_reason = or_kept change_reason r.change_reason;
  }

  -- The row that a `set` writes.
  abbrev pub set_row :
      String
      → String
      → V
      → String
      → Option String
      → Option String
      → Option (ConfigurationValue V)
      → ConfigurationValue V
  set_row id key value environment created_by change_reason none =
      new_row id key value environment created_by change_reason
  set_row id key value environment created_by change_reason (some r) =
      next_row value created_by change_reason r

  -- `id` is the id of a new row.
  unfoldable pub set_value :
      String
      → String
      → V
      → String
      → Option String
      → Option String
      → Store V
      → Store V × ConfigurationValue V
  set_value id key value environment created_by change_reason s =
      let r =
        set_row id key value environment created_by change_reason (at_key key environment s) in
      (store_row created_by change_reason r s, r)

  abbrev pub find_one : String → Store V → Result (ConfigurationValue V)
  find_one id s = or_throw (get id s.rows) Exception.not_found

  abbrev pub delete_found :
      String → Option (ConfigurationValue V) → Store V → Store V × Result (Unit {0})
  delete_found id none s = (s, err Exception.not_found)
  delete_found id (some r) s = (
    record s { rows = delete id s.rows; cache = delete (cache_key r.key r.environment) s.cache },
    ok tt,
  )

  unfoldable pub delete_value : String → Store V → Store V × Result (Unit {0})
  delete_value id s = delete_found id (get id s.rows) s
