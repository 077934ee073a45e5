-- ===== src/FeatureFlags/Configuration/Rollback.antt =====
-- A rollback gives back what was set.
use truthbounty_api.Prelude.{
  ℕ, ◌+◌, ◌≤◌, ◌<◌, String, ◌≡◌, refl, ◌∙◌, Option, none, some, Bool, false, ◌||◌, [], ◌∷◌, ok,
  string_eq, arith, leb, ltb,
}
use truthbounty_api.Prelude.Maps.{get, get-put_self}
use truthbounty_api.Prelude.Tables.{find_by-append}
use truthbounty_api.FeatureFlags.Configuration.{
  ConfigurationValue, ConfigurationHistory, Store, is_version, at_key, history_at, history_row,
  set_row, next_row, set_value, delete_found,
}
use truthbounty_api.FeatureFlags.Configuration.Restore.{rollback}
use truthbounty_api.Prelude.Keyed.{find-get}
use truthbounty_api.FeatureFlags.Configuration.Records.{id_of, key_of, env_of, IsVersioned}
use truthbounty_api.FeatureFlags.Configuration.Versions.{
  IsFresh, Run, here, next, Effect, still, fetched, wrote, erased, both, get_value-SameRows,
  Step-Effect, set_value-IsVersioned, Run-IsVersioned,
}

module _ {V : Type 0} where
  -- A version that is in the history stays as it is.
  module _ (allowed : String → Bool) (id : String) (n : ℕ) (k : ConfigurationHistory V) where
    erased-history_at :
        (j : String) (o : Option (ConfigurationValue V)) (s : Store V)
        → history_at id n s ≡ some k
        → history_at id n (delete_found j o s).0 ≡ some k
    erased-history_at j none s found = found
    erased-history_at j (some r) s found = found

    Effect-history_at :
        (s t : Store V)
        → Effect allowed s t
        → history_at id n s ≡ some k
        → history_at id n t ≡ some k
    unfolding set_value
    Effect-history_at s t still found = found
    Effect-history_at s t (fetched now key environment tested) found =
        rw ((get_value-SameRows now key environment s).history) found
    Effect-history_at s t (wrote j key environment value by reason fresh) found =
        find_by-append (is_version id n) s.history
          (history_row by reason
              (set_row j key value environment by reason (at_key key environment s))
            ∷ [])
          k found
    Effect-history_at s t (erased j) found = erased-history_at j (get j s.rows) s found
    Effect-history_at s t (both m u first rest) found =
        Effect-history_at m u rest (Effect-history_at s m first found)

    Run-history_at :
        (s t : Store V) → Run allowed s t → history_at id n s ≡ some k → history_at id n t ≡ some k
    Run-history_at s t here found = found
    Run-history_at s t (next {t = u} run step) found =
        Effect-history_at u t (Step-Effect allowed u t step) (Run-history_at s u run found)

  set_row-value :
      (id key environment : String) (value : V) (by reason : Option String)
      (o : Option (ConfigurationValue V))
      → (set_row id key value environment by reason o).value ≡ value
  set_row-value id key environment value by reason none = refl
  set_row-value id key environment value by reason (some r) = refl

  -- A set is in the history with its value.
  set-history_at :
      (id key environment : String) (value : V) (by reason : Option String) (s : Store V)
      → IsFresh id s
      → IsVersioned s
      → (k : ConfigurationHistory V) × (history_at
            (set_value id key value environment by reason s).1.id
            (set_value id key value environment by reason s).1.version
            (set_value id key value environment by reason s).0
          ≡ some k)
        × (k.value ≡ value)
  unfolding set_value
  set-history_at id key environment value by reason s fresh h =
      let r = set_row id key value environment by reason (at_key key environment s) in
      let after = set_value-IsVersioned id key environment value by reason s fresh h in
      let last = after.present r.id r (get-put_self r.id r s.rows) in
      (
        last.0,
        last.1.0,
        last.1.1 ∙ set_row-value id key environment value by reason (at_key key environment s),
      )

  set_version :
      (id key environment : String) (value : V) (by reason : Option String) (s : Store V)
      → IsFresh id s
      → IsVersioned s
      → 1 ≤ (set_value id key value environment by reason s).1.version
  unfolding set_value
  set_version id key environment value by reason s fresh h =
      let r = set_row id key value environment by reason (at_key key environment s) in
      (set_value-IsVersioned id key environment value by reason s fresh h).positive r.id r
        (get-put_self r.id r s.rows)

  -- A rollback to a version before the present one that is in the history.
  rollback_lem :
      (new_id id : String) (target : ℕ) (by : Option String) (reason : String)
      (cur : ConfigurationValue V) (k : ConfigurationHistory V) (s : Store V)
      → IsVersioned s
      → get id s.rows ≡ some cur
      → 1 ≤ target
      → target < cur.version
      → history_at id target s ≡ some k
      → (rollback new_id id target by reason s).1 ≡ ok (next_row k.value by (some reason) cur)
  unfolding rollback set_value
  rollback_lem new_id id target by reason cur k s h row low high found =
      let good : (leb cur.version target || ltb target 1) ≡ false = ground arith in
      let here_ = find-get id_of key_of env_of s.rows id cur h.table row in
      rw (row, good, found, here_) refl

  -- A rollback gives back what was set: after a `set` and any further operations, in which the row
  -- has gone on to a later version, the rollback to the version that the `set` returned succeeds and
  -- writes the value that was set, as the version after the present one, under the row's key and in
  -- its environment. The versions are complete before the `set`, and the ids of new rows are new.
  pub set_then_rollback :
      (allowed : String → Bool) (id key environment : String) (value : V)
      (by reason : Option String) (s u : Store V) (cur : ConfigurationValue V) (new_id : String)
      (by' : Option String) (reason' : String)
      → IsVersioned s
      → IsFresh id s
      → Run allowed (set_value id key value environment by reason s).0 u
      → get (set_value id key value environment by reason s).1.id u.rows ≡ some cur
      → (set_value id key value environment by reason s).1.version < cur.version
      → (r : ConfigurationValue V) × ((rollback new_id
            (set_value id key value environment by reason s).1.id
            (set_value id key value environment by reason s).1.version
            by'
            reason'
            u).1
          ≡ ok r)
        × (r.value ≡ value)
        × (r.version ≡ cur.version + 1)
        × (r.key ≡ cur.key)
        × (r.environment ≡ cur.environment)
  set_then_rollback allowed id key environment value by reason s u cur new_id by' reason' h fresh
        run row later =
      let v = set_value id key value environment by reason s in
      let after = set_value-IsVersioned id key environment value by reason s fresh h in
      let k = set-history_at id key environment value by reason s fresh h in
      let kept = Run-history_at allowed (v.1).id (v.1).version k.0 v.0 u run k.1 in
      let settled = Run-IsVersioned allowed v.0 u run after in
      let low = set_version id key environment value by reason s fresh h in
      (
        next_row (k.0).value by' (some reason') cur,
        rollback_lem new_id (v.1).id (v.1).version by' reason' cur k.0 u settled row low later kept,
        k.2,
        refl,
        refl,
        refl,
      )
