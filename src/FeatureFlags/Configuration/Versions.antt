-- ===== src/FeatureFlags/Configuration/Versions.antt =====
-- The versions of the configuration through every operation.
use truthbounty_api.Prelude.{
  ℕ, String, ◌≡◌, refl, inl, inr, Option, none, some, Bool, true, ◌||◌, Result, ok, err, string_eq,
  arith, Bool-cases, Option-cases, leb, ltb,
}
use truthbounty_api.Prelude.Maps.{get, delete}
use truthbounty_api.Prelude.Caches.{get-delete-some}
use truthbounty_api.Prelude.Redis.{read}
use truthbounty_api.FeatureFlags.Configuration.{
  ConfigurationValue, ConfigurationHistory, Store, cache_key, at_key, history_at, get_value,
  get_required, new_row, next_row, set_row, set_value, delete_found, delete_value,
}
use truthbounty_api.FeatureFlags.Configuration.Restore.{
  restore, rollback_found, rollback, promote_found, promote,
}
use truthbounty_api.Prelude.Keyed.{find-some, new-Fits, in_place-Fits, delete-IsTable}
use truthbounty_api.FeatureFlags.Configuration.Records.{
  id_of, key_of, env_of, IsVersioned, IsNext, store_row-IsVersioned,
}

module _ {V : Type 0} where
  -- No row and no history has the id.
  pub record IsFresh (id : String) (s : Store V) : Type 0 where
    pub no_row : get id s.rows ≡ none
    pub no_history : (n : ℕ) → history_at id n s ≡ none

  pub set_row-IsNext :
      (id key environment : String) (value : V) (by reason : Option String)
      (o : Option (ConfigurationValue V)) (s : Store V)
      → at_key key environment s ≡ o
      → IsFresh id s
      → IsVersioned s
      → IsNext s (set_row id key value environment by reason o)
  set_row-IsNext id key environment value by reason none s found fresh h = record {
    counted = omega arith;
    before = λ n low high. absurd (omega arith);
    after = λ n low. fresh.no_history n;
    fits =
        new-Fits id_of key_of env_of s.rows (new_row id key value environment by reason)
          fresh.no_row found;
  }
  set_row-IsNext id key environment value by reason (some r) s found fresh h =
      let row = find-some id_of key_of env_of s.rows key environment r h.table found in
      record {
        counted = omega arith;
        before = λ n low high. h.past r.id r n row.0 low (omega arith);
        after = λ n low. h.future r.id r n row.0 (omega arith);
        fits =
            in_place-Fits id_of key_of env_of s.rows (next_row value by reason r) r h.table row.0
              refl refl;
      }

  pub set_value-IsVersioned :
      (id key environment : String) (value : V) (by reason : Option String) (s : Store V)
      → IsFresh id s
      → IsVersioned s
      → IsVersioned (set_value id key value environment by reason s).0
  unfolding set_value
  set_value-IsVersioned id key environment value by reason s fresh h =
      store_row-IsVersioned by reason
        (set_row id key value environment by reason (at_key key environment s)) s
        (set_row-IsNext id key environment value by reason (at_key key environment s) s refl fresh
          h)
        h

  -- Only the cache differs.
  pub record SameRows (s t : Store V) : Type 0 where
    pub rows : t.rows ≡ s.rows
    pub history : t.history ≡ s.history

  pub get_value-SameRows :
      (now : ℕ) (key environment : String) (s : Store V)
      → SameRows s (get_value now key environment s).0
  unfolding get_value
  get_value-SameRows now key environment s =
      elim (Option-cases (read now (cache_key key environment) s.cache)) [
        | inr hit ↦ rw (hit.1) (record { rows = refl; history = refl })
        | inl miss ↦ elim (Option-cases (at_key key environment s)) [
          | inl missing ↦ rw (miss, missing) (record { rows = refl; history = refl })
          | inr found ↦ rw (miss, found.1) (record { rows = refl; history = refl })
        ]
      ]

  pub same-IsVersioned : (s t : Store V) → SameRows s t → IsVersioned s → IsVersioned t
  same-IsVersioned s t same h = record {
    table = rw (same.rows) h.table;
    positive = rw (same.rows) h.positive;
    past = rw (same.rows, same.history) h.past;
    present = rw (same.rows, same.history) h.present;
    future = rw (same.rows, same.history) h.future;
  }

  pub same-IsFresh : (id : String) (s t : Store V) → SameRows s t → IsFresh id s → IsFresh id t
  same-IsFresh id s t same fresh = record {
    no_row = rw (same.rows) fresh.no_row;
    no_history = rw (same.history) fresh.no_history;
  }

  pub delete_found-IsVersioned :
      (id : String) (o : Option (ConfigurationValue V)) (s : Store V)
      → IsVersioned s
      → IsVersioned (delete_found id o s).0
  delete_found-IsVersioned id none s h = h
  delete_found-IsVersioned id (some r) s h =
      let kept : (j : String) (x : ConfigurationValue V)
          → get j (delete id s.rows) ≡ some x
          → get j s.rows ≡ some x =
        λ j x found. (get-delete-some id j x s.rows (h.table).is_map found).1 in
      record {
        table = delete-IsTable id_of key_of env_of s.rows id h.table;
        positive = λ j x found. h.positive j x (kept j x found);
        past = λ j x n found low high. h.past j x n (kept j x found) low high;
        present = λ j x found. h.present j x (kept j x found);
        future = λ j x n found high. h.future j x n (kept j x found) high;
      }

  -- An operation of the service; the id of a new row is new, and the environments that are read
  -- pass a test.
  pub data Step (allowed : String → Bool) (s : Store V) : Store V → Type 0 where
    gets :
        (now : ℕ) (key environment : String)
        → allowed environment ≡ true
        → Step allowed s (get_value now key environment s).0
    sets :
        (id key environment : String) (value : V) (by reason : Option String)
        → IsFresh id s
        → Step allowed s (set_value id key value environment by reason s).0
    deletes : (id : String) → Step allowed s (delete_value id s).0
    rolls_back :
        (new_id id : String) (target : ℕ) (by : Option String) (reason : String)
        → IsFresh new_id s
        → Step allowed s (rollback new_id id target by reason s).0
    promotes :
        (now : ℕ) (id key source target : String) (by : Option String) (reason : String)
        → allowed source ≡ true
        → IsFresh id s
        → Step allowed s (promote now id key source target by reason s).0

  pub data Run (allowed : String → Bool) (s : Store V) : Store V → Type 0 where
    here : Run allowed s s
    next : {t u : Store V} → Run allowed s t → Step allowed t u → Run allowed s u

  -- What an operation is made of.
  pub data Effect (allowed : String → Bool) : Store V → Store V → Type 0 where
    still : {s : Store V} → Effect allowed s s
    fetched :
        {s : Store V} (now : ℕ) (key environment : String)
        → allowed environment ≡ true
        → Effect allowed s (get_value now key environment s).0
    wrote :
        {s : Store V} (id key environment : String) (value : V) (by reason : Option String)
        → IsFresh id s
        → Effect allowed s (set_value id key value environment by reason s).0
    erased : {s : Store V} (id : String) → Effect allowed s (delete_found id (get id s.rows) s).0
    both :
        {s : Store V} (m t : Store V) → Effect allowed s m → Effect allowed m t → Effect allowed s t

  module _ (allowed : String → Bool) where
    restore-Effect :
        (new_id : String) (by : Option String) (reason : String) (current : ConfigurationValue V)
        (o : Option (ConfigurationHistory V)) (s : Store V)
        → IsFresh new_id s
        → Effect allowed s (restore new_id by reason current o s).0
    restore-Effect new_id by reason current none s fresh = still
    restore-Effect new_id by reason current (some h) s fresh =
        wrote new_id current.key current.environment h.value by (some reason) fresh

    rollback_found-Effect :
        (new_id id : String) (target : ℕ) (by : Option String) (reason : String)
        (o : Option (ConfigurationValue V)) (s : Store V)
        → IsFresh new_id s
        → Effect allowed s (rollback_found new_id id target by reason o s).0
    rollback_found-Effect new_id id target by reason none s fresh = still
    rollback_found-Effect new_id id target by reason (some current) s fresh =
        elim (Bool-cases (leb current.version target || ltb target 1)) [
          | inl bad ↦ rw bad still
          | inr good ↦
              rw good (restore-Effect new_id by reason current (history_at id target s) s fresh)
        ]

    promote_found-Effect :
        (id key target : String) (by : Option String) (reason : String) (m : Store V) (r : Result V)
        → IsFresh id m
        → Effect allowed m (promote_found id key target by reason (m, r)).0
    promote_found-Effect id key target by reason m (err x) fresh = still
    promote_found-Effect id key target by reason m (ok v) fresh =
        wrote id key target v by (some reason) fresh

    pub Step-Effect : (s t : Store V) → Step allowed s t → Effect allowed s t
    unfolding delete_value rollback promote get_required
    Step-Effect s t (gets now key environment tested) = fetched now key environment tested
    Step-Effect s t (sets id key environment value by reason fresh) =
        wrote id key environment value by reason fresh
    Step-Effect s t (deletes id) = erased id
    Step-Effect s t (rolls_back new_id id target by reason fresh) =
        rollback_found-Effect new_id id target by reason (get id s.rows) s fresh
    Step-Effect s t (promotes now id key source target by reason tested fresh) =
        let m = (get_value now key source s).0 in
        both m _ (fetched now key source tested) (
          promote_found-Effect id key target by reason m (get_required now key source s).1
            (same-IsFresh id s m (get_value-SameRows now key source s) fresh))

    pub Effect-IsVersioned : (s t : Store V) → Effect allowed s t → IsVersioned s → IsVersioned t
    Effect-IsVersioned s t still h = h
    Effect-IsVersioned s t (fetched now key environment tested) h =
        same-IsVersioned s (get_value now key environment s).0
          (get_value-SameRows now key environment s) h
    Effect-IsVersioned s t (wrote id key environment value by reason fresh) h =
        set_value-IsVersioned id key environment value by reason s fresh h
    Effect-IsVersioned s t (erased id) h = delete_found-IsVersioned id (get id s.rows) s h
    Effect-IsVersioned s t (both m u first rest) h =
        Effect-IsVersioned m u rest (Effect-IsVersioned s m first h)

    -- The versions of the configuration are complete: get, set, delete, rollback and promote keep
    -- that a row stands under its id, alone with its key in its environment, and that exactly the
    -- versions 1 to its own are in the history under its id, the last one with its value. The id of a
    -- new row is new.
    pub Run-IsVersioned : (s t : Store V) → Run allowed s t → IsVersioned s → IsVersioned t
    Run-IsVersioned s t here h = h
    Run-IsVersioned s t (next {t = u} run step) h =
        Effect-IsVersioned u t (Step-Effect u t step) (Run-IsVersioned s u run h)
