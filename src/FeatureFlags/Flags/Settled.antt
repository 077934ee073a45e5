-- ===== src/FeatureFlags/Flags/Settled.antt =====
-- The table and the cache of the feature flags agree through every operation.
use truthbounty_api.Prelude.{
  ℕ, String, ◌≡◌, refl, sym, ap, ◌∙◌, subst, inl, inr, Option, none, some, true, false, ◌||◌,
  string_eq, Bool-cases, Option-cases, leb, ltb,
}
use truthbounty_api.Prelude.Maps.{get, put, delete}
use truthbounty_api.Prelude.Redis.{expiry, read}
use truthbounty_api.Prelude.Keyed.{IsTable, Fits, put-IsTable, in_place-Fits, new-Fits}
use truthbounty_api.Prelude.KeyedCache.{
  plain, IsCurrent, read-IsCurrent, fill-IsCurrent, write-IsCurrent,
}
use truthbounty_api.FeatureFlags.Flags.Types.{FeatureFlag, Store, CreateInput, UpdateInput}
use truthbounty_api.FeatureFlags.Flags.Service.{
  cache_key, at_key, find_flag, new_flag, create_at, changed, update_found, update, only_enabled,
  rollback_found,
}

module _ {N : Type 0} where
  abbrev pub id_of : FeatureFlag N → String
  id_of f = f.id

  abbrev pub key_of : FeatureFlag N → String
  key_of f = f.key

  abbrev pub env_of : FeatureFlag N → String
  env_of f = f.environment

  abbrev pub whole : FeatureFlag N → FeatureFlag N
  whole f = f

  -- A flag stands under its id, alone with its key in its environment, and the cache agrees.
  pub record IsSettled (s : Store N) : Type 0 where
    pub table : IsTable id_of key_of env_of s.rows
    pub current : IsCurrent id_of key_of env_of whole "flag:" s.rows s.cache

  pub find_flag-IsSettled :
      (now : ℕ) (key env : String) (s : Store N)
      → plain env ≡ true
      → IsSettled s
      → IsSettled (find_flag now key env s).0
  unfolding find_flag
  find_flag-IsSettled now key env s tested h =
      elim (Option-cases (read now (cache_key key env) s.cache)) [
        | inr hit ↦ rw (hit.1) h
        | inl miss ↦ elim (Option-cases (at_key key env s)) [
          | inl missing ↦ rw (miss, missing) h
          | inr found ↦
              rw (miss, found.1)
                (record {
                  table = h.table;
                  current =
                      fill-IsCurrent id_of key_of env_of whole "flag:" s.rows s.cache key env
                        found.0 (expiry now 60) tested found.1 h.current;
                })
        ]
      ]

  -- The flag that is found is the row.
  pub find_flag-current :
      (now : ℕ) (key env : String) (s : Store N)
      → plain env ≡ true
      → IsSettled s
      → (find_flag now key env s).1 ≡ at_key key env s
  unfolding find_flag
  find_flag-current now key env s tested h =
      elim (Option-cases (read now (cache_key key env) s.cache)) [
        | inr hit ↦
            let r =
              read-IsCurrent id_of key_of env_of whole "flag:" s.rows s.cache now key env hit.0
                tested h.current hit.1 in
            rw (hit.1) (ap some (sym r.1.1) ∙ sym r.1.0)
        | inl miss ↦ elim (Option-cases (at_key key env s)) [
          | inl missing ↦ rw (miss, missing) refl
          | inr found ↦ rw (miss, found.1) refl
        ]
      ]

  pub written-IsSettled :
      (f : FeatureFlag N) (s : Store N)
      → Fits id_of key_of env_of s.rows f
      → IsSettled s
      → IsSettled (record {
        rows = put f.id f s.rows;
        cache = delete (cache_key f.key f.environment) s.cache;
      })
  written-IsSettled f s fits h = record {
    table = put-IsTable id_of key_of env_of s.rows f fits h.table;
    current =
        write-IsCurrent id_of key_of env_of whole "flag:" s.rows s.cache f fits h.table h.current;
  }

  pub update_found-IsSettled :
      (id : String) (input : UpdateInput N) (updated_by : Option String)
      (o : Option (FeatureFlag N)) (s : Store N)
      → get id s.rows ≡ o
      → IsSettled s
      → IsSettled (update_found id input updated_by o s).0
  update_found-IsSettled id input updated_by none s row h = h
  update_found-IsSettled id input updated_by (some f) s row h =
      let own = (h.table).own_id id f row in
      let row' : get f.id s.rows ≡ some f = subst (λ i. get i s.rows ≡ some f) (sym own) row in
      let fits =
        in_place-Fits id_of key_of env_of s.rows (changed input updated_by f) f h.table row' refl
          refl in
      subst
        (λ i. IsSettled (record {
          rows = put i (changed input updated_by f) s.rows;
          cache = delete (cache_key f.key f.environment) s.cache;
        }))
        own (written-IsSettled (changed input updated_by f) s fits h)

  pub create_at-IsSettled :
      (zero_percent : N) (id env : String) (input : CreateInput N) (o : Option (FeatureFlag N))
      (s : Store N)
      → at_key input.key env s ≡ o
      → get id s.rows ≡ none
      → IsSettled s
      → IsSettled (create_at zero_percent id env input o s).0
  create_at-IsSettled zero_percent id env input (some f) s found fresh h = h
  create_at-IsSettled zero_percent id env input none s found fresh h =
      let f = new_flag zero_percent id env input in
      written-IsSettled f s (new-Fits id_of key_of env_of s.rows f fresh found) h

  pub rollback_found-IsSettled :
      (id : String) (target : ℕ) (o : Option (FeatureFlag N)) (s : Store N)
      → IsSettled s
      → IsSettled (rollback_found id target o s).0
  unfolding update
  rollback_found-IsSettled id target none s h = h
  rollback_found-IsSettled id target (some f) s h =
      elim (Bool-cases (leb f.version target || ltb target 1)) [
        | inl bad ↦ rw bad h
        | inr good ↦
            rw good
              (update_found-IsSettled id (only_enabled false) f.created_by (get id s.rows) s refl h)
      ]
