-- ===== src/FeatureFlags/Configuration/Lookup.antt =====
-- The cache of the configuration against its rows.
use truthbounty_api.Prelude.{
  ℕ, String, ◌≡◌, refl, sym, ap, inl, inr, Option, none, some, true, [], Option-cases, string_eq,
}
use mathlib.Core.Option.{map as option_map}
use truthbounty_api.Prelude.Maps.{get}
use truthbounty_api.Prelude.Redis.{expiry, read}
use truthbounty_api.Prelude.KeyedCache.{
  plain, IsCurrent, read-IsCurrent, fill-IsCurrent, write-IsCurrent, erase-IsCurrent,
}
use truthbounty_api.FeatureFlags.Configuration.{
  ConfigurationValue, Store, cache_key, at_key, get_value, set_row, set_value, delete_found,
}
use truthbounty_api.FeatureFlags.Configuration.Records.{id_of, key_of, env_of, IsVersioned}
use truthbounty_api.FeatureFlags.Configuration.Versions.{
  set_row-IsNext, Run, here, next, Effect, still, fetched, wrote, erased, both, Step-Effect,
  Effect-IsVersioned, Run-IsVersioned,
}

module _ {V : Type 0} where
  abbrev value_of : ConfigurationValue V → V
  value_of r = r.value

  -- The cache agrees with the rows.
  abbrev Cached : Store V → Type 0
  Cached s = IsCurrent id_of key_of env_of value_of "config:" s.rows s.cache

  get_value-Cached :
      (now : ℕ) (key environment : String) (s : Store V)
      → plain environment ≡ true
      → Cached s
      → Cached (get_value now key environment s).0
  unfolding get_value
  get_value-Cached now key environment s tested h =
      elim (Option-cases (read now (cache_key key environment) s.cache)) [
        | inr hit ↦ rw (hit.1) h
        | inl miss ↦ elim (Option-cases (at_key key environment s)) [
          | inl missing ↦ rw (miss, missing) h
          | inr found ↦
              rw (miss, found.1)
                (fill-IsCurrent id_of key_of env_of value_of "config:" s.rows s.cache key
                  environment found.0 (expiry now 60) tested found.1 h)
        ]
      ]

  -- What `get` returns is the value of the row.
  get_value-current :
      (now : ℕ) (key environment : String) (s : Store V)
      → plain environment ≡ true
      → Cached s
      → (get_value now key environment s).1 ≡ option_map value_of (at_key key environment s)
  unfolding get_value
  get_value-current now key environment s tested h =
      elim (Option-cases (read now (cache_key key environment) s.cache)) [
        | inr hit ↦
            let r =
              read-IsCurrent id_of key_of env_of value_of "config:" s.rows s.cache now key
                environment hit.0 tested h hit.1 in
            rw (hit.1, r.1.0) (ap some (sym r.1.1))
        | inl miss ↦ elim (Option-cases (at_key key environment s)) [
          | inl missing ↦ rw (miss, missing) refl
          | inr found ↦ rw (miss, found.1) refl
        ]
      ]

  delete_found-Cached :
      (id : String) (o : Option (ConfigurationValue V)) (s : Store V)
      → get id s.rows ≡ o
      → IsVersioned s
      → Cached s
      → Cached (delete_found id o s).0
  delete_found-Cached id none s row h hc = hc
  delete_found-Cached id (some r) s row h hc =
      erase-IsCurrent id_of key_of env_of value_of "config:" s.rows s.cache id r row h.table hc

  Effect-Cached : (s t : Store V) → Effect plain s t → IsVersioned s → Cached s → Cached t
  unfolding set_value
  Effect-Cached s t still h hc = hc
  Effect-Cached s t (fetched now key environment tested) h hc =
      get_value-Cached now key environment s tested hc
  Effect-Cached s t (wrote id key environment value by reason fresh) h hc =
      let r = set_row id key value environment by reason (at_key key environment s) in
      let new =
        set_row-IsNext id key environment value by reason (at_key key environment s) s refl fresh
          h in
      write-IsCurrent id_of key_of env_of value_of "config:" s.rows s.cache r new.fits h.table hc
  Effect-Cached s t (erased id) h hc = delete_found-Cached id (get id s.rows) s refl h hc
  Effect-Cached s t (both m u first rest) h hc =
      Effect-Cached m u rest (Effect-IsVersioned plain s m first h) (Effect-Cached s m first h hc)

  Run-Cached : (s t : Store V) → Run plain s t → IsVersioned s → Cached s → Cached t
  Run-Cached s t here h hc = hc
  Run-Cached s t (next {t = u} run step) h hc =
      Effect-Cached u t (Step-Effect plain u t step) (Run-IsVersioned plain s u run h)
        (Run-Cached s u run h hc)

  -- The cache never shows: after any operations from a state with an empty cache and complete
  -- versions, `get` returns the
  -- value of the row with the key and the environment, or null where there is none, as a `get`
  -- without a cache would. The environments that are read have no colon, and the ids of new rows are
  -- new.
  pub get_uncached :
      (s t : Store V) (now : ℕ) (key environment : String)
      → IsVersioned s
      → s.cache ≡ []
      → Run plain s t
      → plain environment ≡ true
      → (get_value now key environment t).1
        ≡ option_map (λ (r : ConfigurationValue V). r.value) (at_key key environment t)
  get_uncached s t now key environment h empty run tested =
      let current : Cached s = record {
        cache_map = rw empty tt;
        agrees = λ k env e ok_env there. let never : none ≡ some e = rw empty at there in cc;
      } in
      get_value-current now key environment t tested (Run-Cached s t run h current)
