-- ===== src/FeatureFlags/Flags/Rollout.antt =====
-- The evaluation of a flag against its row, whatever the cache holds.
use truthbounty_api.Prelude.{
  ℕ, ◌≤◌, ◌<◌, String, ◌≡◌, refl, ap, ◌∙◌, Option, none, some, Bool, true, false, ◌||◌, [], Result,
  string_eq, arith, leb, ltb,
}
use truthbounty_api.Prelude.Maps.{get, get-put_self}
use truthbounty_api.Prelude.Keyed.{find-get}
use truthbounty_api.Prelude.KeyedCache.{plain}
use truthbounty_api.FeatureFlags.Flags.Types.{
  FeatureFlag, FeatureFlagContext, EvaluationResult, Store, CreateInput, UpdateInput,
}
use truthbounty_api.FeatureFlags.Flags.Service.{
  or_default, at_key, create, changed, update, only_enabled, toggle, rollback,
}
use truthbounty_api.FeatureFlags.Flags.Evaluation.{evaluate_flag, evaluate}
use truthbounty_api.FeatureFlags.Flags.Settled.{
  id_of, key_of, env_of, IsSettled, find_flag-IsSettled, find_flag-current, update_found-IsSettled,
  create_at-IsSettled, rollback_found-IsSettled,
}

module _ {N : Type 0} where
  module _ (below : ℕ → N → Bool) (date : String → Option ℕ) where
    -- An operation of the service; the id of a new flag is new, and an environment that is read has
    -- no colon.
    pub data Step (s : Store N) : Store N → Type 0 where
      creates :
          (zero_percent : N) (default_env id : String) (input : CreateInput N)
          → get id s.rows ≡ none
          → Step s (create zero_percent default_env id input s).0
      updates :
          (id : String) (input : UpdateInput N) (updated_by : Option String)
          → Step s (update id input updated_by s).0
      toggles :
          (id : String) (enabled : Bool) (updated_by : Option String)
          → Step s (toggle id enabled updated_by s).0
      rolls_back : (id : String) (target : ℕ) → Step s (rollback id target s).0
      evaluates :
          (now : ℕ) (default_env key : String) (c : FeatureFlagContext)
          → plain (or_default c.environment default_env) ≡ true
          → Step s (evaluate below date now default_env key c s).0

    pub data Run (s : Store N) : Store N → Type 0 where
      here : Run s s
      next : {t u : Store N} → Run s t → Step t u → Run s u

    Step-IsSettled : (s t : Store N) → Step s t → IsSettled s → IsSettled t
    unfolding create update toggle rollback evaluate
    Step-IsSettled s t (creates zero_percent default_env id input fresh) h =
        let env = or_default input.environment default_env in
        create_at-IsSettled zero_percent id env input (at_key input.key env s) s refl fresh h
    Step-IsSettled s t (updates id input updated_by) h =
        update_found-IsSettled id input updated_by (get id s.rows) s refl h
    Step-IsSettled s t (toggles id enabled updated_by) h =
        update_found-IsSettled id (only_enabled enabled) updated_by (get id s.rows) s refl h
    Step-IsSettled s t (rolls_back id target) h =
        rollback_found-IsSettled id target (get id s.rows) s h
    Step-IsSettled s t (evaluates now default_env key c tested) h =
        find_flag-IsSettled now key (or_default c.environment default_env) s tested h

    Run-IsSettled : (s t : Store N) → Run s t → IsSettled s → IsSettled t
    Run-IsSettled s t here h = h
    Run-IsSettled s t (next {t = u} run step) h = Step-IsSettled u t step (Run-IsSettled s u run h)

    empty-IsSettled : (s : Store N) → s.rows ≡ [] → s.cache ≡ [] → IsSettled s
    empty-IsSettled s no_rows no_cache = record {
      table = record {
        is_map = rw no_rows tt;
        own_id = λ id r found. let never : none ≡ some r = rw no_rows at found in cc;
        unique = λ id id' r r' found found' same same'.
            let never : none ≡ some r = rw no_rows at found in cc;
      };
      current = record {
        cache_map = rw no_cache tt;
        agrees = λ k env e tested there. let never : none ≡ some e = rw no_cache at there in cc;
      };
    }

    settled_uncached :
        (now : ℕ) (default_env key : String) (c : FeatureFlagContext) (s : Store N)
        → plain (or_default c.environment default_env) ≡ true
        → IsSettled s
        → (evaluate below date now default_env key c s).1
          ≡ evaluate_flag below date now key c
              (or_default c.environment default_env)
              (at_key key (or_default c.environment default_env) s)
    unfolding evaluate
    settled_uncached now default_env key c s tested h =
        let env = or_default c.environment default_env in
        ap (evaluate_flag below date now key c env) (find_flag-current now key env s tested h)

    -- The cache of the flags never shows: after any operations from no flags, `evaluate` answers for
    -- the row with the key in the environment, as it would without a cache, so that a change holds
    -- from the next evaluation on. The environments that are read have no colon, and the ids of new
    -- flags are new.
    pub evaluate_uncached :
        (s t : Store N) (now : ℕ) (default_env key : String) (c : FeatureFlagContext)
        → s.rows ≡ []
        → s.cache ≡ []
        → Run s t
        → plain (or_default c.environment default_env) ≡ true
        → (evaluate below date now default_env key c t).1
          ≡ evaluate_flag below date now key c
              (or_default c.environment default_env)
              (at_key key (or_default c.environment default_env) t)
    evaluate_uncached s t now default_env key c no_rows no_cache run tested =
        settled_uncached now default_env key c t tested
          (Run-IsSettled s t run (empty-IsSettled s no_rows no_cache))

    -- A rollback only switches off: to whatever earlier version, it does what `toggle` does with
    -- false, and from then on the flag is off for everybody in its environment. The flag was reached
    -- from no flags by the operations of the service, and its environment has no colon.
    pub rollback_switches_off :
        (s t : Store N) (id : String) (f : FeatureFlag N) (target now : ℕ) (default_env : String)
        (c : FeatureFlagContext)
        → s.rows ≡ []
        → s.cache ≡ []
        → Run s t
        → get id t.rows ≡ some f
        → 1 ≤ target
        → target < f.version
        → or_default c.environment default_env ≡ f.environment
        → plain f.environment ≡ true
        → (rollback id target t ≡ toggle id false f.created_by t)
          × ((evaluate below date now default_env f.key c (rollback id target t).0).1.enabled
              ≡ false)
    unfolding rollback toggle update
    rollback_switches_off s t id f target now default_env c no_rows no_cache run row low high here_
          tested =
        let h = Run-IsSettled s t run (empty-IsSettled s no_rows no_cache) in
        let good : (leb f.version target || ltb target 1) ≡ false = ground arith in
        let same : rollback id target t ≡ toggle id false f.created_by t =
          rw (row, good, row) refl in
        let off = changed (only_enabled false) f.created_by f in
        let u = (toggle id false f.created_by t).0 in
        let settled = Step-IsSettled t u (toggles id false f.created_by) h in
        let stored : get id u.rows ≡ some off = rw row (get-put_self id off t.rows) in
        let found : at_key f.key f.environment u ≡ some off =
          find-get id_of key_of env_of u.rows id off settled.table stored in
        let answer = settled_uncached now default_env f.key c u (ap plain here_ ∙ tested) settled in
        (
          same,
          ap
                (λ (r : Store N × Result (FeatureFlag N)).
                  (evaluate below date now default_env f.key c r.0).1.enabled)
                same
              ∙ ap (λ (a : EvaluationResult). a.enabled) answer
              ∙ rw (here_, found) refl,
        )
