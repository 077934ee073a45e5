-- ===== src/FeatureFlags/Configuration/Records.antt =====
-- The rows of the configuration against their history.
use truthbounty_api.Prelude.{
  ℕ, ◌≤◌, ◌<◌, ◌==◌, String, ◌≡◌, sym, ap, ◌∙◌, inl, inr, Option, none, some, false, [], ◌∷◌,
  string_eq, ◌===◌, arith, Bool-cases, beq_refl, subst,
}
use truthbounty_api.Prelude.Maps.{get}
use truthbounty_api.Prelude.Tables.{find_by-append, find_by_last, find_by_last_miss, put-cases}
use truthbounty_api.Prelude.Keyed.{IsTable, Fits, put-IsTable}
use truthbounty_api.FeatureFlags.Configuration.{
  ConfigurationValue, ConfigurationHistory, Store, is_version, history_at, history_row, store_row,
}

module _ {V : Type 0} where
  abbrev pub id_of : ConfigurationValue V → String
  id_of r = r.id

  abbrev pub key_of : ConfigurationValue V → String
  key_of r = r.key

  abbrev pub env_of : ConfigurationValue V → String
  env_of r = r.environment

  -- A row stands under its id, alone with its key in its environment, and its versions from 1 on
  -- are in the history, the last one with its value.
  pub record IsVersioned (s : Store V) : Type 0 where
    pub table : IsTable id_of key_of env_of s.rows
    pub positive : (id : String) (r : ConfigurationValue V) → get id s.rows ≡ some r → 1 ≤ r.version
    pub past :
        (id : String) (r : ConfigurationValue V) (n : ℕ)
        → get id s.rows ≡ some r
        → 1 ≤ n
        → n ≤ r.version
        → (h : ConfigurationHistory V) × (history_at id n s ≡ some h)
    pub present :
        (id : String) (r : ConfigurationValue V)
        → get id s.rows ≡ some r
        → (h : ConfigurationHistory V) × ((history_at id r.version s ≡ some h)
            × (h.value ≡ r.value))
    pub future :
        (id : String) (r : ConfigurationValue V) (n : ℕ)
        → get id s.rows ≡ some r
        → r.version < n
        → history_at id n s ≡ none

  -- The row is the next version of its id, and fits into the table.
  pub record IsNext (s : Store V) (r : ConfigurationValue V) : Type 0 where
    pub counted : 1 ≤ r.version
    pub before :
        (n : ℕ)
        → 1 ≤ n
        → n < r.version
        → (h : ConfigurationHistory V) × (history_at r.id n s ≡ some h)
    pub after : (n : ℕ) → r.version ≤ n → history_at r.id n s ≡ none
    pub fits : Fits id_of key_of env_of s.rows r

  module _ (by reason : Option String) (r : ConfigurationValue V) (s : Store V) where
    other_history :
        (id : String) (n : ℕ)
        → (r.id === id) ≡ false
        → history_at id n (store_row by reason r s) ≡ history_at id n s
    other_history id n other =
        find_by_last_miss (is_version id n) s.history (history_row by reason r)
          (ground (arith, other))

    other_version :
        (n : ℕ)
        → (r.version == n) ≡ false
        → history_at r.id n (store_row by reason r s) ≡ history_at r.id n s
    other_version n other =
        find_by_last_miss (is_version r.id n) s.history (history_row by reason r)
          (ground (arith, other))

    this_version :
        history_at r.id r.version s ≡ none
        → history_at r.id r.version (store_row by reason r s) ≡ some (history_row by reason r)
    this_version missing =
        find_by_last (is_version r.id r.version) s.history (history_row by reason r) missing
          (ground (arith, beq_refl r.id))

    kept_history :
        (id : String) (n : ℕ)
        → (h : ConfigurationHistory V) × (history_at id n s ≡ some h)
        → (h : ConfigurationHistory V) × (history_at id n (store_row by reason r s) ≡ some h)
    kept_history id n (h, found) =
        (h, find_by-append (is_version id n) s.history (history_row by reason r ∷ []) h found)

    past_self :
        IsNext s r
        → (n : ℕ) → 1 ≤ n
        → n ≤ r.version
        → (h : ConfigurationHistory V) × (history_at r.id n (store_row by reason r s) ≡ some h)
    past_self next n low high = elim (Bool-cases (r.version == n)) [
      | inl last ↦
          let same : r.version ≡ n = ground (arith, last) in
          (
            history_row by reason r,
            subst
                (λ m. history_at r.id m (store_row by reason r s) ≡ some (history_row by reason r))
                same (this_version (next.after r.version (omega arith))),
          )
      | inr other ↦ kept_history r.id n (next.before n low (ground (arith, other)))
    ]

    future_self :
        IsNext s r → (n : ℕ) → r.version < n → history_at r.id n (store_row by reason r s) ≡ none
    future_self next n high = other_version n (ground arith) ∙ next.after n (omega arith)

    pub store_row-IsVersioned : IsNext s r → IsVersioned s → IsVersioned (store_row by reason r s)
    store_row-IsVersioned next h = record {
      table = put-IsTable id_of key_of env_of s.rows r next.fits h.table;
      positive = λ id x found. elim (put-cases r.id id r x s.rows found) [
        | inl new ↦ subst (λ (y : ConfigurationValue V). 1 ≤ y.version) new.1 next.counted
        | inr old ↦ h.positive id x old.1
      ];
      past = λ id x n found low high. elim (put-cases r.id id r x s.rows found) [
        | inl new ↦
            let high' = subst (λ (y : ConfigurationValue V). n ≤ y.version) (sym new.1) high in
            subst
              (λ i.
                (k : ConfigurationHistory V) × (history_at i n (store_row by reason r s) ≡ some k))
              new.0 (past_self next n low high')
        | inr old ↦ kept_history id n (h.past id x n old.1 low high)
      ];
      present = λ id x found. elim (put-cases r.id id r x s.rows found) [
        | inl new ↦
            let last = this_version (next.after r.version (omega arith)) in
            (
              history_row by reason r,
              (
                subst
                    (λ m.
                      history_at id m (store_row by reason r s) ≡ some (history_row by reason r))
                    (ap (λ (y : ConfigurationValue V). y.version) new.1)
                    (subst
                      (λ i.
                        history_at i r.version (store_row by reason r s)
                        ≡ some (history_row by reason r))
                      new.0 last),
                ap (λ (y : ConfigurationValue V). y.value) new.1,
              ),
            )
        | inr old ↦
            let k = h.present id x old.1 in
            (
              k.0,
              (
                find_by-append (is_version id x.version) s.history (history_row by reason r ∷ [])
                    k.0 k.1.0,
                k.1.1,
              ),
            )
      ];
      future = λ id x n found high. elim (put-cases r.id id r x s.rows found) [
        | inl new ↦
            let high' = subst (λ (y : ConfigurationValue V). y.version < n) (sym new.1) high in
            subst (λ i. history_at i n (store_row by reason r s) ≡ none) new.0
              (future_self next n high')
        | inr old ↦ other_history id n old.0 ∙ h.future id x n old.1 high
      ];
    }
