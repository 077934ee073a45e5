-- ===== src/Prelude/Caches.antt =====
-- A cache of rows: what keeps its entries equal to the rows.
use Prim.Native.String.{String}
use mathlib.Core.Path.{◌≡◌, sym, ◌∙◌, subst}
use mathlib.Core.Logic.{◌≢◌, ◌⊎◌, inl, inr}
use mathlib.Core.Bool.{false}
use mathlib.Core.Option.{none, some, some-injective}
use native.Mathlib.Omega.{arith}
use truthbounty_api.Prelude.Tests.{Bool-cases}
use truthbounty_api.Prelude.Classes.{◌===◌, string_eq, beq_refl, eq_of_beq}
use truthbounty_api.Prelude.Maps.{
  JsMap, get, put, delete, IsMap, get-put, get-delete_ne, put-IsMap, delete-IsMap, get-delete_self,
}

module _ {ℓ} {V : Type ℓ} where
  pub record Coheres (rows cache : JsMap String V) : Type ℓ where
    pub cache_map : IsMap cache
    pub agrees : (id : String) (v : V) → get id cache ≡ some v → get id rows ≡ some v

  -- A row is cached.
  pub fill-Coheres :
      (id : String) (v : V) (rows cache : JsMap String V)
      → get id rows ≡ some v
      → Coheres rows cache
      → Coheres rows (put id v cache)
  fill-Coheres id v rows cache row h = record {
    cache_map = put-IsMap id v cache h.cache_map;
    agrees = λ j x hit. ground (arith, get-put id j v cache, eq_of_beq id j, h.agrees j x, row);
  }

  -- Entries that are left after a deletion stand under other keys.
  pub get-delete-some :
      (id j : String) (x : V) (cache : JsMap String V)
      → IsMap cache
      → get j (delete id cache) ≡ some x
      → ((id === j) ≡ false) × (get j cache ≡ some x)
  get-delete-some id j x cache is_map hit = elim (Bool-cases (id === j)) [
    | inl same_id ↦
        let gone = get-delete_self id cache is_map in
        let hit' =
          subst (λ k. get k (delete id cache) ≡ some x) (sym (eq_of_beq id j same_id)) hit in
        cc
    | inr other ↦
        let ne : id ≢ j = λ e. ground (arith, beq_refl id, e, other) in
        (other, sym (get-delete_ne id j cache ne) ∙ hit)
  ]

  -- A row is written and its entry dropped.
  pub write-Coheres :
      (id : String) (v : V) (rows cache : JsMap String V)
      → Coheres rows cache
      → Coheres (put id v rows) (delete id cache)
  write-Coheres id v rows cache h = record {
    cache_map = delete-IsMap id cache h.cache_map;
    agrees = λ j x hit.
        let left = get-delete-some id j x cache h.cache_map hit in
        get-put id j v rows ∙ rw (left.0) (h.agrees j x left.1);
  }

  -- A row is written that no entry stands for.
  pub add-Coheres :
      (id : String) (v : V) (rows cache : JsMap String V)
      → get id rows ≡ none
      → Coheres rows cache
      → Coheres (put id v rows) cache
  add-Coheres id v rows cache fresh h = record {
    cache_map = h.cache_map;
    agrees = λ j x hit. ground (arith, get-put id j v rows, eq_of_beq id j, h.agrees j x, fresh);
  }

  -- A row is written together with its entry.
  pub create-Coheres :
      (id : String) (v : V) (rows cache : JsMap String V)
      → Coheres rows cache
      → Coheres (put id v rows) (put id v cache)
  create-Coheres id v rows cache h = record {
    cache_map = put-IsMap id v cache h.cache_map;
    agrees = λ j x hit. ground (arith, get-put id j v cache, get-put id j v rows, h.agrees j x);
  }

  pub forget-Coheres :
      (id : String) (rows cache : JsMap String V)
      → Coheres rows cache
      → Coheres rows (delete id cache)
  forget-Coheres id rows cache h = record {
    cache_map = delete-IsMap id cache h.cache_map;
    agrees = λ j x hit. h.agrees j x (get-delete-some id j x cache h.cache_map hit).1;
  }

  -- What is found after a write was written, or was there before.
  pub put-some :
      (k j : String) (v x : V) (m : JsMap String V)
      → get j (put k v m) ≡ some x
      → ((k ≡ j) × (v ≡ x)) ⊎ (get j m ≡ some x)
  put-some k j v x m found = elim (Bool-cases (k === j)) [
    | inl same_id ↦
        let is_v : some v ≡ some x = rw same_id at (sym (get-put k j v m) ∙ found) in
        inl (eq_of_beq k j same_id, some-injective _ _ is_v)
    | inr other ↦ inr (rw other at (sym (get-put k j v m) ∙ found))
  ]

  pub put-none :
      (k j : String) (v : V) (m : JsMap String V)
      → get j (put k v m) ≡ none
      → ((k === j) ≡ false) × (get j m ≡ none)
  put-none k j v m gone = elim (Bool-cases (k === j)) [
    | inl same_id ↦ let is_none : some v ≡ none = rw same_id at (sym (get-put k j v m) ∙ gone) in cc
    | inr other ↦ (other, rw other at (sym (get-put k j v m) ∙ gone))
  ]
