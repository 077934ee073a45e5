-- ===== src/Prelude/KeyedCache.antt =====
-- A cache by key and environment of such a table.
use Prim.Native.Nat.{ℕ}
use Prim.Native.Char.{char}
use Prim.Native.String.{String, ◌∷◌ as cons, ◌++◌ as append_text}
use mathlib.Core.Path.{◌≡◌, sym, ap, ◌∙◌, subst}
use mathlib.Core.Logic.{inl, inr}
use mathlib.Core.Bool.{Bool, true, false, not}
use mathlib.Core.Option.{Option, none, some, some-injective}
use native.Mathlib.Omega.{arith}
use text.Mathlib.TextLemmas.{nil-append, cons-append, append_cancel_left}
use truthbounty_api.Prelude.Tests.{Bool-cases, Option-cases}
use truthbounty_api.Prelude.Classes.{◌===◌, string_eq, beq_refl, eq_of_beq}
use truthbounty_api.Prelude.Texts.{has_code, separated_inj}
use truthbounty_api.Prelude.Caches.{get-delete-some}
use truthbounty_api.Prelude.Redis.{Entry, is_live, read}
use truthbounty_api.Prelude.Tables.{find_row, put-cases}
use truthbounty_api.Prelude.Maps.{
  JsMap, get, put, delete, IsMap, put-IsMap, delete-IsMap, get-put, get-delete_ne,
}
use truthbounty_api.Prelude.Keyed.{
  is_row, IsTable, Fits, find-some, find-get, put-IsTable, delete-IsTable,
}

-- An environment without a colon.
abbrev pub plain : String → Bool
plain environment = not (has_code 58 environment)

-- The text of a key in an environment, after a prefix.
abbrev pub keyed_text : String → String → String → String
keyed_text prefix key environment =
    append_text prefix (append_text environment (append_text ":" key))

colon-append : (t : String) → append_text ":" t ≡ cons (char 58 tt) t
colon-append t = cons-append (char 58 tt) "" t ∙ ap (cons (char 58 tt)) (nil-append t)

-- The texts tell keys and environments apart.
keyed_text_inj :
    (prefix k k' e e' : String)
    → plain e ≡ true
    → plain e' ≡ true
    → keyed_text prefix k e ≡ keyed_text prefix k' e'
    → (k ≡ k') × (e ≡ e')
keyed_text_inj prefix k k' e e' h h' same =
    let rest = append_cancel_left prefix _ _ same in
    let parts =
      separated_inj 58 tt e e' k k' (ground (arith, h)) (ground (arith, h')) (
        ap (append_text e) (sym (colon-append k)) ∙ rest ∙ ap (append_text e') (colon-append k')) in
    (parts.1, parts.0)

module _ {R : Type 0} (id_of key_of env_of : R → String) where
  module _ {W : Type 0} (shown : R → W) (prefix : String) where
    -- What the cache holds for a key in an environment is what its row shows.
    pub record IsCurrent (rows : JsMap String R) (cache : JsMap String (Entry W)) : Type 0 where
      pub cache_map : IsMap cache
      pub agrees :
          (key environment : String) (e : Entry W)
          → plain environment ≡ true
          → get (keyed_text prefix key environment) cache ≡ some e
          → (r : R) × ((find_row (is_row id_of key_of env_of key environment) rows ≡ some r)
              × (shown r ≡ e.value))

    module _ (rows : JsMap String R) (cache : JsMap String (Entry W)) where
      -- What is read from the cache is in it.
      read-some :
          (now : ℕ) (k : String) (v : W)
          → read now k cache ≡ some v
          → (e : Entry W) × ((get k cache ≡ some e) × (e.value ≡ v))
      read-some now k v found = elim (Option-cases (get k cache)) [
        | inl missing ↦ let never : none ≡ some v = rw missing at found in cc
        | inr hit ↦ elim (Bool-cases (is_live now (hit.0).until)) [
          | inl live ↦ (hit.0, (hit.1, some-injective (hit.0).value v (rw (hit.1, live) at found)))
          | inr dead ↦ let never : none ≡ some v = rw (hit.1, dead) at found in cc
        ]
      ]

      pub read-IsCurrent :
          (now : ℕ) (key environment : String) (v : W)
          → plain environment ≡ true
          → IsCurrent rows cache
          → read now (keyed_text prefix key environment) cache ≡ some v
          → (r : R) × ((find_row (is_row id_of key_of env_of key environment) rows ≡ some r)
              × (shown r ≡ v))
      read-IsCurrent now key environment v tested h found =
          let e = read-some now (keyed_text prefix key environment) v found in
          let r = h.agrees key environment e.0 tested e.1.0 in (r.0, (r.1.0, r.1.1 ∙ e.1.1))

      -- A row is cached.
      pub fill-IsCurrent :
          (key environment : String) (r : R) (until : Option ℕ)
          → plain environment ≡ true
          → find_row (is_row id_of key_of env_of key environment) rows ≡ some r
          → IsCurrent rows cache
          → IsCurrent rows (
              put
                (keyed_text prefix key environment)
                (record { value = shown r; until = until })
                cache)
      fill-IsCurrent key environment r until tested found h =
          let own = keyed_text prefix key environment in
          let e : Entry W = record { value = shown r; until = until } in
          record {
            cache_map = put-IsMap own e cache h.cache_map;
            agrees = λ k env x tested' there.
                elim (put-cases own (keyed_text prefix k env) e x cache there) [
                  | inl new ↦
                      let q = keyed_text_inj prefix key k environment env tested tested' new.0 in
                      (r, (rw (sym q.0, sym q.1) found, ap (λ (y : Entry W). y.value) new.1))
                  | inr old ↦ h.agrees k env x tested' old.1
                ];
          }

      -- A row of another text that is still there is still found.
      still_found :
          (rows' : JsMap String R) (r : R) (key environment : String) (x : R)
          → IsTable id_of key_of env_of rows
          → IsTable id_of key_of env_of rows'
          → find_row (is_row id_of key_of env_of key environment) rows ≡ some x
          → (keyed_text prefix (key_of r) (env_of r) === keyed_text prefix key environment) ≡ false
          → ((id_of r ≡ id_of x) → (key_of x ≡ key_of r) × (env_of x ≡ env_of r))
          → (((id_of r === id_of x) ≡ false)
              → get (id_of x) rows ≡ some x
              → get (id_of x) rows' ≡ some x)
          → find_row (is_row id_of key_of env_of key environment) rows' ≡ some x
      still_found rows' r key environment x h h' found other names stays =
          let row = find-some id_of key_of env_of rows key environment x h found in
          elim (Bool-cases (id_of r === id_of x)) [
            | inr apart ↦
                rw (sym row.1, sym row.2)
                  (find-get id_of key_of env_of rows' (id_of x) x h' (stays apart row.0))
            | inl same ↦
                let q = names (eq_of_beq (id_of r) (id_of x) same) in
                let text =
                  ap (λ a. keyed_text prefix a (env_of r)) (sym q.0 ∙ row.1)
                  ∙ ap (keyed_text prefix key) (sym q.1 ∙ row.2) in
                absurd (ground (arith, beq_refl (keyed_text prefix key environment), text, other))
          ]

      -- A row is written and its entry dropped.
      pub write-IsCurrent :
          (r : R)
          → Fits id_of key_of env_of rows r
          → IsTable id_of key_of env_of rows
          → IsCurrent rows cache
          → IsCurrent
              (put (id_of r) r rows)
              (delete (keyed_text prefix (key_of r) (env_of r)) cache)
      write-IsCurrent r fits h hc =
          let own = keyed_text prefix (key_of r) (env_of r) in
          record {
            cache_map = delete-IsMap own cache hc.cache_map;
            agrees = λ k env e tested there.
                let left =
                  get-delete-some own (keyed_text prefix k env) e cache hc.cache_map there in
                let old = hc.agrees k env e tested left.1 in
                let row = find-some id_of key_of env_of rows k env old.0 h old.1.0 in
                (
                  old.0,
                  (
                    still_found (put (id_of r) r rows) r k env old.0 h
                        (put-IsTable id_of key_of env_of rows r fits h) old.1.0 left.0
                        (λ same.
                          fits.same_names old.0
                            (subst (λ i. get i rows ≡ some old.0) (sym same) row.0))
                        (λ apart there_. get-put (id_of r) (id_of old.0) r rows ∙ rw apart there_),
                    old.1.1,
                  ),
                );
          }

      -- A row is deleted with its entry.
      pub erase-IsCurrent :
          (id : String) (r : R)
          → get id rows ≡ some r
          → IsTable id_of key_of env_of rows
          → IsCurrent rows cache
          → IsCurrent (delete id rows) (delete (keyed_text prefix (key_of r) (env_of r)) cache)
      erase-IsCurrent id r found h hc =
          let own = keyed_text prefix (key_of r) (env_of r) in
          let is_id = h.own_id id r found in
          record {
            cache_map = delete-IsMap own cache hc.cache_map;
            agrees = λ k env e tested there.
                let left =
                  get-delete-some own (keyed_text prefix k env) e cache hc.cache_map there in
                let old = hc.agrees k env e tested left.1 in
                let row = find-some id_of key_of env_of rows k env old.0 h old.1.0 in
                (
                  old.0,
                  (
                    still_found (delete id rows) r k env old.0 h
                        (delete-IsTable id_of key_of env_of rows id h) old.1.0 left.0
                        (λ same.
                          let is_old =
                            some-injective old.0 r
                              (sym row.0 ∙ ap (λ i. get i rows) (sym same ∙ is_id) ∙ found) in
                          (ap key_of is_old, ap env_of is_old))
                        (λ apart there_.
                          get-delete_ne id (id_of old.0) rows
                            (λ q. ground (arith, beq_refl (id_of r), is_id, q, apart))
                          ∙ there_),
                    old.1.1,
                  ),
                );
          }
