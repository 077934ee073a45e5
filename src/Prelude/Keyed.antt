-- ===== src/Prelude/Keyed.antt =====
-- A table whose rows have an id, and a key in an environment that no other row has.
use Prim.Native.String.{String}
use mathlib.Core.Path.{◌≡◌, refl, sym, ap, ◌∙◌, subst}
use mathlib.Core.Logic.{inl, inr}
use mathlib.Core.Bool.{Bool, true, ◌&&◌}
use mathlib.Core.Option.{none, some, some-injective}
use native.Mathlib.Omega.{arith}
use truthbounty_api.Prelude.Tests.{Option-cases}
use truthbounty_api.Prelude.Classes.{◌===◌, string_eq, beq_refl, eq_of_beq}
use truthbounty_api.Prelude.Caches.{get-delete-some}
use truthbounty_api.Prelude.Tables.{find_row, find_row-some, find_row-none, put-cases}
use truthbounty_api.Prelude.Maps.{JsMap, get, put, delete, IsMap, put-IsMap, delete-IsMap}

module _ {R : Type 0} (id_of key_of env_of : R → String) where
  abbrev pub is_row : String → String → R → Bool
  is_row key environment r = (key_of r === key) && (env_of r === environment)

  -- A row stands under its id, alone with its key in its environment.
  pub record IsTable (rows : JsMap String R) : Type 0 where
    pub is_map : IsMap rows
    pub own_id : (id : String) (r : R) → get id rows ≡ some r → id_of r ≡ id
    pub unique :
        (id id' : String) (r r' : R)
        → get id rows ≡ some r
        → get id' rows ≡ some r'
        → key_of r ≡ key_of r'
        → env_of r ≡ env_of r'
        → id ≡ id'

  -- No other id has the row's key and environment, and its id has no others.
  pub record Fits (rows : JsMap String R) (r : R) : Type 0 where
    pub alone :
        (id : String) (x : R)
        → get id rows ≡ some x
        → key_of x ≡ key_of r
        → env_of x ≡ env_of r
        → id ≡ id_of r
    pub same_names :
        (x : R) → get (id_of r) rows ≡ some x → (key_of x ≡ key_of r) × (env_of x ≡ env_of r)

  module _ (rows : JsMap String R) where
    pub find-some :
        (key environment : String) (r : R)
        → IsTable rows
        → find_row (is_row key environment) rows ≡ some r
        → (get (id_of r) rows ≡ some r) × (key_of r ≡ key) × (env_of r ≡ environment)
    find-some key environment r h found =
        let row = find_row-some (is_row key environment) rows r h.is_map found in
        let same = h.own_id row.1.0 r row.1.1 in
        (
          subst (λ i. get i rows ≡ some r) (sym same) row.1.1,
          eq_of_beq (key_of r) key (ground (arith, row.0)),
          eq_of_beq (env_of r) environment (ground (arith, row.0)),
        )

    pub find-none :
        (key environment id : String) (r : R)
        → find_row (is_row key environment) rows ≡ none
        → get id rows ≡ some r
        → key_of r ≡ key
        → env_of r ≡ environment
        → ⊥
    find-none key environment id r missing found same same' =
        let off = find_row-none (is_row key environment) rows id r missing found in
        let on : is_row key environment r ≡ true =
          rw (same, same', beq_refl key, beq_refl environment) refl in
        cc

    -- A row is found by its key and environment.
    pub find-get :
        (id : String) (r : R)
        → IsTable rows
        → get id rows ≡ some r
        → find_row (is_row (key_of r) (env_of r)) rows ≡ some r
    find-get id r h found = elim (Option-cases (find_row (is_row (key_of r) (env_of r)) rows)) [
      | inl missing ↦ absurd (find-none (key_of r) (env_of r) id r missing found refl refl)
      | inr hit ↦
          let row = find-some (key_of r) (env_of r) hit.0 h hit.1 in
          let same = h.unique (id_of hit.0) id hit.0 r row.0 found row.1 row.2 in
          hit.1 ∙ sym (subst (λ i. get i rows ≡ some hit.0) same row.0) ∙ found
    ]

    pub put-IsTable : (r : R) → Fits rows r → IsTable rows → IsTable (put (id_of r) r rows)
    put-IsTable r fits h = record {
      is_map = put-IsMap (id_of r) r rows h.is_map;
      own_id = λ id x found. elim (put-cases (id_of r) id r x rows found) [
        | inl new ↦ ap id_of (sym new.1) ∙ new.0
        | inr old ↦ h.own_id id x old.1
      ];
      unique = λ id id' x x' found found' same same'. elim (put-cases (id_of r) id r x rows found) [
        | inl new ↦ elim (put-cases (id_of r) id' r x' rows found') [
          | inl new' ↦ sym new.0 ∙ new'.0
          | inr old' ↦
              let k = ap key_of new.1 ∙ same in
              let e = ap env_of new.1 ∙ same' in
              sym new.0 ∙ sym (fits.alone id' x' old'.1 (sym k) (sym e))
        ]
        | inr old ↦ elim (put-cases (id_of r) id' r x' rows found') [
          | inl new' ↦
              fits.alone id x old.1 (same ∙ sym (ap key_of new'.1)) (same' ∙ sym (ap env_of new'.1))
              ∙ new'.0
          | inr old' ↦ h.unique id id' x x' old.1 old'.1 same same'
        ]
      ];
    }

    pub delete-IsTable : (id : String) → IsTable rows → IsTable (delete id rows)
    delete-IsTable id h = record {
      is_map = delete-IsMap id rows h.is_map;
      own_id = λ j x found. h.own_id j x (get-delete-some id j x rows h.is_map found).1;
      unique = λ j j' x x' found found' same same'.
          h.unique j j' x x' (get-delete-some id j x rows h.is_map found).1
            (get-delete-some id j' x' rows h.is_map found').1 same same';
    }

    -- A row with the key and environment of one that is there fits in its place.
    pub in_place-Fits :
        (r x : R)
        → IsTable rows
        → get (id_of r) rows ≡ some x
        → key_of x ≡ key_of r
        → env_of x ≡ env_of r
        → Fits rows r
    in_place-Fits r x h row same same' = record {
      alone = λ id y found k e. h.unique id (id_of r) y x found row (k ∙ sym same) (e ∙ sym same');
      same_names = λ y found.
          let is_y = some-injective x y (sym row ∙ found) in
          (ap key_of (sym is_y) ∙ same, ap env_of (sym is_y) ∙ same');
    }

    -- A row with a new id fits where none has its key and environment.
    pub new-Fits :
        (r : R)
        → get (id_of r) rows ≡ none
        → find_row (is_row (key_of r) (env_of r)) rows ≡ none
        → Fits rows r
    new-Fits r fresh missing = record {
      alone = λ id x found k e. absurd (find-none (key_of r) (env_of r) id x missing found k e);
      same_names = λ x found. let never : none ≡ some x = sym fresh ∙ found in cc;
    }
