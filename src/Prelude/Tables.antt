-- ===== src/Prelude/Tables.antt =====
-- Queries of a table by a test on its rows: `findOne({ where })`.
use Prim.Native.String.{String}
use mathlib.Core.Path.{◌≡◌, refl, sym, ◌∙◌}
use mathlib.Core.Logic.{◌⊎◌, inl, inr}
use mathlib.Core.Bool.{Bool, true, false}
use mathlib.Core.List.{List, [], ◌∷◌, ◌++◌}
use mathlib.Core.Option.{Option, none, some, some-injective}
use truthbounty_api.Prelude.Tests.{Bool-cases, Option-cases, if◌then◌else◌}
use truthbounty_api.Prelude.Classes.{◌===◌, string_eq, beq_refl, eq_of_beq}
use truthbounty_api.Prelude.Maps.{JsMap, get, put, delete, delete_all, IsMap, get-put, delete-IsMap}
use truthbounty_api.Prelude.Caches.{get-delete-some}

module _ {ℓ} {V : Type ℓ} (p : V → Bool) where
  abbrev pub find_row : JsMap String V → Option V
  find_row [] = none
  find_row ((id, v) ∷ m) = if p v then some v else find_row m

  abbrev pub find_by : List V → Option V
  find_by [] = none
  find_by (v ∷ vs) = if p v then some v else find_by vs

  pub find_row-some :
      (m : JsMap String V) (v : V)
      → IsMap m
      → find_row m ≡ some v
      → (p v ≡ true) × ((id : String) × (get id m ≡ some v))
  find_row-some [] v is_map found = cc
  find_row-some ((id, w) ∷ m) v is_map found = elim (Bool-cases (p w)) [
    | inl hit ↦
        let same = some-injective w v (rw hit at found) in (cc, (id, rw (beq_refl id, same) refl))
    | inr miss ↦
        let rest = find_row-some m v is_map.1 (rw miss at found) in
        let other = before id w rest.1.0 v m is_map.0 rest.1.1 in
        (rest.0, (rest.1.0, rw other rest.1.1))
  ]
    where
      before :
          (id : String) (w : V) (j : String) (v : V) (m : JsMap String V)
          → get id m ≡ none
          → get j m ≡ some v
          → (id === j) ≡ false
      before id w j v m gone found = elim (Bool-cases (id === j)) [
        | inl same ↦ let q = eq_of_beq id j same in cc
        | inr other ↦ other
      ]

  pub find_row-none :
      (m : JsMap String V) (id : String) (v : V)
      → find_row m ≡ none
      → get id m ≡ some v
      → p v ≡ false
  find_row-none [] id v missing found = cc
  find_row-none ((j, w) ∷ m) id v missing found = elim (Bool-cases (p w)) [
    | inl hit ↦ let never : some w ≡ none = rw hit at missing in cc
    | inr miss ↦ elim (Bool-cases (j === id)) [
      | inl same ↦ let is_v = some-injective w v (rw same at found) in cc
      | inr other ↦ find_row-none m id v (rw miss at missing) (rw other at found)
    ]
  ]

  pub find_by-append : (vs ws : List V) (v : V) → find_by vs ≡ some v → find_by (vs ++ ws) ≡ some v
  find_by-append [] ws v found = cc
  find_by-append (u ∷ vs) ws v found = elim (Bool-cases (p u)) [
    | inl hit ↦ rw hit (rw hit at found)
    | inr miss ↦ rw miss (find_by-append vs ws v (rw miss at found))
  ]

  pub find_by_last :
      (vs : List V) (v : V) → find_by vs ≡ none → p v ≡ true → find_by (vs ++ (v ∷ [])) ≡ some v
  find_by_last [] v missing hit = rw hit refl
  find_by_last (u ∷ vs) v missing hit = elim (Bool-cases (p u)) [
    | inl first ↦ let never : some u ≡ none = rw first at missing in cc
    | inr miss ↦ rw miss (find_by_last vs v (rw miss at missing) hit)
  ]

  pub find_by_last_miss :
      (vs : List V) (v : V) → p v ≡ false → find_by (vs ++ (v ∷ [])) ≡ find_by vs
  find_by_last_miss [] v miss = rw miss refl
  find_by_last_miss (u ∷ vs) v miss = elim (Bool-cases (p u)) [
    | inl first ↦ rw first refl
    | inr other ↦ rw other (find_by_last_miss vs v miss)
  ]

  pub find_by-holds : (vs : List V) (v : V) → find_by vs ≡ some v → p v ≡ true
  find_by-holds [] v found = cc
  find_by-holds (u ∷ vs) v found = elim (Bool-cases (p u)) [
    | inl hit ↦ let same = some-injective u v (rw hit at found) in cc
    | inr miss ↦ find_by-holds vs v (rw miss at found)
  ]

-- What is found after a write was written, or stands under another key.
pub put-cases {ℓ} :
    {V : Type ℓ} (k j : String) (v x : V) (m : JsMap String V)
    → get j (put k v m) ≡ some x
    → ((k ≡ j) × (v ≡ x)) ⊎ (((k === j) ≡ false) × (get j m ≡ some x))
put-cases k j v x m found = elim (Bool-cases (k === j)) [
  | inl same ↦
      let is_v = rw same at (sym (get-put k j v m) ∙ found) in
      inl (eq_of_beq k j same, some-injective v x is_v)
  | inr other ↦ inr (other, rw other at (sym (get-put k j v m) ∙ found))
]

module _ {V : Type 0} where
  pub delete-none :
      (k j : String) (m : JsMap String V) → IsMap m → get j m ≡ none → get j (delete k m) ≡ none
  delete-none k j m h gone = elim (Option-cases (get j (delete k m))) [
    | inl none_ ↦ none_
    | inr hit ↦ let old : get j m ≡ some hit.0 = (get-delete-some k j hit.0 m h hit.1).1 in cc
  ]

  pub delete_all-none :
      (ks : List String) (j : String) (m : JsMap String V)
      → IsMap m
      → get j m ≡ none
      → get j (delete_all ks m) ≡ none
  delete_all-none [] j m h gone = gone
  delete_all-none (k ∷ ks) j m h gone =
      delete_all-none ks j (delete k m) (delete-IsMap k m h) (delete-none k j m h gone)

  pub put-none_ne :
      (k j : String) (v : V) (m : JsMap String V)
      → (k === j) ≡ false
      → get j m ≡ none
      → get j (put k v m) ≡ none
  put-none_ne k j v m other gone = get-put k j v m ∙ rw other gone
