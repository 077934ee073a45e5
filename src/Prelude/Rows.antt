-- ===== src/Prelude/Rows.antt =====
-- A table whose rows all have a property, and what the writes of rows keep of it.
use Prim.Native.String.{String}
use mathlib.Core.Path.{◌≡◌, subst}
use mathlib.Core.Logic.{inl, inr}
use mathlib.Core.Option.{some}
use truthbounty_api.Prelude.Classes.{string_eq}
use truthbounty_api.Prelude.Maps.{JsMap, get, put, delete, IsMap, put-IsMap, delete-IsMap}
use truthbounty_api.Prelude.Caches.{get-delete-some, put-some}

module _ {ℓ κ} {V : Type ℓ} (P : String → V → Type κ) where
  pub record AllRows (m : JsMap String V) : Type (ℓ ⊔ κ) where
    pub is_map : IsMap m
    pub each : (id : String) (v : V) → get id m ≡ some v → P id v

  pub put-AllRows :
      (id : String) (v : V) (m : JsMap String V) → P id v → AllRows m → AllRows (put id v m)
  put-AllRows id v m p h = record {
    is_map = put-IsMap id v m h.is_map;
    each = λ j x found. elim (put-some id j v x m found) [
      | inl hit ↦ subst (λ k. P k x) hit.0 (subst (λ y. P id y) hit.1 p)
      | inr old ↦ h.each j x old
    ];
  }

  pub delete-AllRows : (id : String) (m : JsMap String V) → AllRows m → AllRows (delete id m)
  delete-AllRows id m h = record {
    is_map = delete-IsMap id m h.is_map;
    each = λ j x found. h.each j x (get-delete-some id j x m h.is_map found).1;
  }
