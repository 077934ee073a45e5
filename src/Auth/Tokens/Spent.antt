-- ===== src/Auth/Tokens/Spent.antt =====
-- An id that has no entry keeps none, unless a new token takes it.
use truthbounty_api.Prelude.{
  ℕ, String, ◌≡◌, inl, inr, Option, none, some, false, List, [], ◌∷◌, ◌++◌, take, string_eq, ◌===◌,
  Bool-cases,
}
use truthbounty_api.Prelude.Maps.{
  get, put, delete, IsMap, put-IsMap, delete-IsMap, delete_all-IsMap,
}
use truthbounty_api.Prelude.Redis.{Entry, expiry, read}
use truthbounty_api.Auth.Tokens.{
  RefreshData, Sessions, Draw, Config, or_empty, blacklist_token, is_blacklisted, surplus,
  refresh_data, add_refresh, generate_token_pair, revoke_each, revoke_all_user_tokens, rotate_found,
  refresh_parts,
}
use truthbounty_api.Prelude.Tables.{delete-none, delete_all-none, put-none_ne}

-- No entry for the id is left.
pub record Spent (jti : String) (s : Sessions) : Type 0 where
  pub is_map : IsMap s.refreshes
  pub gone : get jti s.refreshes ≡ none

module _ (c : Config) (jti : String) where
  pub revoke_each-Spent :
      (now : ℕ) (jtis : List String) (s : Sessions)
      → Spent jti s
      → Spent jti (revoke_each c now jtis s)
  unfolding blacklist_token
  revoke_each-Spent now [] s h = h
  revoke_each-Spent now (k ∷ ks) s h =
      revoke_each-Spent now ks
        (blacklist_token now k c.refresh_ttl (record s { refreshes = delete k s.refreshes }))
        (record {
          is_map = delete-IsMap k s.refreshes h.is_map;
          gone = delete-none k jti s.refreshes h.is_map h.gone;
        })

  pub revoke_all-Spent :
      (now : ℕ) (address : String) (s : Sessions)
      → Spent jti s
      → Spent jti (revoke_all_user_tokens c now address s)
  unfolding revoke_all_user_tokens
  revoke_all-Spent now address s h =
      let k = revoke_each-Spent now (or_empty (read now (c.lower address) s.lists)) s h in
      record { is_map = k.is_map; gone = k.gone }

  -- A new token has another id.
  pub add_refresh-Spent :
      (now : ℕ) (address : String) (user_id : Option String) (d : Draw) (s : Sessions)
      → (d.refresh_jti === jti) ≡ false
      → Spent jti s
      → Spent jti (add_refresh c now address user_id d s)
  unfolding add_refresh
  add_refresh-Spent now address user_id d s new h =
      let ids = or_empty (read now (c.lower address) s.lists) ++ (d.refresh_jti ∷ []) in
      let e : Entry RefreshData = record {
        value = refresh_data c now address user_id d;
        until = expiry now c.refresh_ttl;
      } in
      let stored = put-IsMap d.refresh_jti e s.refreshes h.is_map in
      record {
        is_map = delete_all-IsMap (take (surplus ids) ids) (put d.refresh_jti e s.refreshes) stored;
        gone =
            delete_all-none (take (surplus ids) ids) jti (put d.refresh_jti e s.refreshes) stored
              (put-none_ne d.refresh_jti jti e s.refreshes new h.gone);
      }

  pub blacklist-Spent :
      (now : ℕ) (k : String) (ttl : ℕ) (s : Sessions)
      → Spent jti s
      → Spent jti (blacklist_token now k ttl s)
  unfolding blacklist_token
  blacklist-Spent now k ttl s h = record { is_map = h.is_map; gone = h.gone }

  pub used-Spent :
      (now : ℕ) (k : String) (s : Sessions)
      → Spent jti s
      → Spent jti
          (blacklist_token now k c.refresh_ttl (record s { refreshes = delete k s.refreshes }))
  unfolding blacklist_token
  used-Spent now k s h = record {
    is_map = delete-IsMap k s.refreshes h.is_map;
    gone = delete-none k jti s.refreshes h.is_map h.gone;
  }

  pub rotate_found-Spent :
      (now : ℕ) (k value : String) (o : Option RefreshData) (d : Draw) (s : Sessions)
      → (d.refresh_jti === jti) ≡ false
      → Spent jti s
      → Spent jti (rotate_found c now k value o d s).0
  unfolding generate_token_pair
  rotate_found-Spent now k value none d s new h = h
  rotate_found-Spent now k value (some data_) d s new h =
      elim (Bool-cases (c.hash_token value === data_.token_hash)) [
        | inl right ↦ rw right (
            add_refresh-Spent now data_.address data_.user_id d
              (blacklist_token now k c.refresh_ttl (record s { refreshes = delete k s.refreshes }))
              new (used-Spent now k s h))
        | inr wrong ↦ rw wrong (revoke_all-Spent now data_.address s h)
      ]

  pub refresh_parts-Spent :
      (now : ℕ) (parts : List String) (d : Draw) (s : Sessions)
      → (d.refresh_jti === jti) ≡ false
      → Spent jti s
      → Spent jti (refresh_parts c now parts d s).0
  refresh_parts-Spent now [] d s new h = h
  refresh_parts-Spent now (k ∷ []) d s new h = h
  refresh_parts-Spent now (k ∷ value ∷ []) d s new h = elim (Bool-cases (is_blacklisted now k s)) [
    | inl black ↦ rw black h
    | inr white ↦ rw white (rotate_found-Spent now k value (read now k s.refreshes) d s new h)
  ]
  refresh_parts-Spent now (k ∷ value ∷ more ∷ rest) d s new h = h
