-- ===== src/Auth/Tokens/Rotation.antt =====
-- A refresh token is good for one use.
use truthbounty_api.Prelude.{
  ℕ, String, ◌≡◌, refl, inl, inr, Option, none, some, false, [], ◌∷◌, ok, err, Exception, string_eq,
  ◌===◌, Bool-cases,
}
use truthbounty_api.Prelude.Maps.{delete, IsMap, get-delete_self, delete-IsMap}
use truthbounty_api.Prelude.Redis.{read}
use truthbounty_api.Auth.Tokens.{
  TokenPayload, TokenPair, RefreshData, Sessions, Draw, Config, split_dot, blacklist_token,
  is_blacklisted, generate_token_pair, revoke_all_user_tokens, rotate_found, refresh_parts,
  refresh_access_token, logout, remaining_ttl,
}
use truthbounty_api.Auth.Tokens.Spent.{
  Spent, revoke_all-Spent, add_refresh-Spent, blacklist-Spent, refresh_parts-Spent,
}

module _ (c : Config) (jti : String) where
  -- One operation on the sessions; the random id of a new refresh token is another one.
  pub data Step (s : Sessions) : Sessions → Type 0 where
    generates :
        (now : ℕ) (address : String) (user_id : Option String) (d : Draw)
        → (d.refresh_jti === jti) ≡ false
        → Step s (generate_token_pair c now address user_id d s).0
    refreshes :
        (now : ℕ) (raw : String) (d : Draw)
        → (d.refresh_jti === jti) ≡ false
        → Step s (refresh_access_token c now raw d s).0
    blacklists : (now : ℕ) (k : String) (ttl : ℕ) → Step s (blacklist_token now k ttl s)
    revokes : (now : ℕ) (address : String) → Step s (revoke_all_user_tokens c now address s)
    logs_out : (now : ℕ) (p : TokenPayload) → Step s (logout c now p s)

  pub data Run (s : Sessions) : Sessions → Type 0 where
    here : Run s s
    next : {t u : Sessions} → Run s t → Step t u → Run s u

  Step-Spent : (s t : Sessions) → Step s t → Spent jti s → Spent jti t
  unfolding generate_token_pair refresh_access_token logout
  Step-Spent s t (generates now address user_id d new) h =
      add_refresh-Spent c jti now address user_id d s new h
  Step-Spent s t (refreshes now raw d new) h =
      refresh_parts-Spent c jti now (split_dot raw) d s new h
  Step-Spent s t (blacklists now k ttl) h = blacklist-Spent c jti now k ttl s h
  Step-Spent s t (revokes now address) h = revoke_all-Spent c jti now address s h
  Step-Spent s t (logs_out now p) h = elim (Bool-cases (p.jti === "")) [
    | inl empty ↦ rw empty (revoke_all-Spent c jti now p.address s h)
    | inr named ↦ rw named (
        revoke_all-Spent c jti now p.address
          (blacklist_token now p.jti (remaining_ttl c now p.exp) s)
          (blacklist-Spent c jti now p.jti (remaining_ttl c now p.exp) s h))
  ]

  pub Run-Spent : (s t : Sessions) → Run s t → Spent jti s → Spent jti t
  Run-Spent s t here h = h
  Run-Spent s t (next {t = u} r step) h = Step-Spent u t step (Run-Spent s u r h)

  -- Where the id is spent, a token with it is refused and nothing changes.
  pub no_entry_refused :
      (now : ℕ) (value : String) (d : Draw) (s : Sessions)
      → Spent jti s
      → refresh_parts c now (jti ∷ value ∷ []) d s ≡ (s, err Exception.unauthorized)
  no_entry_refused now value d s h =
      let missing : read now jti s.refreshes ≡ none = rw (h.gone) refl in
      elim (Bool-cases (is_blacklisted now jti s)) [
        | inl black ↦ rw black refl
        | inr white ↦ rw (white, missing) refl
      ]

  -- Where a rotation returns, the id is spent.
  rotated-Spent :
      (now : ℕ) (value : String) (o : Option RefreshData) (d : Draw) (s : Sessions)
      (pair : TokenPair)
      → IsMap s.refreshes
      → (d.refresh_jti === jti) ≡ false
      → (rotate_found c now jti value o d s).1 ≡ ok pair
      → Spent jti (rotate_found c now jti value o d s).0
  unfolding generate_token_pair blacklist_token
  rotated-Spent now value none d s pair is_map new done = cc
  rotated-Spent now value (some data_) d s pair is_map new done =
      elim (Bool-cases (c.hash_token value === data_.token_hash)) [
        | inl right ↦ rw right (
            add_refresh-Spent c jti now data_.address data_.user_id d
              (blacklist_token now jti c.refresh_ttl
                (record s { refreshes = delete jti s.refreshes }))
              new
              (record {
                is_map = delete-IsMap jti s.refreshes is_map;
                gone = get-delete_self jti s.refreshes is_map;
              }))
        | inr wrong ↦ let never : err Exception.unauthorized ≡ ok pair = rw wrong at done in cc
      ]

  -- A refresh token is good for one use: once `refreshAccessToken` has returned for a token, every
  -- token with its id is refused as unauthorized, and changes nothing, after any further operations
  -- on the sessions, in which the random ids of new tokens are other ones. The store has each id
  -- once.
  pub refresh_once :
      (now later : ℕ) (raw again value value' : String) (d d' : Draw) (s u : Sessions)
      (pair : TokenPair)
      → split_dot raw ≡ jti ∷ value ∷ []
      → split_dot again ≡ jti ∷ value' ∷ []
      → IsMap s.refreshes
      → (d.refresh_jti === jti) ≡ false
      → (refresh_access_token c now raw d s).1 ≡ ok pair
      → Run (refresh_access_token c now raw d s).0 u
      → refresh_access_token c later again d' u ≡ (u, err Exception.unauthorized)
  unfolding refresh_access_token
  refresh_once now later raw again value value' d d' s u pair parts parts' is_map new done run =
      let done' : (refresh_parts c now (jti ∷ value ∷ []) d s).1 ≡ ok pair = rw parts at done in
      let spent : Spent jti (refresh_parts c now (jti ∷ value ∷ []) d s).0 =
        elim (Bool-cases (is_blacklisted now jti s)) [
          | inl black ↦ let never : err Exception.unauthorized ≡ ok pair = rw black at done' in cc
          | inr white ↦ rw white (
              rotated-Spent now value (read now jti s.refreshes) d s pair is_map new
                (rw white at done'))
        ] in
      let run' : Run (refresh_parts c now (jti ∷ value ∷ []) d s).0 u = rw parts at run in
      rw parts' (no_entry_refused later value' d' u (Run-Spent _ u run' spent))
