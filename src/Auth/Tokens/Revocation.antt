-- ===== src/Auth/Tokens/Revocation.antt =====
-- A revocation reaches every refresh token of an address.
use truthbounty_api.Prelude.{
  ℕ, ◌≤◌, String, ◌≡◌, refl, inl, inr, Option, none, some, List, [], ◌∷◌, err, Exception, string_eq,
  ◌===◌, Bool-cases,
}
use truthbounty_api.Prelude.Maps.{get, delete, delete-IsMap}
use truthbounty_api.Prelude.Caches.{get-delete-some}
use truthbounty_api.Prelude.Redis.{Entry, read}
use truthbounty_api.Auth.Tokens.{
  TokenPayload, RefreshData, Sessions, Draw, Config, split_dot, blacklist_token, is_blacklisted,
  generate_token_pair, revoke_all_user_tokens, rotate_found, refresh_parts, refresh_access_token,
  logout, remaining_ttl,
}
use truthbounty_api.Auth.Tokens.Tracking.{IsTracked, later-IsTracked, fewer-IsTracked}
use truthbounty_api.Auth.Tokens.Listing.{add_refresh-IsTracked}
use truthbounty_api.Auth.Tokens.Revoked.{revoke_all-IsTracked, revoked_unread}

module _ (c : Config) where
  blacklist-IsTracked :
      (now at : ℕ) (k : String) (ttl : ℕ) (s : Sessions)
      → IsTracked c now s
      → IsTracked c now (blacklist_token at k ttl s)
  unfolding blacklist_token
  blacklist-IsTracked now at k ttl s h =
      fewer-IsTracked c now s (blacklist_token at k ttl s) h.is_map refl (λ jti e found. found) h

  used-IsTracked :
      (now : ℕ) (k : String) (s : Sessions)
      → IsTracked c now s
      → IsTracked c now
          (blacklist_token now k c.refresh_ttl (record s { refreshes = delete k s.refreshes }))
  unfolding blacklist_token
  used-IsTracked now k s h =
      fewer-IsTracked c now s
        (blacklist_token now k c.refresh_ttl (record s { refreshes = delete k s.refreshes }))
        (delete-IsMap k s.refreshes h.is_map) refl
        (λ jti e found. (get-delete-some k jti e s.refreshes h.is_map found).1) h

  pub logout-IsTracked :
      (now : ℕ) (p : TokenPayload) (s : Sessions)
      → IsTracked c now s
      → IsTracked c now (logout c now p s)
  unfolding logout
  logout-IsTracked now p s h = elim (Bool-cases (p.jti === "")) [
    | inl empty ↦ rw empty (revoke_all-IsTracked c now p.address s h)
    | inr named ↦ rw named (
        revoke_all-IsTracked c now p.address
          (blacklist_token now p.jti (remaining_ttl c now p.exp) s)
          (blacklist-IsTracked now now p.jti (remaining_ttl c now p.exp) s h))
  ]

  module _ (idem : (x : String) → c.lower (c.lower x) ≡ c.lower x) where
    rotate_found-IsTracked :
        (now : ℕ) (k value : String) (o : Option RefreshData) (d : Draw) (s : Sessions)
        → IsTracked c now s
        → IsTracked c now (rotate_found c now k value o d s).0
    unfolding generate_token_pair
    rotate_found-IsTracked now k value none d s h = h
    rotate_found-IsTracked now k value (some data_) d s h =
        elim (Bool-cases (c.hash_token value === data_.token_hash)) [
          | inl right ↦ rw right (
              add_refresh-IsTracked c idem now data_.address data_.user_id d
                (blacklist_token now k c.refresh_ttl
                  (record s { refreshes = delete k s.refreshes }))
                (used-IsTracked now k s h))
          | inr wrong ↦ rw wrong (revoke_all-IsTracked c now data_.address s h)
        ]

    refresh_parts-IsTracked :
        (now : ℕ) (parts : List String) (d : Draw) (s : Sessions)
        → IsTracked c now s
        → IsTracked c now (refresh_parts c now parts d s).0
    refresh_parts-IsTracked now [] d s h = h
    refresh_parts-IsTracked now (k ∷ []) d s h = h
    refresh_parts-IsTracked now (k ∷ value ∷ []) d s h =
        elim (Bool-cases (is_blacklisted now k s)) [
          | inl black ↦ rw black h
          | inr white ↦ rw white (rotate_found-IsTracked now k value (read now k s.refreshes) d s h)
        ]
    refresh_parts-IsTracked now (k ∷ value ∷ more ∷ rest) d s h = h

    -- Runs of the operations with a clock that does not go back.
    pub data Timed : ℕ → Sessions → Type 0 where
      start : (s : Sessions) → s.refreshes ≡ [] → s.lists ≡ [] → Timed 0 s
      generated :
          {clock : ℕ} {s : Sessions} (now : ℕ) (address : String) (user_id : Option String)
          (d : Draw)
          → Timed clock s
          → clock ≤ now
          → Timed now (generate_token_pair c now address user_id d s).0
      refreshed :
          {clock : ℕ} {s : Sessions} (now : ℕ) (raw : String) (d : Draw)
          → Timed clock s
          → clock ≤ now
          → Timed now (refresh_access_token c now raw d s).0
      blacklisted :
          {clock : ℕ} {s : Sessions} (now : ℕ) (k : String) (ttl : ℕ)
          → Timed clock s
          → clock ≤ now
          → Timed now (blacklist_token now k ttl s)
      revoked :
          {clock : ℕ} {s : Sessions} (now : ℕ) (address : String)
          → Timed clock s
          → clock ≤ now
          → Timed now (revoke_all_user_tokens c now address s)
      logged_out :
          {clock : ℕ} {s : Sessions} (now : ℕ) (p : TokenPayload)
          → Timed clock s
          → clock ≤ now
          → Timed now (logout c now p s)

    pub Timed-IsTracked : {clock : ℕ} {s : Sessions} → Timed clock s → IsTracked c clock s
    unfolding generate_token_pair refresh_access_token
    Timed-IsTracked (start s no_tokens no_lists) = record {
      is_map = rw no_tokens tt;
      lists_map = rw no_lists tt;
      lowered = λ jti e found. let never : none ≡ some e = rw no_tokens at found in cc;
      tracked = λ jti e found t le live. let never : none ≡ some e = rw no_tokens at found in cc;
      bounded = λ jti e found t n le live. let never : none ≡ some e = rw no_tokens at found in cc;
    }
    Timed-IsTracked (generated {clock} {s} now address user_id d run le) =
        add_refresh-IsTracked c idem now address user_id d s
          (later-IsTracked c clock now s le (Timed-IsTracked run))
    Timed-IsTracked (refreshed {clock} {s} now raw d run le) =
        refresh_parts-IsTracked now (split_dot raw) d s
          (later-IsTracked c clock now s le (Timed-IsTracked run))
    Timed-IsTracked (blacklisted {clock} {s} now k ttl run le) =
        blacklist-IsTracked now now k ttl s (later-IsTracked c clock now s le (Timed-IsTracked run))
    Timed-IsTracked (revoked {clock} {s} now address run le) =
        revoke_all-IsTracked c now address s
          (later-IsTracked c clock now s le (Timed-IsTracked run))
    Timed-IsTracked (logged_out {clock} {s} now p run le) =
        logout-IsTracked now p s (later-IsTracked c clock now s le (Timed-IsTracked run))

    logout_unread :
        (now : ℕ) (p : TokenPayload) (s : Sessions) (jti : String) (e : Entry RefreshData) (t : ℕ)
        → IsTracked c now s
        → get jti s.refreshes ≡ some e
        → (e.value).address ≡ c.lower p.address
        → now ≤ t
        → read t jti (logout c now p s).refreshes ≡ none
    unfolding logout blacklist_token
    logout_unread now p s jti e t h row mine le = elim (Bool-cases (p.jti === "")) [
      | inl empty ↦ rw empty (revoked_unread c now p.address s h jti e t row mine le)
      | inr named ↦ rw named (
          revoked_unread c now p.address (blacklist_token now p.jti (remaining_ttl c now p.exp) s)
            (blacklist-IsTracked now now p.jti (remaining_ttl c now p.exp) s h) jti e t row mine le)
    ]

    -- A logout ends every session of its address: in any state that the operations on the sessions
    -- reach from none, with a clock that does not go back, each refresh token that is stored for the
    -- address is refused as unauthorized from the logout on, and changes nothing. `toLowerCase` of a
    -- lower-case text is that text.
    pub logout_refused :
        {clock : ℕ} {s : Sessions}
        → (run : Timed clock s) (now later : ℕ) (p : TokenPayload) (raw jti value : String)
          (e : Entry RefreshData) (d : Draw)
        → clock ≤ now
        → now ≤ later
        → split_dot raw ≡ jti ∷ value ∷ []
        → get jti s.refreshes ≡ some e
        → (e.value).address ≡ c.lower p.address
        → refresh_access_token c later raw d (logout c now p s)
          ≡ (logout c now p s, err Exception.unauthorized)
    unfolding refresh_access_token
    logout_refused {clock} {s} run now later p raw jti value e d le le' parts row mine =
        let h = later-IsTracked c clock now s le (Timed-IsTracked run) in
        let missing = logout_unread now p s jti e later h row mine le' in
        rw parts (refused (logout c now p s) missing)
      where
        refused :
            (t : Sessions)
            → read later jti t.refreshes ≡ none
            → refresh_parts c later (jti ∷ value ∷ []) d t ≡ (t, err Exception.unauthorized)
        refused t missing = elim (Bool-cases (is_blacklisted later jti t)) [
          | inl black ↦ rw black refl
          | inr white ↦ rw (white, missing) refl
        ]
