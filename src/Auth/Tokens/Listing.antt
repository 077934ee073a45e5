-- ===== src/Auth/Tokens/Listing.antt =====
-- A new refresh token keeps the lists of the tokens complete.
use truthbounty_api.Prelude.{
  ℕ, ◌≤◌, String, ◌≡◌, refl, sym, ap, ◌∙◌, subst, inl, inr, Option, some, true, false, List, [],
  ◌∷◌, ◌++◌, take, drop, string_eq, ◌===◌, arith, Bool-cases, eq_of_beq, ◌⊎◌,
}
use truthbounty_api.Prelude.Maps.{
  get, put, delete, delete_all, get-put, get-put_self, put-IsMap, delete_all-IsMap,
}
use truthbounty_api.Prelude.Caches.{put-some}
use truthbounty_api.Prelude.Redis.{Entry, expiry, is_live, if_live, read}
use truthbounty_api.Auth.Tokens.{
  RefreshData, Sessions, Draw, Config, or_empty, blacklist_token, surplus, refresh_data,
  add_refresh, revoke_each,
}
use truthbounty_api.Auth.Tokens.Tracking.{
  listed, listed_snoc, listed_snoc_of, listed-drop, delete_all-some, is_live_before, expiry_later,
  Listed, IsTracked,
}

module _ (c : Config) where
  pub revoke_each_parts :
      (now : ℕ) (ks : List String) (s : Sessions)
      → ((revoke_each c now ks s).refreshes ≡ delete_all ks s.refreshes)
        × ((revoke_each c now ks s).lists ≡ s.lists)
  unfolding blacklist_token
  revoke_each_parts now [] s = (refl, refl)
  revoke_each_parts now (k ∷ ks) s =
      revoke_each_parts now ks
        (blacklist_token now k c.refresh_ttl (record s { refreshes = delete k s.refreshes }))

  -- The list that is live is read.
  pub read_live :
      (now t : ℕ) (a : String) (l : Entry (List String)) (s : Sessions)
      → now ≤ t
      → get a s.lists ≡ some l
      → is_live t l.until ≡ true
      → or_empty (read now a s.lists) ≡ l.value
  read_live now t a l s le found live =
      let live' = is_live_before now t l.until le live in
      ap (λ o. or_empty (if_live now o)) found ∙ rw live' refl

  module _ (idem : (x : String) → c.lower (c.lower x) ≡ c.lower x) where
    module _ (now : ℕ) (address : String) (user_id : Option String) (d : Draw) (s : Sessions)
        (h : IsTracked c now s) where
      abbrev owner : String
      owner = c.lower address

      abbrev ids : List String
      ids = or_empty (read now owner s.lists) ++ (d.refresh_jti ∷ [])

      abbrev fresh : Entry RefreshData
      fresh = record {
        value = refresh_data c now address user_id d;
        until = expiry now c.refresh_ttl;
      }

      abbrev after : Sessions
      after = add_refresh c now address user_id d s

      -- A token that is left is the new one or was there.
      left_of :
          (jti : String) (e : Entry RefreshData)
          → get jti after.refreshes ≡ some e
          → (listed jti (take (surplus ids) ids) ≡ false)
            × (((d.refresh_jti ≡ jti) × (fresh ≡ e)) ⊎ (get jti s.refreshes ≡ some e))
      unfolding add_refresh
      left_of jti e found =
          let kept =
            delete_all-some (take (surplus ids) ids) jti e (put d.refresh_jti fresh s.refreshes)
              (put-IsMap d.refresh_jti fresh s.refreshes h.is_map) found in
          (kept.0, put-some d.refresh_jti jti fresh e s.refreshes kept.1)

      -- An id of the list is on the new one, if it does not fall out.
      on_new_list :
          (jti : String) (t : ℕ)
          → listed jti (take (surplus ids) ids) ≡ false
          → listed jti ids ≡ true
          → is_live t (expiry now c.refresh_ttl) ≡ true
          → Listed after t jti owner
      unfolding add_refresh
      on_new_list jti t kept on live =
          let l : Entry (List String) = record {
            value = drop (surplus ids) ids;
            until = expiry now c.refresh_ttl;
          } in
          record {
            ids = l;
            found = get-put_self owner l s.lists;
            live = live;
            has = listed-drop (surplus ids) jti ids on kept;
          }

      old-Listed :
          (jti : String) (e : Entry RefreshData) (t : ℕ)
          → now ≤ t
          → get jti s.refreshes ≡ some e
          → listed jti (take (surplus ids) ids) ≡ false
          → is_live t e.until ≡ true
          → Listed after t jti (e.value).address
      unfolding add_refresh
      old-Listed jti e t le row kept live =
          let l = h.tracked jti e row t le live in
          let l' : Entry (List String) = record {
            value = drop (surplus ids) ids;
            until = expiry now c.refresh_ttl;
          } in
          elim (Bool-cases (owner === (e.value).address)) [
            | inl mine ↦
                let same = eq_of_beq owner (e.value).address mine in
                let at_owner = subst (λ a. get a s.lists ≡ some l.ids) (sym same) l.found in
                let value = read_live now t owner l.ids s le at_owner l.live in
                let on =
                  listed_snoc_of jti d.refresh_jti (or_empty (read now owner s.lists))
                    (ap (listed jti) value ∙ l.has) in
                subst (λ a. Listed after t jti a) same
                  (on_new_list jti t kept on (h.bounded jti e row t now (omega arith) live))
            | inr other ↦ record {
              ids = l.ids;
              found = get-put owner (e.value).address l' s.lists ∙ rw other (l.found);
              live = l.live;
              has = l.has;
            }
          ]

      new-Listed :
          (jti : String) (e : Entry RefreshData) (t : ℕ)
          → d.refresh_jti ≡ jti
          → fresh ≡ e
          → listed jti (take (surplus ids) ids) ≡ false
          → is_live t e.until ≡ true
          → Listed after t jti (e.value).address
      new-Listed jti e t same is_e kept live =
          let on =
            subst (λ j. listed j ids ≡ true) same
              (listed_snoc d.refresh_jti (or_empty (read now owner s.lists))) in
          let live' = subst (λ (x : Entry RefreshData). is_live t x.until ≡ true) (sym is_e) live in
          subst (λ (x : Entry RefreshData). Listed after t jti (x.value).address) is_e
            (on_new_list jti t kept on live')

      pub add_refresh-IsTracked : IsTracked c now after
      unfolding add_refresh
      add_refresh-IsTracked = record {
        is_map =
            delete_all-IsMap (take (surplus ids) ids) (put d.refresh_jti fresh s.refreshes)
              (put-IsMap d.refresh_jti fresh s.refreshes h.is_map);
        lists_map = put-IsMap owner _ s.lists h.lists_map;
        lowered = λ jti e found. elim ((left_of jti e found).1) [
          | inl new ↦
              subst (λ (x : Entry RefreshData). c.lower (x.value).address ≡ (x.value).address) new.1
                (idem address)
          | inr old ↦ h.lowered jti e old
        ];
        tracked = λ jti e found t le live. elim ((left_of jti e found).1) [
          | inl new ↦ new-Listed jti e t new.0 new.1 (left_of jti e found).0 live
          | inr old ↦ old-Listed jti e t le old (left_of jti e found).0 live
        ];
        bounded = λ jti e found t n le live. elim ((left_of jti e found).1) [
          | inl new ↦
              expiry_later t now n c.refresh_ttl le
                (subst (λ (x : Entry RefreshData). is_live t x.until ≡ true) (sym new.1) live)
          | inr old ↦ h.bounded jti e old t n le live
        ];
      }
