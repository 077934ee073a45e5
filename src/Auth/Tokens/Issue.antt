-- ===== src/Auth/Tokens/Issue.antt =====
-- A new refresh token is good until it expires.
use Prim.Native.String.{◌++◌ as append_text}
use Prim.Native.Char.{char, code}
use text.Mathlib.TextLemmas.{nil-append, cons-append}
use truthbounty_api.Prelude.{
  ℕ, zero, suc, ◌≤◌, ◌==◌, String, ◌≡◌, refl, ap, ◌∙◌, inl, inr, Option, some, Bool, true, false,
  List, [], ◌∷◌, ◌++◌, take, length, length-append, ok, string_eq, arith, Bool-cases, beq_refl,
}
use truthbounty_api.Prelude.Texts.{has_code}
use truthbounty_api.Prelude.Maps.{get, put, get-put_self}
use truthbounty_api.Prelude.Redis.{Entry, expiry, is_live, read}
use truthbounty_api.Auth.Tokens.{
  RefreshData, Sessions, Draw, Config, split_dot, or_empty, is_blacklisted, surplus, refresh_data,
  add_refresh, generate_token_pair, refresh_access_token, new_pair,
}
use truthbounty_api.Auth.Tokens.Tracking.{listed, get-delete_all_other}

abbrev pub has_dot : String → Bool
has_dot s = has_code 46 s

split_dot_plain : (s : String) → has_dot s ≡ false → split_dot s ≡ s ∷ []
split_dot_plain String.[] h = refl
split_dot_plain (String.◌∷◌ c s) h = elim (Bool-cases (code c == 46)) [
  | inl dot ↦ let never : true ≡ false = rw dot at h in cc
  | inr plain ↦ let rest = split_dot_plain s (rw plain at h) in rw (plain, rest) refl
]

-- "." is a list of one character.
dot-append : (b : String) → append_text "." b ≡ String.◌∷◌ (char 46 tt) b
dot-append b = cons-append (char 46 tt) "" b ∙ ap (String.◌∷◌ (char 46 tt)) (nil-append b)

pub split_dot-append :
    (a b : String)
    → has_dot a ≡ false
    → has_dot b ≡ false
    → split_dot (append_text a (append_text "." b)) ≡ a ∷ b ∷ []
split_dot-append String.[] b h h' =
    ap split_dot (nil-append (append_text "." b) ∙ dot-append b) ∙ rw (split_dot_plain b h') refl
split_dot-append (String.◌∷◌ c a) b h h' = elim (Bool-cases (code c == 46)) [
  | inl dot ↦ let never : true ≡ false = rw dot at h in cc
  | inr plain ↦
      let rest = split_dot-append a b (rw plain at h) h' in
      ap split_dot (cons-append c a (append_text "." b)) ∙ rw (plain, rest) refl
]

-- The newest id is not among those that fall out.
listed-take_snoc :
    (n : ℕ) (j : String) (xs : List String)
    → n ≤ length xs
    → listed j xs ≡ false
    → listed j (take n (xs ++ (j ∷ []))) ≡ false
listed-take_snoc zero j xs le h = refl
listed-take_snoc (suc n) j [] le h = ground arith
listed-take_snoc (suc n) j (x ∷ xs) le h =
    ground (arith, listed-take_snoc n j xs (omega arith) (ground arith))

module _ (c : Config) where
  -- The data of the new token is stored with the refresh TTL.
  issued-get :
      (now : ℕ) (address : String) (user_id : Option String) (d : Draw) (s : Sessions)
      → listed d.refresh_jti (or_empty (read now (c.lower address) s.lists)) ≡ false
      → get d.refresh_jti (add_refresh c now address user_id d s).refreshes
        ≡ some (record {
          value = refresh_data c now address user_id d;
          until = expiry now c.refresh_ttl;
        })
  unfolding add_refresh
  issued-get now address user_id d s new =
      let old = or_empty (read now (c.lower address) s.lists) in
      let ids = old ++ (d.refresh_jti ∷ []) in
      let e : Entry RefreshData = record {
        value = refresh_data c now address user_id d;
        until = expiry now c.refresh_ttl;
      } in
      let one_more = length-append old (d.refresh_jti ∷ []) in
      let few : surplus ids ≤ length old = omega arith in
      get-delete_all_other (take (surplus ids) ids) d.refresh_jti (put d.refresh_jti e s.refreshes)
        (listed-take_snoc (surplus ids) d.refresh_jti old few new)
      ∙ get-put_self d.refresh_jti e s.refreshes

  kept_blacklist :
      (now later : ℕ) (address : String) (user_id : Option String) (d : Draw) (s : Sessions)
      → is_blacklisted later d.refresh_jti (add_refresh c now address user_id d s)
        ≡ is_blacklisted later d.refresh_jti s
  unfolding add_refresh is_blacklisted
  kept_blacklist now later address user_id d s = refl

  -- The refresh token of a new pair is good for a refresh until it expires: sent back while its
  -- entry is live, with no other operation on the sessions in between, it gives the next pair for
  -- the same wallet and user. Neither of its random parts has a dot, and its id is not on the list of
  -- the wallet and not on the blacklist.
  pub fresh_pair_refreshes :
      (now later : ℕ) (address : String) (user_id : Option String) (d d' : Draw) (s : Sessions)
      → has_dot d.refresh_jti ≡ false
      → has_dot d.refresh_value ≡ false
      → listed d.refresh_jti (or_empty (read now (c.lower address) s.lists)) ≡ false
      → is_blacklisted later d.refresh_jti s ≡ false
      → is_live later (expiry now c.refresh_ttl) ≡ true
      → (refresh_access_token c later
          (generate_token_pair c now address user_id d s).1.refresh_token
          d'
          (generate_token_pair c now address user_id d s).0).1
        ≡ ok (new_pair c (c.lower address) user_id d')
  unfolding refresh_access_token generate_token_pair
  fresh_pair_refreshes now later address user_id d d' s plain plain' new white live =
      let parts = split_dot-append d.refresh_jti d.refresh_value plain plain' in
      let white' = kept_blacklist now later address user_id d s ∙ white in
      let found = issued-get now address user_id d s new in
      rw (parts, white', found, live, beq_refl (c.hash_token d.refresh_value)) refl
