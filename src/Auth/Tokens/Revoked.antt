-- ===== src/Auth/Tokens/Revoked.antt =====
-- What `revokeAllUserTokens` leaves.
use truthbounty_api.Prelude.{
  ℕ, ◌≤◌, String, ◌≡◌, refl, sym, ap, ◌∙◌, subst, inl, inr, none, some, true, false, List,
  string_eq, ◌===◌, arith, Bool-cases, Option-cases, eq_of_beq, beq_refl,
}
use truthbounty_api.Prelude.Maps.{
  get, delete, delete_all, IsMap, get-delete_ne, delete-IsMap, delete_all-IsMap,
}
use truthbounty_api.Prelude.Redis.{Entry, is_live, read}
use truthbounty_api.Auth.Tokens.{RefreshData, Sessions, Config, or_empty, revoke_all_user_tokens}
use mathlib.Core.Option.{some-injective}
use truthbounty_api.Auth.Tokens.Tracking.{listed, delete_all-some, Listed, IsTracked}
use truthbounty_api.Auth.Tokens.Listing.{revoke_each_parts, read_live}

module _ (c : Config) where
  module _ (now : ℕ) (address : String) (s : Sessions) (h : IsTracked c now s) where
    abbrev owner : String
    owner = c.lower address

    abbrev ids : List String
    ids = or_empty (read now owner s.lists)

    abbrev after : Sessions
    after = revoke_all_user_tokens c now address s

    after_refreshes : after.refreshes ≡ delete_all ids s.refreshes
    unfolding revoke_all_user_tokens
    after_refreshes = (revoke_each_parts c now ids s).0

    after_lists : after.lists ≡ delete owner s.lists
    unfolding revoke_all_user_tokens
    after_lists = ap (delete owner) (revoke_each_parts c now ids s).1

    kept :
        (jti : String) (e : Entry RefreshData)
        → get jti after.refreshes ≡ some e
        → (listed jti ids ≡ false) × (get jti s.refreshes ≡ some e)
    kept jti e found =
        delete_all-some ids jti e s.refreshes h.is_map (sym (ap (get jti) after_refreshes) ∙ found)

    -- A token of another address is still listed there; one of this address is not left.
    kept-Listed :
        (jti : String) (e : Entry RefreshData) (t : ℕ)
        → get jti after.refreshes ≡ some e
        → now ≤ t
        → is_live t e.until ≡ true
        → (((owner === (e.value).address) ≡ false) × Listed after t jti (e.value).address)
    kept-Listed jti e t found le live =
        let k = kept jti e found in
        let l = h.tracked jti e k.1 t le live in
        elim (Bool-cases (owner === (e.value).address)) [
          | inl mine ↦
              let same = eq_of_beq owner (e.value).address mine in
              let at_owner = subst (λ a. get a s.lists ≡ some l.ids) (sym same) l.found in
              let value = read_live c now t owner l.ids s le at_owner l.live in
              let on : listed jti ids ≡ true = ap (listed jti) value ∙ l.has in let off = k.0 in cc
          | inr other ↦ (
            other,
            record {
              ids = l.ids;
              found =
                  ap (get (e.value).address) after_lists
                  ∙ get-delete_ne owner (e.value).address s.lists
                      (λ q. ground (arith, beq_refl owner, q, other))
                  ∙ l.found;
              live = l.live;
              has = l.has;
            },
          )
        ]

    pub revoke_all-IsTracked : IsTracked c now after
    revoke_all-IsTracked = record {
      is_map = subst IsMap (sym after_refreshes) (delete_all-IsMap ids s.refreshes h.is_map);
      lists_map = subst IsMap (sym after_lists) (delete-IsMap owner s.lists h.lists_map);
      lowered = λ jti e found. h.lowered jti e (kept jti e found).1;
      tracked = λ jti e found t le live. (kept-Listed jti e t found le live).1;
      bounded = λ jti e found t n le live. h.bounded jti e (kept jti e found).1 t n le live;
    }

    -- After the revocation no token of the address is live, now or later.
    pub revoked_unread :
        (jti : String) (e : Entry RefreshData) (t : ℕ)
        → get jti s.refreshes ≡ some e
        → (e.value).address ≡ owner
        → now ≤ t
        → read t jti after.refreshes ≡ none
    revoked_unread jti e t row mine le = elim (Option-cases (get jti after.refreshes)) [
      | inl gone ↦ rw gone refl
      | inr left ↦ elim (Bool-cases (is_live t (left.0).until)) [
        | inr dead ↦ rw (left.1, dead) refl
        | inl live ↦
            let other = (kept-Listed jti left.0 t left.1 le live).0 in
            let same_row : some left.0 ≡ some e = sym (kept jti left.0 left.1).1 ∙ row in
            let is_e = some-injective left.0 e same_row in
            let at_owner =
              subst (λ (x : Entry RefreshData). (x.value).address ≡ owner) (sym is_e) mine in
            absurd (ground (arith, beq_refl owner, at_owner, other))
      ]
    ]
