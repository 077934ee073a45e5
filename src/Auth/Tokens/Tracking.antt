-- ===== src/Auth/Tokens/Tracking.antt =====
-- The lists of refresh tokens by address against the tokens that are stored.
use truthbounty_api.Prelude.{
  ℕ, ◌≤◌, ◌==◌, String, ◌≡◌, refl, sym, ap, ◌∙◌, subst, inl, inr, Option, none, some, Bool, true,
  false, ◌||◌, List, [], ◌∷◌, ◌++◌, take, drop, take-append-drop, any_of, string_eq, ◌===◌, arith,
  Bool-cases, eq_of_beq, beq_refl,
}
use truthbounty_api.Prelude.Maps.{
  JsMap, get, delete, delete_all, IsMap, get-delete_self, get-delete_ne, delete-IsMap,
}
use truthbounty_api.Prelude.Redis.{Entry, expiry, is_live}
use truthbounty_api.Auth.Tokens.{RefreshData, Sessions, Config}
use truthbounty_api.Prelude.Tables.{delete_all-none}

abbrev pub listed : String → List String → Bool
listed j ks = any_of (λ k. k === j) ks

listed-append :
    (j : String) (xs ys : List String) → listed j (xs ++ ys) ≡ (listed j xs || listed j ys)
listed-append j [] ys = refl
listed-append j (x ∷ xs) ys = ground (arith, listed-append j xs ys)

pub listed_snoc : (j : String) (xs : List String) → listed j (xs ++ (j ∷ [])) ≡ true
listed_snoc j [] = rw (beq_refl j) refl
listed_snoc j (x ∷ xs) = ground (arith, listed_snoc j xs)

pub listed_snoc_of :
    (j k : String) (xs : List String) → listed j xs ≡ true → listed j (xs ++ (k ∷ [])) ≡ true
listed_snoc_of j k xs h = ground (arith, listed-append j xs (k ∷ []))

-- What is not among the first stands among the rest.
pub listed-drop :
    (n : ℕ) (j : String) (xs : List String)
    → listed j xs ≡ true
    → listed j (take n xs) ≡ false
    → listed j (drop n xs) ≡ true
listed-drop n j xs h first =
    let both = listed-append j (take n xs) (drop n xs) in
    let all = ap (listed j) (take-append-drop n xs) in ground arith

module _ {V : Type 0} where
  pub get-delete_all_among :
      (ks : List String) (j : String) (m : JsMap String V)
      → IsMap m
      → listed j ks ≡ true
      → get j (delete_all ks m) ≡ none
  get-delete_all_among [] j m is_map h = cc
  get-delete_all_among (k ∷ ks) j m is_map h = elim (Bool-cases (k === j)) [
    | inl same ↦
        delete_all-none ks j (delete k m) (delete-IsMap k m is_map)
          (subst (λ i. get i (delete k m) ≡ none) (eq_of_beq k j same) (get-delete_self k m is_map))
    | inr other ↦ get-delete_all_among ks j (delete k m) (delete-IsMap k m is_map) (rw other at h)
  ]

  pub get-delete_all_other :
      (ks : List String) (j : String) (m : JsMap String V)
      → listed j ks ≡ false
      → get j (delete_all ks m) ≡ get j m
  get-delete_all_other [] j m h = refl
  get-delete_all_other (k ∷ ks) j m h =
      get-delete_all_other ks j (delete k m) (ground arith)
      ∙ get-delete_ne k j m (λ e. ground (arith, beq_refl k, e, h))

  -- What is left was there, and was not on the list.
  pub delete_all-some :
      (ks : List String) (j : String) (v : V) (m : JsMap String V)
      → IsMap m
      → get j (delete_all ks m) ≡ some v
      → (listed j ks ≡ false) × (get j m ≡ some v)
  delete_all-some ks j v m is_map found = elim (Bool-cases (listed j ks)) [
    | inl on ↦ let gone = get-delete_all_among ks j m is_map on in cc
    | inr off ↦ (off, sym (get-delete_all_other ks j m off) ∙ found)
  ]

pub is_live_before : (n t : ℕ) (u : Option ℕ) → n ≤ t → is_live t u ≡ true → is_live n u ≡ true
is_live_before n t none h live = refl
is_live_before n t (some d) h live = ground arith

pub expiry_later :
    (t n n' ttl : ℕ) → n ≤ n' → is_live t (expiry n ttl) ≡ true → is_live t (expiry n' ttl) ≡ true
expiry_later t n n' ttl h live = elim (Bool-cases (ttl == 0)) [
  | inl zero_ ↦ rw zero_ refl
  | inr more ↦ let live' = rw more at live in rw more (ground arith)
]

-- The id stands in the live list of the address.
pub record Listed (s : Sessions) (t : ℕ) (jti address : String) : Type 0 where
  pub ids : Entry (List String)
  pub found : get address s.lists ≡ some ids
  pub live : is_live t ids.until ≡ true
  pub has : listed jti ids.value ≡ true

-- From the time `clock` on, every refresh token that is live is listed under its address, and lasts
-- no longer than a list that is written now.
pub record IsTracked (c : Config) (clock : ℕ) (s : Sessions) : Type 0 where
  pub is_map : IsMap s.refreshes
  pub lists_map : IsMap s.lists
  pub lowered :
      (jti : String) (e : Entry RefreshData)
      → get jti s.refreshes ≡ some e
      → c.lower (e.value).address ≡ (e.value).address
  pub tracked :
      (jti : String) (e : Entry RefreshData)
      → get jti s.refreshes ≡ some e
      → (t : ℕ) → clock ≤ t
      → is_live t e.until ≡ true
      → Listed s t jti (e.value).address
  pub bounded :
      (jti : String) (e : Entry RefreshData)
      → get jti s.refreshes ≡ some e
      → (t now : ℕ) → clock ≤ now
      → is_live t e.until ≡ true
      → is_live t (expiry now c.refresh_ttl) ≡ true

module _ (c : Config) where
  -- Time passes.
  pub later-IsTracked :
      (clock now : ℕ) (s : Sessions) → clock ≤ now → IsTracked c clock s → IsTracked c now s
  later-IsTracked clock now s le h = record {
    is_map = h.is_map;
    lists_map = h.lists_map;
    lowered = h.lowered;
    tracked = λ jti e found t after live. h.tracked jti e found t (omega arith) live;
    bounded = λ jti e found t n after live. h.bounded jti e found t n (omega arith) live;
  }

  -- Entries that go, while the lists stay.
  pub fewer-IsTracked :
      (now : ℕ) (s t : Sessions)
      → IsMap t.refreshes
      → t.lists ≡ s.lists
      → ((jti : String) (e : Entry RefreshData)
          → get jti t.refreshes ≡ some e
          → get jti s.refreshes ≡ some e)
      → IsTracked c now s
      → IsTracked c now t
  fewer-IsTracked now s t is_map same old h = record {
    is_map = is_map;
    lists_map = rw same (h.lists_map);
    lowered = λ jti e found. h.lowered jti e (old jti e found);
    tracked = λ jti e found n after live.
        let l = h.tracked jti e (old jti e found) n after live in
        record {
          ids = l.ids;
          found = ap (get (e.value).address) same ∙ l.found;
          live = l.live;
          has = l.has;
        };
    bounded = λ jti e found n m after live. h.bounded jti e (old jti e found) n m after live;
  }
