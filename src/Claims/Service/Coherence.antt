-- ===== src/Claims/Service/Coherence.antt =====
-- What the cache of claims holds, and what it does to the next write.
use truthbounty_api.Prelude.{
  ℕ, String, ◌≡◌, refl, sym, subst, inl, inr, Option, none, some, Bool, List, [], ◌∷◌, ok,
  Exception, string_eq, arith, Option-cases, eq_of_beq, ltb, guards-ok,
}
use truthbounty_api.Prelude.Maps.{get, put, get-put}
use truthbounty_api.Prelude.Texts.{utf16_length}
use truthbounty_api.Prelude.Caches.{forget-Coheres, create-Coheres}
use truthbounty_api.Claims.Entity.{Claim, ClaimState}
use truthbounty_api.Claims.Service.{
  Store, CreateClaimDto, find_one, find_latest, find_by_user, user_or_query, query_user, distinct,
  forget, new_claim, create_claim, resolve_claim, finalize_claim,
}
use truthbounty_api.Claims.Service.Changes.{
  IsCoherent, change_claim-Changed, Changed-IsCoherent, cached-IsCoherent,
}

module _ {Score : Type 0} where
  pub create_claim_parts :
      (id : String) (dto : CreateClaimDto) (now : ℕ) (s : Store Score)
      (r : Store Score × Claim Score)
      → create_claim id dto now s ≡ ok r
      → r ≡ (
        record s {
          rows = put id (new_claim id dto now) s.rows;
          claim_cache = put id (new_claim id dto now) s.claim_cache;
          latest_cache = none;
        },
        new_claim id dto now,
      )
  unfolding create_claim
  create_claim_parts id dto now s r h =
      let passed =
        guards-ok (ltb 200 (utf16_length dto.title)) (ltb 5000 (utf16_length dto.content))
          Exception.bad_request Exception.bad_request h in
      sym (passed.1).1

  -- One operation of the service, or the loss of a cached entry. A new claim has a new id.
  pub data Step (s : Store Score) : Store Score → Type 0 where
    reads : (id : String) → Step s (find_one id s).0
    lists : (latest : List (Claim Score)) → Step s (find_latest latest s).0
    lists_user :
        (lower : String → String) (wallet : String) (query : List String → List (Claim Score))
        (ids : List String)
        → Step s (find_by_user lower wallet query ids s).0
    creates :
        (id : String) (dto : CreateClaimDto) (now : ℕ) (r : Store Score × Claim Score)
        → get id s.rows ≡ none
        → create_claim id dto now s ≡ ok r
        → Step s r.0
    resolves :
        (id : String) (verdict : Bool) (confidence : Score) (now : ℕ)
        → Step s (resolve_claim id verdict confidence now s).0
    finalizes : (id : String) (now : ℕ) → Step s (finalize_claim id now s).0
    forgets : (id : String) → Step s (forget id s)

  latest-IsCoherent :
      (o : Option (List (Claim Score))) (s : Store Score)
      → IsCoherent s
      → IsCoherent (record s { latest_cache = o })
  latest-IsCoherent o s h = record { coheres = h.coheres; keyed = h.keyed }

  find_one-IsCoherent :
      (id : String) (s : Store Score) → IsCoherent s → IsCoherent (find_one id s).0
  unfolding find_one
  find_one-IsCoherent id s h = elim (Option-cases (get id s.claim_cache)) [
    | inr hit ↦ rw (hit.1) h
    | inl miss ↦ elim (Option-cases (get id s.rows)) [
      | inl gone ↦ rw (miss, gone) h
      | inr row ↦ rw (miss, row.1) (cached-IsCoherent id row.0 s row.1 h)
    ]
  ]

  find_latest-IsCoherent :
      (latest : List (Claim Score)) (s : Store Score)
      → IsCoherent s
      → IsCoherent (find_latest latest s).0
  unfolding find_latest
  find_latest-IsCoherent latest s h = elim (Option-cases s.latest_cache) [
    | inr hit ↦ rw (hit.1) (latest-IsCoherent (some hit.0) s h)
    | inl miss ↦ rw miss (latest-IsCoherent (some latest) s h)
  ]

  user_or_query-IsCoherent :
      (key : String) (query : List String → List (Claim Score)) (ids : List String)
      (s : Store Score) (o : Option (List (Claim Score)))
      → IsCoherent s
      → IsCoherent (user_or_query key query ids s o).0
  user_or_query-IsCoherent key query ids s (some cs) h = h
  user_or_query-IsCoherent key query ids s none h = queried (distinct ids)
    where
      queried : (js : List String) → IsCoherent (query_user key query js s).0
      queried [] = h
      queried (j ∷ js) = record { coheres = h.coheres; keyed = h.keyed }

  forget-IsCoherent : (id : String) (s : Store Score) → IsCoherent s → IsCoherent (forget id s)
  unfolding forget
  forget-IsCoherent id s h = record {
    coheres = forget-Coheres id s.rows s.claim_cache h.coheres;
    keyed = h.keyed;
  }

  created-IsCoherent :
      (id : String) (c : Claim Score) (s : Store Score)
      → c.id ≡ id
      → IsCoherent s
      → IsCoherent (record s {
        rows = put id c s.rows;
        claim_cache = put id c s.claim_cache;
        latest_cache = none;
      })
  created-IsCoherent id c s own h = record {
    coheres = create-Coheres id c s.rows s.claim_cache h.coheres;
    keyed = λ j x found. ground (arith, get-put id j c s.rows, eq_of_beq id j, h.keyed j x, own);
  }

  -- Every operation of the claims service, those that throw included, and every loss of a cached
  -- entry keep the cache coherent: a cached claim is the row of its id.
  pub Step-IsCoherent : (s t : Store Score) → Step s t → IsCoherent s → IsCoherent t
  unfolding resolve_claim finalize_claim new_claim find_by_user
  Step-IsCoherent s t (reads id) h = find_one-IsCoherent id s h
  Step-IsCoherent s t (lists latest) h = find_latest-IsCoherent latest s h
  Step-IsCoherent s t (lists_user lower wallet query ids) h =
      user_or_query-IsCoherent (lower wallet) query ids s (get (lower wallet) s.user_cache) h
  Step-IsCoherent s t (creates id dto now r fresh made) h =
      subst (λ q. IsCoherent q.0) (sym (create_claim_parts id dto now s r made))
        (created-IsCoherent id (new_claim id dto now) s refl h)
  Step-IsCoherent s t (resolves id verdict confidence now) h =
      Changed-IsCoherent ClaimState.resolved id s t
        (change_claim-Changed ClaimState.resolved id
          (some (record { verdict = some verdict; confidence = some confidence })) now s)
        h
  Step-IsCoherent s t (finalizes id now) h =
      Changed-IsCoherent ClaimState.finalized id s t
        (change_claim-Changed ClaimState.finalized id none now s) h
  Step-IsCoherent s t (forgets id) h = forget-IsCoherent id s h
