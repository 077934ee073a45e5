-- ===== src/Claims/Service/Changes.antt =====
-- The coherence of the cache with the rows, and what changing a claim leaves.
use truthbounty_api.Prelude.{
  ℕ, String, ◌≡◌, sym, ◌∙◌, subst, inl, inr, Option, none, some, string_eq, arith, Option-cases,
  Result-cases, eq_of_beq,
}
use truthbounty_api.Prelude.Maps.{get, put, delete, get-put}
use truthbounty_api.Prelude.Caches.{Coheres, fill-Coheres, write-Coheres}
use truthbounty_api.Claims.Entity.{Claim, ClaimState, ClaimTransitionData, transition_to}
use truthbounty_api.Claims.Entity.Lifecycle.{Moved, transition_to-Moved}
use truthbounty_api.Claims.Service.{Store, find_one, invalidate_claim, save_moved, change_claim}

module _ {Score : Type 0} where
  -- Every cached claim is the row of its id, and rows stand under their own ids.
  pub record IsCoherent (s : Store Score) : Type 0 where
    pub coheres : Coheres s.rows s.claim_cache
    pub keyed : (id : String) (c : Claim Score) → get id s.rows ≡ some c → c.id ≡ id

  -- The stores that resolving or finalizing a claim can leave.
  pub data Changed (target : ClaimState) (id : String) (s : Store Score)
      : Store Score → Type 0 where
    same : Changed target id s s
    cached :
        (c : Claim Score)
        → get id s.rows ≡ some c
        → Changed target id s (record s { claim_cache = put id c s.claim_cache })
    wrote :
        (c d : Claim Score)
        → get id s.rows ≡ some c
        → Moved target c d
        → Changed target id s (record s {
          rows = put d.id d s.rows;
          claim_cache = delete id (put id c s.claim_cache);
          latest_cache = none;
        })

  save-Changed :
      (target : ClaimState) (id : String) (d : Option (ClaimTransitionData Score)) (now : ℕ)
      (s : Store Score) (c : Claim Score)
      → get id s.rows ≡ some c
      → Changed target id s
          (save_moved id
            (record s { claim_cache = put id c s.claim_cache })
            (transition_to target d now c)).0
  unfolding invalidate_claim
  save-Changed target id d now s c row = elim (Result-cases (transition_to target d now c)) [
    | inl moved ↦
        rw (moved.1) (wrote c moved.0 row (transition_to-Moved target d now c moved.0 moved.1))
    | inr thrown ↦ rw (thrown.1) (cached c row)
  ]

  pub change_claim-Changed :
      (target : ClaimState) (id : String) (d : Option (ClaimTransitionData Score)) (now : ℕ)
      (s : Store Score)
      → Changed target id s (change_claim id target d now s).0
  unfolding find_one
  change_claim-Changed target id d now s = elim (Option-cases (get id s.claim_cache)) [
    | inr hit ↦ rw (hit.1) same
    | inl miss ↦ elim (Option-cases (get id s.rows)) [
      | inl gone ↦ rw (miss, gone) same
      | inr row ↦ rw (miss, row.1) (save-Changed target id d now s row.0 row.1)
    ]
  ]

  pub cached-IsCoherent :
      (id : String) (c : Claim Score) (s : Store Score)
      → get id s.rows ≡ some c
      → IsCoherent s
      → IsCoherent (record s { claim_cache = put id c s.claim_cache })
  cached-IsCoherent id c s row h = record {
    coheres = fill-Coheres id c s.rows s.claim_cache row h.coheres;
    keyed = h.keyed;
  }

  wrote-IsCoherent :
      (target : ClaimState) (id : String) (c d : Claim Score) (s : Store Score)
      → get id s.rows ≡ some c
      → Moved target c d
      → IsCoherent s
      → IsCoherent (record s {
        rows = put d.id d s.rows;
        claim_cache = delete id (put id c s.claim_cache);
        latest_cache = none;
      })
  wrote-IsCoherent target id c d s row m h =
      let own : d.id ≡ id = (m.keeps_text).0 ∙ h.keyed id c row in
      let cache = put id c s.claim_cache in
      record {
        coheres =
            subst (λ k. Coheres (put k d s.rows) (delete id cache)) (sym own)
              (write-Coheres id d s.rows cache
                (fill-Coheres id c s.rows s.claim_cache row h.coheres));
        keyed = λ j x found. ground (arith, get-put d.id j d s.rows, eq_of_beq d.id j, h.keyed j x);
      }

  pub Changed-IsCoherent :
      (target : ClaimState) (id : String) (s t : Store Score)
      → Changed target id s t
      → IsCoherent s
      → IsCoherent t
  Changed-IsCoherent target id s t same h = h
  Changed-IsCoherent target id s t (cached c row) h = cached-IsCoherent id c s row h
  Changed-IsCoherent target id s t (wrote c d row m) h = wrote-IsCoherent target id c d s row m h
