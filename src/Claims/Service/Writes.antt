-- ===== src/Claims/Service/Writes.antt =====
-- What the writes of the claims service do to the rows, and what the cache does to the next write.
use truthbounty_api.Prelude.{
  ℕ, String, ◌≡◌, refl, sym, ap, ◌∙◌, subst, inl, inr, Option, none, some, Bool, false, List, [],
  ◌∷◌, ok, err, Exception, string_eq, Option-cases, Bool-cases, ◌===◌, eq_of_beq,
}
use mathlib.Core.Option.{some-injective}
use truthbounty_api.Prelude.Maps.{
  get, put, IsMap, get-put, get-put_self, put-IsMap, get-delete_self,
}
use truthbounty_api.Claims.Entity.{
  Claim, ClaimState, ClaimTransitionData, transition_to, transition, settle, state_of,
  get_current_state,
}
use truthbounty_api.Claims.Service.{
  Store, CreateClaimDto, find_one, find_latest, find_by_user, user_or_query, query_user, distinct,
  forget, new_claim, create_claim, change_claim, resolve_claim, finalize_claim,
}
use truthbounty_api.Claims.Service.Changes.{
  IsCoherent, Changed, same, cached, wrote, change_claim-Changed,
}
use truthbounty_api.Claims.Service.Coherence.{
  Step, reads, lists, lists_user, creates, resolves, finalizes, forgets, create_claim_parts,
}

module _ {Score : Type 0} where
  Changed-keeps_final :
      (target : ClaimState) (id j : String) (s t : Store Score) (f : Claim Score)
      → IsCoherent s
      → get j s.rows ≡ some f
      → get_current_state f ≡ ClaimState.finalized
      → Changed target id s t
      → get j t.rows ≡ some f
  Changed-keeps_final target id j s t f h row final same = row
  Changed-keeps_final target id j s t f h row final (cached c found) = row
  Changed-keeps_final target id j s t f h row final (wrote c d found m) =
      elim (Bool-cases (d.id === j)) [
        | inl same_id ↦
            let at_j : id ≡ j =
              sym ((m.keeps_text).0 ∙ h.keyed id c found) ∙ eq_of_beq d.id j same_id in
            let c_is_f : some c ≡ some f = sym found ∙ ap (λ k. get k s.rows) at_j ∙ row in
            let final' : get_current_state c ≡ ClaimState.finalized =
              ap get_current_state (some-injective _ _ c_is_f) ∙ final in
            elim (m.was_open final') [ ]
        | inr other ↦ get-put d.id j d s.rows ∙ rw other row
      ]

  find_one_rows : (id : String) (s : Store Score) → ((find_one id s).0).rows ≡ s.rows
  unfolding find_one
  find_one_rows id s = elim (Option-cases (get id s.claim_cache)) [
    | inr hit ↦ rw (hit.1) refl
    | inl miss ↦ elim (Option-cases (get id s.rows)) [
      | inl gone ↦ rw (miss, gone) refl
      | inr row ↦ rw (miss, row.1) refl
    ]
  ]

  find_latest_rows :
      (latest : List (Claim Score)) (s : Store Score) → ((find_latest latest s).0).rows ≡ s.rows
  unfolding find_latest
  find_latest_rows latest s = elim (Option-cases s.latest_cache) [
    | inr hit ↦ rw (hit.1) refl
    | inl miss ↦ rw miss refl
  ]

  user_or_query_rows :
      (key : String) (query : List String → List (Claim Score)) (ids : List String)
      (s : Store Score) (o : Option (List (Claim Score)))
      → ((user_or_query key query ids s o).0).rows ≡ s.rows
  user_or_query_rows key query ids s (some cs) = refl
  user_or_query_rows key query ids s none = queried (distinct ids)
    where
      queried : (js : List String) → ((query_user key query js s).0).rows ≡ s.rows
      queried [] = refl
      queried (j ∷ js) = refl

  -- No operation of the claims service changes the row of a finalized claim, whatever the cache
  -- holds that is coherent with the rows.
  pub Step-keeps_final :
      (s t : Store Score) (j : String) (f : Claim Score)
      → IsCoherent s
      → get j s.rows ≡ some f
      → get_current_state f ≡ ClaimState.finalized
      → Step s t
      → get j t.rows ≡ some f
  unfolding resolve_claim finalize_claim forget find_by_user
  Step-keeps_final s t j f h row final (reads id) = ap (get j) (find_one_rows id s) ∙ row
  Step-keeps_final s t j f h row final (lists latest) = ap (get j) (find_latest_rows latest s) ∙ row
  Step-keeps_final s t j f h row final (lists_user lower wallet query ids) =
      ap (get j) (user_or_query_rows (lower wallet) query ids s (get (lower wallet) s.user_cache))
      ∙ row
  Step-keeps_final s t j f h row final (creates id dto now r fresh made) =
      subst (λ q. get j (q.0).rows ≡ some f) (sym (create_claim_parts id dto now s r made))
        (get-put id j (new_claim id dto now) s.rows ∙ elim (Bool-cases (id === j)) [
          | inl same_id ↦
              let none_is : none ≡ some f =
                sym fresh ∙ ap (λ k. get k s.rows) (eq_of_beq id j same_id) ∙ row in
              cc
          | inr other ↦ rw other row
        ])
  Step-keeps_final s t j f h row final (resolves id verdict confidence now) =
      Changed-keeps_final ClaimState.resolved id j s t f h row final (
        change_claim-Changed ClaimState.resolved id
          (some (record { verdict = some verdict; confidence = some confidence })) now s)
  Step-keeps_final s t j f h row final (finalizes id now) =
      Changed-keeps_final ClaimState.finalized id j s t f h row final
        (change_claim-Changed ClaimState.finalized id none now s)
  Step-keeps_final s t j f h row final (forgets id) = row

  change_claim_hit :
      (target : ClaimState) (id : String) (d : Option (ClaimTransitionData Score)) (now : ℕ)
      (c : Claim Score) (s : Store Score)
      → get id s.claim_cache ≡ some c
      → change_claim id target d now s ≡ (s, err Exception.error)
  unfolding find_one
  change_claim_hit target id d now c s hit = rw hit refl

  -- The claim that resolving a new claim makes.
  abbrev first_resolved : Claim Score → Bool → Score → ℕ → Claim Score
  first_resolved c verdict confidence now = record c {
    resolved_verdict = some verdict;
    confidence_score = some confidence;
    finalized = false;
    resolved_at = some now;
  }

  resolve_claim_miss :
      (id : String) (dto : CreateClaimDto) (made now : ℕ) (verdict : Bool) (confidence : Score)
      (s : Store Score)
      → get id s.claim_cache ≡ none
      → get id s.rows ≡ some (new_claim id dto made)
      → (resolve_claim id verdict confidence now s).1
        ≡ ok (first_resolved (new_claim id dto made) verdict confidence now)
  unfolding resolve_claim find_one transition_to transition settle state_of new_claim
  resolve_claim_miss id dto made now verdict confidence s miss row = rw (miss, row) refl

  first_resolved_state :
      (c : Claim Score) (verdict : Bool) (confidence : Score) (now : ℕ)
      → get_current_state (first_resolved c verdict confidence now) ≡ ClaimState.resolved
  unfolding state_of
  first_resolved_state c verdict confidence now = refl

  -- A claim that was just created is in the cache, so resolving it or finalizing it throws a
  -- TypeError and changes nothing; once its cached entry is gone, resolving it succeeds.
  pub create_then_resolve :
      (id : String) (dto : CreateClaimDto) (made now : ℕ) (verdict : Bool) (confidence : Score)
      (s : Store Score) (r : Store Score × Claim Score)
      → IsMap s.claim_cache
      → create_claim id dto made s ≡ ok r
      → (resolve_claim id verdict confidence now r.0 ≡ (r.0, err Exception.error))
        × (finalize_claim id now r.0 ≡ (r.0, err Exception.error))
        × ((c : Claim Score) × ((resolve_claim id verdict confidence now (forget id r.0)).1 ≡ ok c)
            × (get_current_state c ≡ ClaimState.resolved))
  unfolding resolve_claim finalize_claim forget
  create_then_resolve id dto made now verdict confidence s r is_map h =
      subst
        (λ q.
          (resolve_claim id verdict confidence now q.0 ≡ (q.0, err Exception.error))
          × (finalize_claim id now q.0 ≡ (q.0, err Exception.error))
          × ((c : Claim Score) × ((resolve_claim id verdict confidence now (forget id q.0)).1
                ≡ ok c)
              × (get_current_state c ≡ ClaimState.resolved)))
        (sym (create_claim_parts id dto made s r h))
        (let c : Claim Score = new_claim id dto made in
          let t : Store Score = record s {
            rows = put id c s.rows;
            claim_cache = put id c s.claim_cache;
            latest_cache = none;
          } in
          let hit : get id t.claim_cache ≡ some c = get-put_self id c s.claim_cache in
          (
            change_claim_hit ClaimState.resolved id
                (some (record { verdict = some verdict; confidence = some confidence })) now c t
                hit,
            change_claim_hit ClaimState.finalized id none now c t hit,
            (
              first_resolved c verdict confidence now,
              resolve_claim_miss id dto made now verdict confidence (forget id t)
                  (get-delete_self id t.claim_cache (put-IsMap id c s.claim_cache is_map))
                  (get-put_self id c s.rows),
              first_resolved_state c verdict confidence now,
            ),
          ))
