-- ===== src/Dispute/Lifecycle.antt =====
-- The operations on disputes as steps, and what every dispute keeps on its way.
use truthbounty_api.Prelude.{
  is_some, ℕ, String, ◌≡◌, refl, sym, ap, ◌∙◌, subst, inl, inr, Option, none, some, Bool, true,
  false, not, ◌||◌, ok, err, Exception, string_eq, arith, Bool-cases, >>=-eq-ok, ok-injective,
  guards3-ok,
}
use truthbounty_api.Prelude.Maps.{get, put, values, get-put_self}
use truthbounty_api.Dispute.Types.{
  Dispute, DisputeStatus, resolved, Disputes, Confidences, DisputeConfig, CreateDisputeDto,
  ResolveDisputeDto, RejectDisputeDto,
}
use truthbounty_api.Dispute.{
  is_open, is_resolvable, any_open, any_recent, validate_confidence, new_dispute, create_dispute,
  change_found, reviewed, start_review, settled, resolve_dispute, required, turned_down,
  reject_dispute, timed_out, expire_dispute,
}

abbrev pub is_resolved : DisputeStatus → Bool
is_resolved resolved = true
is_resolved _ = false

live_unresolved : (st : DisputeStatus) → is_resolvable st ≡ true → is_resolved st ≡ false
live_unresolved st h = ground arith

open_resolvable : (st : DisputeStatus) → is_open st ≡ true → is_resolvable st ≡ true
open_resolvable st h = ground arith

module _ {Num : Type 0} where
  -- A closed dispute has its `resolvedAt`, and one that is not closed has it only from an expiry,
  -- which leaves its reason; the outcome and the final confidence are set exactly when the dispute is
  -- resolved.
  pub record IsConsistent (d : Dispute Num) : Type 0 where
    pub closed_at : is_resolvable d.status ≡ false → is_some d.resolved_at ≡ true
    pub expired_at :
        is_resolvable d.status ≡ true
        → is_some d.resolved_at ≡ true
        → is_some (get "expiredReason" d.metadata) ≡ true
    pub decided : is_some d.outcome ≡ is_resolved d.status
    pub rated : is_some d.final_confidence ≡ is_resolved d.status

  -- A change of a dispute that was not closed.
  pub record IsAdvance (d e : Dispute Num) : Type 0 where
    pub was_live : is_resolvable d.status ≡ true
    pub was_open : is_open e.status ≡ true → is_open d.status ≡ true
    pub same_id : e.id ≡ d.id
    pub same_claim : e.claim_id ≡ d.claim_id
    pub same_birth : e.created_at ≡ d.created_at
    pub keeps : IsConsistent d → IsConsistent e

  -- The tables that one operation can leave.
  pub data Move (config : DisputeConfig Num) (ds : Disputes Num) : Disputes Num → Type 0 where
    added :
        (id : String) (d : Dispute Num) (now : ℕ)
        → get id ds ≡ none
        → d.id ≡ id
        → IsConsistent d
        → d.created_at ≡ now
        → any_open d.claim_id (values ds) ≡ false
        → any_recent d.claim_id now config.dispute_cooldown_hours (values ds) ≡ false
        → Move config ds (put id d ds)
    advanced :
        (id : String) (d e : Dispute Num)
        → get id ds ≡ some d
        → IsAdvance d e
        → Move config ds (put e.id e ds)

  -- One operation of the service that returns; a new dispute has a new id.
  pub data Step (a : Confidences Num) (config : DisputeConfig Num) (ds : Disputes Num)
      : Disputes Num → Type 0 where
    creates :
        (id : String) (now : ℕ) (dto : CreateDisputeDto Num) (r : Disputes Num × Dispute Num)
        → get id ds ≡ none
        → create_dispute a config id now dto ds ≡ ok r
        → Step a config ds r.0
    reviews :
        (id : String) (now : ℕ) (r : Disputes Num × Dispute Num)
        → start_review id now ds ≡ ok r
        → Step a config ds r.0
    resolves :
        (dto : ResolveDisputeDto Num) (now : ℕ) (r : Disputes Num × Dispute Num)
        → resolve_dispute a dto now ds ≡ ok r
        → Step a config ds r.0
    rejects :
        (trim : String → String) (dto : RejectDisputeDto) (now : ℕ) (r : Disputes Num × Dispute Num)
        → reject_dispute trim dto now ds ≡ ok r
        → Step a config ds r.0
    expires :
        (id notice : String) (now : ℕ) (r : Disputes Num × Dispute Num)
        → expire_dispute id notice now ds ≡ ok r
        → Step a config ds r.0

  change_found-Move :
      (config : DisputeConfig Num) (id : String) (allowed : DisputeStatus → Bool)
      (f : Dispute Num → Dispute Num) (ds : Disputes Num) (o : Option (Dispute Num))
      (r : Disputes Num × Dispute Num)
      → ((d : Dispute Num) → allowed d.status ≡ true → IsAdvance d (f d))
      → get id ds ≡ o
      → change_found allowed f ds o ≡ ok r
      → Move config ds r.0
  change_found-Move config id allowed f ds none r advance row h = cc
  change_found-Move config id allowed f ds (some d) r advance row h =
      elim (Bool-cases (allowed d.status)) [
        | inl may ↦
            let is_r : ok (put (f d).id (f d) ds, f d) ≡ ok r = rw may at h in
            subst (λ q. Move config ds q.0) (ok-injective is_r)
              (advanced id d (f d) row (advance d may))
        | inr may_not ↦ let never : err Exception.bad_request ≡ ok r = rw may_not at h in cc
      ]

  reviewed-IsAdvance :
      (now : ℕ) (d : Dispute Num) → is_open d.status ≡ true → IsAdvance d (reviewed now d)
  reviewed-IsAdvance now d live = record {
    was_live = open_resolvable d.status live;
    was_open = λ q. cc;
    same_id = refl;
    same_claim = refl;
    same_birth = refl;
    keeps = λ h. record {
      closed_at = λ closed. cc;
      expired_at = λ may dated. h.expired_at (open_resolvable d.status live) dated;
      decided = h.decided ∙ live_unresolved d.status (open_resolvable d.status live);
      rated = h.rated ∙ live_unresolved d.status (open_resolvable d.status live);
    };
  }

  settled-IsAdvance :
      (dto : ResolveDisputeDto Num) (now : ℕ) (d : Dispute Num)
      → is_resolvable d.status ≡ true
      → IsAdvance d (settled dto now d)
  settled-IsAdvance dto now d live = record {
    was_live = live;
    was_open = λ q. cc;
    same_id = refl;
    same_claim = refl;
    same_birth = refl;
    keeps = λ h. record {
      closed_at = λ closed. refl;
      expired_at = λ may dated. cc;
      decided = refl;
      rated = refl;
    };
  }

  turned_down-IsAdvance :
      (reason : String) (by_ : Option String) (now : ℕ) (d : Dispute Num)
      → is_open d.status ≡ true
      → IsAdvance d (turned_down reason by_ now d)
  turned_down-IsAdvance reason by_ now d live = record {
    was_live = open_resolvable d.status live;
    was_open = λ q. cc;
    same_id = refl;
    same_claim = refl;
    same_birth = refl;
    keeps = λ h. record {
      closed_at = λ closed. refl;
      expired_at = λ may dated. cc;
      decided = h.decided ∙ live_unresolved d.status (open_resolvable d.status live);
      rated = h.rated ∙ live_unresolved d.status (open_resolvable d.status live);
    };
  }

  timed_out-IsAdvance :
      (notice : String) (now : ℕ) (d : Dispute Num)
      → is_resolvable d.status ≡ true
      → IsAdvance d (timed_out notice now d)
  timed_out-IsAdvance notice now d live = record {
    was_live = live;
    was_open = λ q. q;
    same_id = refl;
    same_claim = refl;
    same_birth = refl;
    keeps = λ h. record {
      closed_at = λ closed. refl;
      expired_at = λ may dated. ap is_some (get-put_self "expiredReason" notice d.metadata);
      decided = h.decided;
      rated = h.rated;
    };
  }

  new_dispute-IsConsistent :
      (id : String) (now : ℕ) (dto : CreateDisputeDto Num) → IsConsistent (new_dispute id now dto)
  new_dispute-IsConsistent id now dto = record {
    closed_at = λ closed. cc;
    expired_at = λ may dated. cc;
    decided = refl;
    rated = refl;
  }

  -- The three guards of a creation that returned.
  create_dispute_guards :
      (a : Confidences Num) (config : DisputeConfig Num) (id : String) (now : ℕ)
      (dto : CreateDisputeDto Num) (ds : Disputes Num) (r : Disputes Num × Dispute Num)
      → create_dispute a config id now dto ds ≡ ok r
      → (any_open dto.claim_id (values ds) ≡ false)
        × (any_recent dto.claim_id now config.dispute_cooldown_hours (values ds) ≡ false)
        × (r.0 ≡ put id (new_dispute id now dto) ds)
  unfolding create_dispute
  create_dispute_guards a config id now dto ds r h =
      let valid =
        guards3-ok
          (not (a.is_finite dto.original_confidence)
            || (a.lt dto.original_confidence a.zero_ || a.lt a.one dto.original_confidence))
          (any_open dto.claim_id (values ds))
          (any_recent dto.claim_id now config.dispute_cooldown_hours (values ds))
          Exception.bad_request Exception.conflict Exception.bad_request h in
      (valid.0, valid.1, sym (ap (λ q. q.0) valid.2))

  -- Every operation that returns adds an open dispute, or changes one that was not closed.
  pub Step-Move :
      (a : Confidences Num) (config : DisputeConfig Num) (ds es : Disputes Num)
      → Step a config ds es
      → Move config ds es
  unfolding start_review resolve_dispute reject_dispute expire_dispute
  Step-Move a config ds es (creates id now dto r fresh h) =
      let guards = create_dispute_guards a config id now dto ds r h in
      subst (Move config ds) (sym guards.2) (
        added id (new_dispute id now dto) now fresh refl (new_dispute-IsConsistent id now dto) refl
          guards.0 guards.1)
  Step-Move a config ds es (reviews id now r h) =
      change_found-Move config id is_open (reviewed now) ds (get id ds) r (reviewed-IsAdvance now)
        refl h
  Step-Move a config ds es (resolves dto now r h) =
      let passed = >>=-eq-ok (validate_confidence a dto.final_confidence) _ h in
      change_found-Move config dto.dispute_id is_resolvable (settled dto now) ds
        (get dto.dispute_id ds) r (settled-IsAdvance dto now) refl passed.2
  Step-Move a config ds es (rejects trim dto now r h) =
      let passed = >>=-eq-ok (required trim dto.reason) _ h in
      change_found-Move config dto.dispute_id is_open (turned_down passed.0 dto.rejected_by now) ds
        (get dto.dispute_id ds) r (turned_down-IsAdvance passed.0 dto.rejected_by now) refl passed.2
  Step-Move a config ds es (expires id notice now r h) =
      change_found-Move config id is_resolvable (timed_out notice now) ds (get id ds) r
        (timed_out-IsAdvance notice now) refl h
