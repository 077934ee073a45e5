-- ===== src/Claims/Resolution/Outcome.antt =====
-- What resolving a claim by its votes leaves, when it succeeds, and that it succeeds once.
use truthbounty_api.Prelude.{
  ℕ, String, ◌≡◌, ◌≢◌, refl, sym, ap, ◌∙◌, subst, inl, inr, Option, none, some, Bool, true, false,
  Result, ok, err, Exception, string_eq, or_throw, >>=-eq-ok, ok-injective, Option-cases,
  Bool-cases, arith,
}
use truthbounty_api.Prelude.Maps.{get, put, get-put_self, get-delete_self}
use truthbounty_api.Claims.Entity.{Claim, ClaimState, state_of, get_current_state, stamped, pending}
use truthbounty_api.Claims.Entity.Lifecycle.{
  transition_to-Moved, transition_to-allowed, allowed, succeeds,
}
use truthbounty_api.Claims.Service.{Store, invalidate_claim}
use truthbounty_api.Claims.Service.Changes.{IsCoherent}
use truthbounty_api.Claims.Resolution.{
  Arithmetic, VoteWeightSummary, ConfidenceResult, validate_votes, score_votes,
  compute_confidence_score, is_for, settle_votes, save_settled, resolve_votes,
}

allowed_open :
    (st : ClaimState) → st ≢ ClaimState.finalized → allowed st ClaimState.finalized true ≡ true
allowed_open pending h = refl
allowed_open ClaimState.resolved h = refl
allowed_open ClaimState.finalized h = elim (h refl) [ ]

stamped-some : (o : Option ℕ) (now : ℕ) → (n : ℕ) × (stamped o now ≡ some n)
stamped-some none now = (now, refl)
stamped-some (some n) now = (n, refl)

not_thrown {ℓ} : {A : Type ℓ} {e : Exception} {a : A} → ¬ (err e ≡ ok a)
not_thrown h = cc

module _ {Num : Type 0} where
  finalized_flag :
      (f : Bool) (v : Option Bool) (s : Option Num)
      → state_of f v s ≡ ClaimState.finalized
      → f ≡ true
  unfolding state_of
  finalized_flag true v s h = refl
  finalized_flag false (some b) (some x) h = cc
  finalized_flag false (some b) none h = cc
  finalized_flag false none s h = cc

  settle_votes-final :
      (r : Option (ConfidenceResult Num)) (now later : ℕ) (c d : Claim Num)
      → settle_votes r now later c ≡ ok d
      → (d.finalized ≡ true) × (d.id ≡ c.id)
  settle_votes-final none now later c d h = (
    sym (ap (λ q. elim q [ ok e ↦ e.finalized | err e ↦ true ]) h),
    sym (ap (λ q. elim q [ ok e ↦ e.id | err e ↦ c.id ]) h),
  )
  settle_votes-final (some r) now later c d h =
      let m =
        transition_to-Moved ClaimState.finalized
          (some (record { verdict = some (is_for r.verdict); confidence = some r.score })) later c d
          h in
      (finalized_flag d.finalized d.resolved_verdict d.confidence_score m.reaches, (m.keeps_text).0)

  succeeds-ok : (r : Result (Claim Num)) → succeeds r ≡ true → (d : Claim Num) × (r ≡ ok d)
  succeeds-ok (ok d) h = (d, refl)
  succeeds-ok (err e) h = cc

  pub settle_votes_total :
      (r : Option (ConfidenceResult Num)) (now later : ℕ) (c : Claim Num)
      → c.finalized ≡ false
      → (d : Claim Num) × (settle_votes r now later c ≡ ok d)
  settle_votes_total none now later c open_ = (_, refl)
  settle_votes_total (some r) now later c open_ =
      let not_final : get_current_state c ≢ ClaimState.finalized = λ e.
        ground (arith, finalized_flag c.finalized c.resolved_verdict c.confidence_score e, open_) in
      succeeds-ok _ (
        transition_to-allowed ClaimState.finalized
          (some (record { verdict = some (is_for r.verdict); confidence = some r.score })) later c
        ∙ allowed_open (get_current_state c) not_final)

  -- What resolving a claim by its votes leaves: the claim was there and not final; it is saved as a
  -- final claim with a time; its cached copy is gone.
  pub record Settled (id : String) (s t : Store Num) (d : Claim Num) : Type 0 where
    pub was_open : (c : Claim Num) × (get id s.rows ≡ some c) × (c.finalized ≡ false)
    pub final : get_current_state d ≡ ClaimState.finalized
    pub flag : d.finalized ≡ true
    pub stored : get id t.rows ≡ some d
    pub timed : (n : ℕ) × (d.resolved_at ≡ some n)
    pub uncached : get id t.claim_cache ≡ none

  final_state :
      (f : Bool) (v : Option Bool) (s : Option Num)
      → f ≡ true
      → state_of f v s ≡ ClaimState.finalized
  unfolding state_of
  final_state true v s h = refl
  final_state false v s h = cc

  save_settled-Settled :
      (id : String) (s t : Store Num) (now later : ℕ) (c d : Claim Num)
      (r : Option (ConfidenceResult Num))
      → IsCoherent s
      → get id s.rows ≡ some c
      → c.finalized ≡ false
      → save_settled id s now (settle_votes r now later c) ≡ ok (t, d)
      → Settled id s t d
  unfolding invalidate_claim
  save_settled-Settled id s t now later c d r h row open_ saved =
      let settled = settle_votes_total r now later c open_ in
      let e : Claim Num = settled.0 in
      let facts = settle_votes-final r now later c e settled.1 in
      let e' : Claim Num = record e { resolved_at = stamped e.resolved_at now } in
      let own : e.id ≡ id = facts.1 ∙ h.keyed id c row in
      let t' : Store Num = invalidate_claim id (record s { rows = put e.id e' s.rows }) in
      let is_saved : ok (t', e') ≡ ok (t, d) = sym (ap (save_settled id s now) settled.1) ∙ saved in
      subst (λ q. Settled id s q.0 q.1) (ok-injective is_saved)
        (record {
          was_open = (c, row, open_);
          final = final_state e.finalized e.resolved_verdict e.confidence_score facts.0;
          flag = facts.0;
          stored =
              subst (λ k. get id (put k e' s.rows) ≡ some e') (sym own) (get-put_self id e' s.rows);
          timed = stamped-some e.resolved_at now;
          uncached = get-delete_self id s.claim_cache (h.coheres).cache_map;
        })

  compute_valid :
      (a : Arithmetic Num) (votes : Option (VoteWeightSummary Num)) (v : VoteWeightSummary Num)
      → validate_votes a votes ≡ ok v
      → compute_confidence_score a votes ≡ ok (score_votes a v)
  unfolding compute_confidence_score
  compute_valid a votes v valid = rw valid refl

  pub resolve_votes_open :
      (a : Arithmetic Num) (id : String) (votes : Option (VoteWeightSummary Num))
      (v : VoteWeightSummary Num) (now later : ℕ) (s : Store Num) (c : Claim Num)
      → validate_votes a votes ≡ ok v
      → get id s.rows ≡ some c
      → c.finalized ≡ false
      → resolve_votes a id votes now later s
        ≡ save_settled id s now (settle_votes (score_votes a v) now later c)
  unfolding resolve_votes
  resolve_votes_open a id votes v now later s c valid row open_ =
      rw (valid, row, open_, compute_valid a votes v valid) refl

  pub resolve_votes_final :
      (a : Arithmetic Num) (id : String) (votes : Option (VoteWeightSummary Num))
      (v : VoteWeightSummary Num) (now later : ℕ) (s : Store Num) (c : Claim Num)
      → validate_votes a votes ≡ ok v
      → get id s.rows ≡ some c
      → c.finalized ≡ true
      → resolve_votes a id votes now later s ≡ err Exception.conflict
  unfolding resolve_votes
  resolve_votes_final a id votes v now later s c valid row final = rw (valid, row, final) refl

  pub resolve_votes_gone :
      (a : Arithmetic Num) (id : String) (votes : Option (VoteWeightSummary Num))
      (v : VoteWeightSummary Num) (now later : ℕ) (s : Store Num)
      → validate_votes a votes ≡ ok v
      → get id s.rows ≡ none
      → resolve_votes a id votes now later s ≡ err Exception.not_found
  unfolding resolve_votes
  resolve_votes_gone a id votes v now later s valid gone = rw (valid, gone) refl

  -- Resolving a claim by its votes, when it returns, found an open claim under the id and has saved
  -- it as a final one with a time, its cached copy gone.
  pub resolve_votes-Settled :
      (a : Arithmetic Num) (id : String) (votes : Option (VoteWeightSummary Num)) (now later : ℕ)
      (s t : Store Num) (d : Claim Num)
      → IsCoherent s
      → resolve_votes a id votes now later s ≡ ok (t, d)
      → Settled id s t d
  unfolding resolve_votes
  resolve_votes-Settled a id votes now later s t d h done =
      let checked = >>=-eq-ok (validate_votes a votes) _ done in
      let loaded = >>=-eq-ok (or_throw (get id s.rows) Exception.not_found) _ checked.2 in
      let c = loaded.0 in
      elim (Option-cases (get id s.rows)) [
        | inl gone ↦
            let never : err Exception.not_found ≡ ok c =
              sym (ap (λ o. or_throw o Exception.not_found) gone) ∙ loaded.1 in
            elim (not_thrown never) [ ]
        | inr row ↦ elim (Bool-cases (row.0).finalized) [
          | inl final ↦
              let never : err Exception.conflict ≡ ok (t, d) =
                sym
                  (resolve_votes_final a id votes checked.0 now later s row.0 checked.1 row.1 final)
                ∙ done in
              elim (not_thrown never) [ ]
          | inr open_ ↦
              save_settled-Settled id s t now later row.0 d (score_votes a checked.0) h row.1 open_
                (sym (
                    resolve_votes_open a id votes checked.0 now later s row.0 checked.1 row.1 open_)
                  ∙ done)
        ]
      ]
