-- ===== src/Claims/Resolution/Verdicts.antt =====
-- What resolving a claim by its votes throws, that it succeeds once, and the verdict of a tie.
use truthbounty_api.Prelude.{
  ℕ, String, ◌≡◌, refl, sym, ap, ◌∙◌, inl, inr, Option, none, some, Bool, true, false, Result, ok,
  err, Exception, string_eq, ok-injective, Result-cases, Option-cases, Bool-cases,
}
use truthbounty_api.Prelude.Maps.{get}
use truthbounty_api.Claims.Entity.{
  Claim, ClaimState, get_current_state, transition_to, transition, settle, pending,
}
use truthbounty_api.Claims.Service.{Store}
use truthbounty_api.Claims.Service.Changes.{IsCoherent}
use truthbounty_api.Claims.Resolution.{
  Arithmetic, VoteWeightSummary, ConfidenceResult, inconclusive, validate_votes, total_of,
  confidence_of, score_votes, verdict_of, is_for, settle_votes, save_settled, resolve_votes,
  is_final_row, is_finalized,
}
use truthbounty_api.Claims.Resolution.Outcome.{
  settle_votes_total, resolve_votes_open, resolve_votes_final, resolve_votes_gone,
  resolve_votes-Settled,
}

-- The exception of a call, if it throws.
abbrev pub thrown {ℓ} : {A : Type ℓ} → Result A → Option Exception
thrown (ok x) = none
thrown (err e) = some e

abbrev pub first_thrown : Option Exception → Option Exception → Option Exception
first_thrown (some e) o = some e
first_thrown none o = o

abbrev pub refusal_by : Bool → Option Exception
refusal_by true = some Exception.conflict
refusal_by false = none

-- What the state of the row refuses.
abbrev pub refusal : {Num : Type 0} → Option (Claim Num) → Option Exception
refusal none = some Exception.not_found
refusal (some c) = refusal_by c.finalized

module _ {Num : Type 0} where
  thrown_valid :
      (a : Arithmetic Num) (id : String) (votes : Option (VoteWeightSummary Num))
      (v : VoteWeightSummary Num) (now later : ℕ) (s : Store Num)
      → validate_votes a votes ≡ ok v
      → thrown (resolve_votes a id votes now later s) ≡ refusal (get id s.rows)
  thrown_valid a id votes v now later s valid = elim (Option-cases (get id s.rows)) [
    | inl gone ↦ rw (resolve_votes_gone a id votes v now later s valid gone, gone) refl
    | inr row ↦ elim (Bool-cases (row.0).finalized) [
      | inl final ↦
          ap thrown (resolve_votes_final a id votes v now later s row.0 valid row.1 final)
          ∙ sym (ap refusal row.1 ∙ ap refusal_by final)
      | inr open_ ↦
          let settled = settle_votes_total (score_votes a v) now later row.0 open_ in
          ap thrown (
            resolve_votes_open a id votes v now later s row.0 valid row.1 open_
            ∙ ap (save_settled id s now) settled.1)
          ∙ sym (ap refusal row.1 ∙ ap refusal_by open_)
    ]
  ]

  -- What resolving a claim by its votes throws: what the validation of the votes throws; where they
  -- pass, NotFound for a missing claim and Conflict for a final one; on an open claim nothing, so
  -- that it returns.
  pub resolve_votes_throws :
      (a : Arithmetic Num) (id : String) (votes : Option (VoteWeightSummary Num)) (now later : ℕ)
      (s : Store Num)
      → thrown (resolve_votes a id votes now later s)
        ≡ first_thrown (thrown (validate_votes a votes)) (refusal (get id s.rows))
  unfolding resolve_votes
  resolve_votes_throws a id votes now later s = elim (Result-cases (validate_votes a votes)) [
    | inl valid ↦
        thrown_valid a id votes valid.0 now later s valid.1
        ∙ sym (ap (λ r. first_thrown (thrown r) (refusal (get id s.rows))) valid.1)
    | inr bad ↦ rw (bad.1) refl
  ]

  -- A claim that was resolved by votes is final for `isFinalized`, and resolving it again by any
  -- votes that pass the validation throws Conflict.
  resolve_votes_twice :
      (a : Arithmetic Num) (id : String) (votes again : Option (VoteWeightSummary Num))
      (v : VoteWeightSummary Num) (now later now' later' : ℕ) (s t : Store Num) (d : Claim Num)
      → IsCoherent s
      → resolve_votes a id votes now later s ≡ ok (t, d)
      → validate_votes a again ≡ ok v
      → (is_finalized id t ≡ true)
        × (resolve_votes a id again now' later' t ≡ err Exception.conflict)
  unfolding is_finalized
  resolve_votes_twice a id votes again v now later now' later' s t d h done valid =
      let settled = resolve_votes-Settled a id votes now later s t d h done in
      (
        ap is_final_row settled.stored ∙ settled.flag,
        resolve_votes_final a id again v now' later' t d valid settled.stored settled.flag,
      )

  transition_verdict :
      (from : ClaimState) (b : Bool) (x : Num) (now : ℕ) (c d : Claim Num)
      → transition from ClaimState.finalized
          (some (record { verdict = some b; confidence = some x }))
          now
          c
        ≡ ok d
      → d.resolved_verdict ≡ some b
  unfolding transition settle
  transition_verdict ClaimState.finalized b x now c d h = cc
  transition_verdict pending b x now c d h = sym (ap (λ e. e.resolved_verdict) (ok-injective h))
  transition_verdict ClaimState.resolved b x now c d h =
      sym (ap (λ e. e.resolved_verdict) (ok-injective h))

  settle_votes_verdict :
      (r : ConfidenceResult Num) (now later : ℕ) (c d : Claim Num)
      → settle_votes (some r) now later c ≡ ok d
      → d.resolved_verdict ≡ some (is_for r.verdict)
  unfolding transition_to
  settle_votes_verdict r now later c d h =
      transition_verdict (get_current_state c) (is_for r.verdict) r.score later c d h

  -- Votes of equal weight on both sides, in a total that is large enough, have the verdict
  -- inconclusive, and an open claim is then saved with the verdict `false`.
  resolve_votes_tie :
      (a : Arithmetic Num) (id : String) (v : VoteWeightSummary Num) (now later : ℕ) (s : Store Num)
      (c : Claim Num)
      → validate_votes a (some v) ≡ ok v
      → get id s.rows ≡ some c
      → c.finalized ≡ false
      → a.lt (total_of a v) a.hundred ≡ false
      → a.same v.true_weight v.false_weight ≡ true
      → (verdict_of a v ≡ inconclusive)
        × ((r : Store Num × Claim Num) × (resolve_votes a id (some v) now later s ≡ ok r)
            × ((r.1).resolved_verdict ≡ some false))
  resolve_votes_tie a id v now later s c valid row open_ enough tie =
      let result = confidence_of a v in
      let tied : verdict_of a v ≡ inconclusive = rw tie refl in
      let scored : score_votes a v ≡ some result = rw enough refl in
      let settled = settle_votes_total (some result) now later c open_ in
      let verdict =
        settle_votes_verdict result now later c settled.0 settled.1
        ∙ ap (λ w. some (is_for w)) tied in
      (
        tied,
        (
          _,
          resolve_votes_open a id (some v) v now later s c valid row open_
              ∙ ap (λ o. save_settled id s now (settle_votes o now later c)) scored
              ∙ ap (save_settled id s now) settled.1,
          verdict,
        ),
      )
