-- ===== src/Claims/Entity.antt =====
-- src/claims/entities/claim.entity.ts. A confidence is a number that this code only moves, so its
-- type is a parameter; `new Date()` is the argument `now`. The evidences of a claim, which none of
-- the methods reads, have no field.
pub mod Lifecycle
pub mod History
use truthbounty_api.Prelude.{
  ℕ, String, Option, none, some, Bool, true, false, Result, ok, err, Exception,
}

pub data ClaimState : Type 0 where
  pending resolved finalized : ClaimState

pub record ClaimTransitionData (Score : Type 0) : Type 0 where
  pub verdict : Option Bool
  pub confidence : Option Score

pub record Claim (Score : Type 0) : Type 0 where
  pub id : String
  pub title : String
  pub content : String
  pub source : Option String
  pub metadata : Option String
  pub resolved_verdict : Option Bool
  pub confidence_score : Option Score
  pub finalized : Bool
  pub created_at : ℕ
  pub resolved_at : Option ℕ

-- The value that is kept when none is given.
abbrev pub updated {ℓ} : {A : Type ℓ} → Option A → Option A → Option A
updated (some new) old = some new
updated none old = old

-- `resolvedAt` when it is set at most once.
abbrev pub stamped : Option ℕ → ℕ → Option ℕ
stamped none now = some now
stamped (some t) now = some t

module _ {Score : Type 0} where
  unfoldable pub state_of : Bool → Option Bool → Option Score → ClaimState
  state_of true v s = ClaimState.finalized
  state_of false (some v) (some s) = resolved
  state_of false (some v) none = pending
  state_of false none s = pending

  -- `getCurrentState`, from the three fields it reads.
  abbrev pub get_current_state : Claim Score → ClaimState
  get_current_state c = state_of c.finalized c.resolved_verdict c.confidence_score

  -- `data?.verdict` and `data?.confidence`.
  abbrev pub given_verdict : Option (ClaimTransitionData Score) → Option Bool
  given_verdict none = none
  given_verdict (some d) = d.verdict

  abbrev pub given_confidence : Option (ClaimTransitionData Score) → Option Score
  given_confidence none = none
  given_confidence (some d) = d.confidence

  -- PENDING to the target whose flag is given: both data are required.
  unfoldable pub settle : Bool → Option Bool → Option Score → ℕ → Claim Score → Result (Claim Score)
  settle final (some v) (some s) now c = ok (record c {
    resolved_verdict = some v;
    confidence_score = some s;
    finalized = final;
    resolved_at = stamped c.resolved_at now;
  })
  settle final (some v) none now c = err Exception.error
  settle final none s now c = err Exception.error

  -- The branches of `transitionTo`, by the current state and the target.
  unfoldable pub transition :
      ClaimState
      → ClaimState
      → Option (ClaimTransitionData Score)
      → ℕ
      → Claim Score
      → Result (Claim Score)
  transition ClaimState.finalized target d now c = err Exception.error
  transition pending pending d now c = err Exception.error
  transition resolved pending d now c = err Exception.error
  transition pending resolved d now c = settle false (given_verdict d) (given_confidence d) now c
  transition resolved resolved d now c = ok (record c {
    resolved_verdict = updated (given_verdict d) c.resolved_verdict;
    confidence_score = updated (given_confidence d) c.confidence_score;
  })
  transition pending ClaimState.finalized d now c =
      settle true (given_verdict d) (given_confidence d) now c
  transition resolved ClaimState.finalized d now c = ok (record c {
    resolved_verdict = updated (given_verdict d) c.resolved_verdict;
    confidence_score = updated (given_confidence d) c.confidence_score;
    finalized = true;
  })

  -- `transitionTo`: every throw comes before the first assignment.
  unfoldable pub transition_to :
      ClaimState → Option (ClaimTransitionData Score) → ℕ → Claim Score → Result (Claim Score)
  transition_to target d now c = transition (get_current_state c) target d now c
