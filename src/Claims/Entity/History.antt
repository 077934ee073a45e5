-- ===== src/Claims/Entity/History.antt =====
-- Runs of transitions of a claim: what no run changes.
use truthbounty_api.Prelude.{ℕ, ◌≡◌, ◌≤◌, Option, ok, arith}
use truthbounty_api.Claims.Entity.{
  Claim, ClaimState, ClaimTransitionData, get_current_state, transition_to,
}
use truthbounty_api.Claims.Entity.Lifecycle.{
  rank, Keeps, Keeps-refl, Keeps-trans, transition_to-Moved,
}

module _ {Score : Type 0} where
  -- A run of transitions; a call that throws leaves the claim as it was.
  pub data Run : Claim Score → Claim Score → Type 0 where
    done : {c : Claim Score} → Run c c
    move :
        {c d e : Claim Score} (target : ClaimState) (data_ : Option (ClaimTransitionData Score))
        (now : ℕ)
        → transition_to target data_ now c ≡ ok d
        → Run d e
        → Run c e

  -- Over any run of transitions a claim never goes back in the order PENDING, RESOLVED, FINALIZED,
  -- and a `resolvedAt` that is set keeps its value.
  Run-monotone :
      (c e : Claim Score)
      → Run c e
      → (rank (get_current_state c) ≤ rank (get_current_state e))
        × Keeps c.resolved_at e.resolved_at
  Run-monotone c e done = (ground arith, Keeps-refl c.resolved_at)
  Run-monotone c e (move {d} target data_ now h rest) =
      let m = transition_to-Moved target data_ now c d h in
      let r = Run-monotone d e rest in
      let up : rank (get_current_state d) ≤ rank (get_current_state e) = r.0 in
      let up' : rank target ≤ rank (get_current_state e) = rw m.reaches at up in
      let first = m.forwards in
      (omega arith, Keeps-trans c.resolved_at d.resolved_at e.resolved_at m.keeps_stamp r.1)
