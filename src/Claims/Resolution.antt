-- ===== src/Claims/Resolution.antt =====
-- src/claims/claim-resolution.service.ts. The weights are JavaScript numbers: the arithmetic on them
-- is a record of operations, which the code uses as it stands. `now` and `later` are the two
-- readings of the clock, before the transaction and inside it.
pub mod Outcome
pub mod Verdicts
use truthbounty_api.Prelude.{
  ℕ, String, ◌≡◌, Option, none, some, Bool, true, false, not, ◌||◌, Result, ok, err, Exception,
  string_eq, if◌then◌else◌, ◌>>=◌, ◌>>◌, throw_if, or_throw, List, [], ◌∷◌,
}
use truthbounty_api.Prelude.Maps.{JsMap, get, put, values}
use truthbounty_api.Claims.Entity.{Claim, ClaimState, transition_to, stamped}
use truthbounty_api.Claims.Service.{Store, invalidate_claim}

-- The operations on numbers that the score uses; `fixed4` is `Number(x.toFixed(4))`.
pub record Arithmetic (Num : Type 0) : Type 0 where
  pub zero_ : Num
  pub one : Num
  pub hundred : Num
  pub lt : Num → Num → Bool
  pub same : Num → Num → Bool
  pub is_finite : Num → Bool
  pub add : Num → Num → Num
  pub sub : Num → Num → Num
  pub mul : Num → Num → Num
  pub div : Num → Num → Num
  pub abs : Num → Num
  pub min_ : Num → Num → Num
  pub fixed4 : Num → Num

pub record VoteWeightSummary (Num : Type 0) : Type 0 where
  pub true_weight : Num
  pub false_weight : Num

pub data Verdict : Type 0 where
  for against inconclusive : Verdict

pub record ConfidenceResult (Num : Type 0) : Type 0 where
  pub score : Num
  pub verdict : Verdict
  pub margin : Num
  pub participation : Num
  pub total_weight : Num

abbrev pub is_for : Verdict → Bool
is_for for = true
is_for against = false
is_for inconclusive = false

module _ {Num : Type 0} where
  -- The body of the transaction before `save`.
  abbrev pub settle_votes : Option (ConfidenceResult Num) → ℕ → ℕ → Claim Num → Result (Claim Num)
  settle_votes (some r) now later c =
      transition_to ClaimState.finalized
        (some (record { verdict = some (is_for r.verdict); confidence = some r.score })) later c
  settle_votes none now later c = ok (record c {
    resolved_verdict = none;
    confidence_score = none;
    finalized = true;
    resolved_at = stamped c.resolved_at now;
  })

  abbrev pub save_settled :
      String → Store Num → ℕ → Result (Claim Num) → Result (Store Num × Claim Num)
  save_settled id s now (err e) = err e
  save_settled id s now (ok c) = ok (
    invalidate_claim id (record s {
      rows = put c.id (record c { resolved_at = stamped c.resolved_at now }) s.rows;
    }),
    record c { resolved_at = stamped c.resolved_at now },
  )

  -- `isFinalized`: the count of the rows with the id whose flag is set.
  abbrev pub is_final_row : Option (Claim Num) → Bool
  is_final_row none = false
  is_final_row (some c) = c.finalized

  unfoldable pub is_finalized : String → Store Num → Bool
  is_finalized id s = is_final_row (get id s.rows)

module _ {Num : Type 0} (a : Arithmetic Num) where
  -- `validateVotes`: three guards, in this order.
  abbrev pub validate_votes : Option (VoteWeightSummary Num) → Result (VoteWeightSummary Num)
  validate_votes none = err Exception.bad_request
  validate_votes (some v) =
      throw_if (a.lt v.true_weight a.zero_ || a.lt v.false_weight a.zero_) Exception.bad_request
      >> throw_if (not (a.is_finite v.true_weight) || not (a.is_finite v.false_weight))
          Exception.bad_request
      >> ok v

  abbrev pub verdict_of : VoteWeightSummary Num → Verdict
  verdict_of v =
      if a.same v.true_weight v.false_weight
      then inconclusive
      else if a.lt v.false_weight v.true_weight
      then for
      else against

  abbrev pub total_of : VoteWeightSummary Num → Num
  total_of v = a.add v.true_weight v.false_weight

  abbrev pub margin_of : VoteWeightSummary Num → Num
  margin_of v = a.div (a.abs (a.sub v.true_weight v.false_weight)) (total_of v)

  abbrev pub participation_of : VoteWeightSummary Num → Num
  participation_of v = a.min_ (a.div (total_of v) a.hundred) a.one

  abbrev pub confidence_of : VoteWeightSummary Num → ConfidenceResult Num
  confidence_of v = record {
    score = a.fixed4 (a.mul (margin_of v) (participation_of v));
    verdict = verdict_of v;
    margin = margin_of v;
    participation = participation_of v;
    total_weight = total_of v;
  }

  abbrev pub score_votes : VoteWeightSummary Num → Option (ConfidenceResult Num)
  score_votes v = if a.lt (total_of v) a.hundred then none else some (confidence_of v)

  unfoldable pub compute_confidence_score :
      Option (VoteWeightSummary Num) → Result (Option (ConfidenceResult Num))
  compute_confidence_score votes = validate_votes votes >>= λ v. ok (score_votes v)

  unfoldable pub resolve_votes :
      String → Option (VoteWeightSummary Num) → ℕ → ℕ → Store Num → Result (Store Num × Claim Num)
  resolve_votes id votes now later s = validate_votes votes >>= λ v.
      or_throw (get id s.rows) Exception.not_found >>= λ c.
      throw_if c.finalized Exception.conflict >>= λ _.
      compute_confidence_score votes >>= λ r. save_settled id s now (settle_votes r now later c)
