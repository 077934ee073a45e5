-- ===== src/WeightedVotes.antt =====
-- src/blockchain/weighted-vote-resolution.service.ts. The arithmetic of JavaScript numbers is a
-- record of operations. UNRESOLVED is the verdict `none`; reasons are only logged and left out.
-- `now` is the time of the result.
pub mod Types
pub mod Ranking
pub mod Majority
mod Tests
use truthbounty_api.Prelude.{
  ℕ, String, Option, none, some, Bool, true, false, if◌then◌else◌, List, [], ◌∷◌, length, map,
  string_eq,
}
use truthbounty_api.WeightedVotes.Types.{
  Verdict, true_, false_, unsure, VerificationVote, WeightedVote, VerdictWeights, VoteAggregation,
  ClaimResolution, ResolutionConfig, PartialConfig,
}
use truthbounty_api.Prelude.Maps.{JsMap, get, put, values}

-- The operations on numbers that the service uses; `truthy x` is whether `x || 0` is `x`.
pub record Arithmetic (Num : Type 0) : Type 0 where
  pub zero_ : Num
  pub one : Num
  pub hundred : Num
  pub tenth : Num
  pub lowest : Num
  pub lt : Num → Num → Bool
  pub same : Num → Num → Bool
  pub truthy : Num → Bool
  pub add : Num → Num → Num
  pub sub : Num → Num → Num
  pub mul : Num → Num → Num
  pub div : Num → Num → Num
  pub max_ : Num → Num → Num
  pub min_ : Num → Num → Num
  pub sqrt : Num → Num
  pub parse_float : String → Num

-- The verdict, for a near tie, for a low confidence and for the heaviest verdict.
abbrev pub final_verdict : Bool → Bool → Verdict → Option Verdict
final_verdict true low v = none
final_verdict false true v = none
final_verdict false false v = some v

module _ {Num : Type 0} where
  abbrev pub given : Option Num → Num → Num
  given none x = x
  given (some y) x = y

  unfoldable pub update_config : PartialConfig Num → ResolutionConfig Num → ResolutionConfig Num
  update_config p c = record {
    min_total_weight = given p.min_total_weight c.min_total_weight;
    confidence_threshold = given p.confidence_threshold c.confidence_threshold;
    max_reputation_share = given p.max_reputation_share c.max_reputation_share;
    tie_threshold = given p.tie_threshold c.tie_threshold;
  }

  abbrev pub weight_for : Verdict → VerdictWeights Num → Num
  weight_for true_ w = w.true_weight
  weight_for false_ w = w.false_weight
  weight_for unsure w = w.unsure_weight

module _ {Num : Type 0} (a : Arithmetic Num) where
  abbrev pub or_zero : Num → Num
  or_zero x = if a.truthy x then x else a.zero_

  abbrev pub calculate_vote_weight : VerificationVote Num → WeightedVote Num
  calculate_vote_weight v = record {
    vote = v;
    weight =
        a.add (a.max_ a.one (a.min_ a.hundred v.user_reputation))
          (a.mul (a.sqrt (a.max_ a.zero_ (or_zero (a.parse_float v.stake_amount)))) a.tenth);
  }

  -- `verdictWeights[vote.verdict] += vote.weight`
  abbrev pub add_weight : Verdict → Num → VerdictWeights Num → VerdictWeights Num
  add_weight true_ x w = record w { true_weight = a.add w.true_weight x }
  add_weight false_ x w = record w { false_weight = a.add w.false_weight x }
  add_weight unsure x w = record w { unsure_weight = a.add w.unsure_weight x }

  abbrev pub add_votes : List (WeightedVote Num) → VerdictWeights Num → VerdictWeights Num
  add_votes [] w = w
  add_votes (v ∷ vs) w = add_votes vs (add_weight (v.vote).verdict v.weight w)

  abbrev pub sum_weights : List (WeightedVote Num) → Num → Num
  sum_weights [] x = x
  sum_weights (v ∷ vs) x = sum_weights vs (a.add x v.weight)

  abbrev pub no_weights : VerdictWeights Num
  no_weights = record { true_weight = a.zero_; false_weight = a.zero_; unsure_weight = a.zero_ }

  abbrev pub aggregate_votes : String → List (WeightedVote Num) → VoteAggregation Num
  aggregate_votes claim_id vs = record {
    claim_id = claim_id;
    total_weight = sum_weights vs a.zero_;
    verdict_weights = add_votes vs no_weights;
    voter_count = length vs;
    votes = vs;
  }

  -- The stable sort of the entries by falling weight.
  abbrev pub insert_entry : Verdict × Num → List (Verdict × Num) → List (Verdict × Num)
  insert_entry e [] = e ∷ []
  insert_entry e (f ∷ fs) = if a.lt e.1 f.1 then f ∷ insert_entry e fs else e ∷ f ∷ fs

  abbrev pub sorted_verdicts : VerdictWeights Num → List (Verdict × Num)
  sorted_verdicts w =
      insert_entry (true_, w.true_weight)
        (insert_entry (false_, w.false_weight) ((unsure, w.unsure_weight) ∷ []))

  abbrev pub user_weight : Option Num → Num
  user_weight none = a.zero_
  user_weight (some x) = or_zero x

  abbrev pub user_weights : List (WeightedVote Num) → JsMap String Num → JsMap String Num
  user_weights [] m = m
  user_weights (v ∷ vs) m =
      let user = (v.vote).user_id in
      user_weights vs (put user (a.add (user_weight (get user m)) v.weight) m)

  -- `Math.max(...xs)`; `lowest` is -Infinity.
  abbrev pub maximum : List Num → Num
  maximum [] = a.lowest
  maximum (x ∷ xs) = a.max_ x (maximum xs)

  abbrev pub get_max_individual_share : List (WeightedVote Num) → Num
  get_max_individual_share vs =
      let total = sum_weights vs a.zero_ in
      if a.same total a.zero_ then a.zero_ else a.div (maximum (values (user_weights vs []))) total

  abbrev pub create_unresolved_result : String → ℕ → ClaimResolution Num
  create_unresolved_result claim_id now = record {
    claim_id = claim_id;
    resolved_verdict = none;
    confidence_score = a.zero_;
    resolution_margin = a.zero_;
    total_weight = a.zero_;
    voter_count = 0;
    verdict_distribution = no_weights;
    timestamp = now;
    dominant_verdict_weight = a.zero_;
    second_verdict_weight = a.zero_;
    is_tie = false;
    is_low_confidence = true;
  }

  abbrev pub near_tie : ResolutionConfig Num → Num → Num → Num → Bool
  near_tie config total first second = a.lt (a.sub first second) (a.mul total config.tie_threshold)

  abbrev pub confidence_of : Num → Num → Num
  confidence_of total first = if a.lt a.zero_ total then a.div first total else a.zero_

  -- The metrics and the verdict, for the first two entries of the sorted list.
  abbrev pub resolution_by :
      ResolutionConfig Num → VoteAggregation Num → ℕ → Verdict × Num → Num → ClaimResolution Num
  resolution_by config g now first second =
      let tie = near_tie config g.total_weight first.1 second in
      let confidence = confidence_of g.total_weight first.1 in
      let low = a.lt confidence config.confidence_threshold in
      record {
        claim_id = g.claim_id;
        resolved_verdict = final_verdict tie low first.0;
        confidence_score = confidence;
        resolution_margin = a.sub first.1 second;
        total_weight = g.total_weight;
        voter_count = g.voter_count;
        verdict_distribution = g.verdict_weights;
        timestamp = now;
        dominant_verdict_weight = first.1;
        second_verdict_weight = second;
        is_tie = tie;
        is_low_confidence = low;
      }

  -- There are three entries, so the first two cases do not occur.
  abbrev pub resolution_of :
      ResolutionConfig Num → VoteAggregation Num → ℕ → List (Verdict × Num) → ClaimResolution Num
  resolution_of config g now [] = create_unresolved_result g.claim_id now
  resolution_of config g now (e ∷ []) = resolution_by config g now e a.zero_
  resolution_of config g now (e ∷ f ∷ rest) = resolution_by config g now e f.1

  abbrev pub determine_resolution :
      ResolutionConfig Num → VoteAggregation Num → ℕ → ClaimResolution Num
  determine_resolution config g now =
      if a.lt g.total_weight config.min_total_weight
      then create_unresolved_result g.claim_id now
      else if a.lt config.max_reputation_share (get_max_individual_share g.votes)
      then create_unresolved_result g.claim_id now
      else resolution_of config g now (sorted_verdicts g.verdict_weights)

  -- `default_config` is the service's field.
  unfoldable pub resolve_claim :
      ResolutionConfig Num
      → List (VerificationVote Num)
      → PartialConfig Num
      → ℕ
      → ClaimResolution Num
  resolve_claim default_config [] p now = create_unresolved_result "unknown" now
  resolve_claim default_config (v ∷ vs) p now =
      determine_resolution (update_config p default_config)
        (aggregate_votes v.claim_id (map calculate_vote_weight (v ∷ vs))) now
