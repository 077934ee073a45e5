-- ===== src/WeightedVotes/Types.antt =====
-- The votes and the results of the weighted vote resolution: src/blockchain/types.ts.
use truthbounty_api.Prelude.{ℕ, String, Option, Bool, List}

pub data Verdict : Type 0 where
  true_ false_ unsure : Verdict

pub record VerificationVote (Num : Type 0) : Type 0 where
  pub claim_id : String
  pub user_id : String
  pub verdict : Verdict
  pub stake_amount : String
  pub user_reputation : Num
  pub timestamp : ℕ
  pub event_id : String

pub record WeightedVote (Num : Type 0) : Type 0 where
  pub vote : VerificationVote Num
  pub weight : Num

-- `Record<Verdict, number>`
pub record VerdictWeights (Num : Type 0) : Type 0 where
  pub true_weight : Num
  pub false_weight : Num
  pub unsure_weight : Num

pub record VoteAggregation (Num : Type 0) : Type 0 where
  pub claim_id : String
  pub total_weight : Num
  pub verdict_weights : VerdictWeights Num
  pub voter_count : ℕ
  pub votes : List (WeightedVote Num)

pub record ClaimResolution (Num : Type 0) : Type 0 where
  pub claim_id : String
  pub resolved_verdict : Option Verdict
  pub confidence_score : Num
  pub resolution_margin : Num
  pub total_weight : Num
  pub voter_count : ℕ
  pub verdict_distribution : VerdictWeights Num
  pub timestamp : ℕ
  pub dominant_verdict_weight : Num
  pub second_verdict_weight : Num
  pub is_tie : Bool
  pub is_low_confidence : Bool

pub record ResolutionConfig (Num : Type 0) : Type 0 where
  pub min_total_weight : Num
  pub confidence_threshold : Num
  pub max_reputation_share : Num
  pub tie_threshold : Num

-- `Partial<ResolutionConfig>`: the fields that are given.
pub record PartialConfig (Num : Type 0) : Type 0 where
  pub min_total_weight : Option Num
  pub confidence_threshold : Option Num
  pub max_reputation_share : Option Num
  pub tie_threshold : Option Num
