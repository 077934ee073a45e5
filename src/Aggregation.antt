-- ===== src/Aggregation.antt =====
-- src/aggregation/aggregation.service.ts and aggregation.types.ts. The weights are JavaScript
-- numbers: the arithmetic on them is a record of operations, which the code uses as it stands.
pub mod Swapped
mod Tests
use truthbounty_api.Prelude.{
  ℕ, String, Bool, true, false, ◌||◌, if◌then◌else◌, List, [], ◌∷◌, length,
}

pub data VerificationVerdict : Type 0 where
  true_ false_ : VerificationVerdict

pub data ClaimStatus : Type 0 where
  verified_true verified_false inconclusive : ClaimStatus

pub record Verification (Num : Type 0) : Type 0 where
  pub id : String
  pub claim_id : String
  pub user_id : String
  pub verdict : VerificationVerdict
  pub stake_amount : Num
  pub reputation_weight : Num
  pub created_at : ℕ

pub record AggregationResult (Num : Type 0) : Type 0 where
  pub claim_id : String
  pub status : ClaimStatus
  pub confidence : Num
  pub true_weight : Num
  pub false_weight : Num
  pub verification_count : ℕ

-- The operations on numbers that the service uses; `lt x y` is `x < y`, `same` is `===`.
pub record Arithmetic (Num : Type 0) : Type 0 where
  pub zero_ : Num
  pub ten : Num
  pub hundred : Num
  pub lt : Num → Num → Bool
  pub same : Num → Num → Bool
  pub add : Num → Num → Num
  pub mul : Num → Num → Num
  pub div : Num → Num → Num
  pub max_ : Num → Num → Num
  pub round : Num → Num

-- The two weights of the loop.
pub record Weights (Num : Type 0) : Type 0 where
  pub true_weight : Num
  pub false_weight : Num

module _ {Num : Type 0} where
  abbrev pub metadata_result : String → ClaimStatus → Num → Weights Num → ℕ → AggregationResult Num
  metadata_result claim_id status confidence w count = record {
    claim_id = claim_id;
    status = status;
    confidence = confidence;
    true_weight = w.true_weight;
    false_weight = w.false_weight;
    verification_count = count;
  }

module _ {Num : Type 0} (a : Arithmetic Num) where
  abbrev pub compute_weight : Verification Num → Num
  compute_weight v = a.mul v.stake_amount v.reputation_weight

  abbrev pub compute_confidence : Num → Num → Num
  compute_confidence winning total = a.round (a.mul (a.div winning total) a.hundred)

  abbrev pub inconclusive_result : String → Weights Num → ℕ → AggregationResult Num
  inconclusive_result claim_id w count = metadata_result claim_id inconclusive a.zero_ w count

  -- The body of the loop.
  abbrev pub add_verification : VerificationVerdict → Num → Weights Num → Weights Num
  add_verification true_ x w = record w { true_weight = a.add w.true_weight x }
  add_verification false_ x w = record w { false_weight = a.add w.false_weight x }

  abbrev pub add_weights : List (Verification Num) → Weights Num → Weights Num
  add_weights [] w = w
  add_weights (v ∷ vs) w = add_weights vs (add_verification v.verdict (compute_weight v) w)

  abbrev pub total_weight : Weights Num → Num
  total_weight w = a.add w.true_weight w.false_weight

  abbrev pub status_of : Weights Num → ClaimStatus
  status_of w = if a.lt w.false_weight w.true_weight then verified_true else verified_false

  abbrev pub winning_confidence : Weights Num → Num
  winning_confidence w = compute_confidence (a.max_ w.true_weight w.false_weight) (total_weight w)

  -- What follows the loop: the guards on the total, on a tie and on the confidence, in this order.
  abbrev pub decide : String → Weights Num → ℕ → AggregationResult Num
  decide claim_id w count =
      if a.same (total_weight w) a.zero_
      then inconclusive_result claim_id w count
      else if a.same w.true_weight w.false_weight
      then inconclusive_result claim_id w count
      else if a.lt (winning_confidence w) a.ten
      then inconclusive_result claim_id w count
      else metadata_result claim_id (status_of w) (winning_confidence w) w count

  abbrev pub no_weights : Weights Num
  no_weights = record { true_weight = a.zero_; false_weight = a.zero_ }

  unfoldable pub aggregate : String → List (Verification Num) → AggregationResult Num
  aggregate claim_id [] = inconclusive_result claim_id no_weights 0
  aggregate claim_id (v ∷ vs) = decide claim_id (add_weights (v ∷ vs) no_weights) (length (v ∷ vs))
