-- ===== src/Aggregation/Tests.antt =====
-- The aggregation at three verifications, with natural numbers for the weights.
use truthbounty_api.Prelude.{ℕ, ◌+◌, ◌*◌, ◌/◌, max, ◌≡◌, refl, [], ◌∷◌, ltb, ◌==◌, arith, map, List}
use truthbounty_api.Aggregation.{
  VerificationVerdict, true_, false_, verified_true, inconclusive, Verification, Arithmetic,
  aggregate,
}
use truthbounty_api.Aggregation.Swapped.{Symmetric, swapped, swapped_result, aggregate-swapped}

-- A weight stands for its hundredfold, so that the quotient keeps two places.
abbrev percents : Arithmetic ℕ
percents = record {
  zero_ = 0;
  ten = 10;
  hundred = 1;
  lt = ltb;
  same = λ x y. x == y;
  add = λ x y. x + y;
  mul = λ x y. x * y;
  div = λ x y. (100 * x) / y;
  max_ = max;
  round = λ x. x;
}

percents-Symmetric : Symmetric percents
percents-Symmetric = record {
  add_swap = λ x y. omega arith;
  max_swap = λ x y. omega arith;
  same_swap = λ x y. ground arith;
}

abbrev verification_by : VerificationVerdict → ℕ → Verification ℕ
verification_by verdict stake = record {
  id = "v";
  claim_id = "c";
  user_id = "u";
  verdict = verdict;
  stake_amount = stake;
  reputation_weight = 2;
  created_at = 0;
}

abbrev three : List (Verification ℕ)
three = verification_by true_ 5 ∷ verification_by false_ 4 ∷ verification_by true_ 1 ∷ []

three_aggregated : aggregate percents "c" three ≡ record {
  claim_id = "c";
  status = verified_true;
  confidence = 60;
  true_weight = 12;
  false_weight = 8;
  verification_count = 3;
}
unfolding aggregate
three_aggregated = refl

tie_aggregated :
    (aggregate percents "c" (verification_by true_ 5 ∷ verification_by false_ 5 ∷ [])).status
    ≡ inconclusive
unfolding aggregate
tie_aggregated = refl

aggregate-swapped_example :
    aggregate percents "c" (map swapped three) ≡ swapped_result (aggregate percents "c" three)
aggregate-swapped_example = aggregate-swapped percents percents-Symmetric "c" three (λ h. refl)
