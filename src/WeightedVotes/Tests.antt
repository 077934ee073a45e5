-- ===== src/WeightedVotes/Tests.antt =====
-- The resolution by weighted votes at a few votes, with natural numbers for the weights.
use truthbounty_api.Prelude.{
  ℕ, String, ◌+◌, ◌-◌, ◌*◌, ◌/◌, max, min, ◌≡◌, refl, none, some, not, List, [], ◌∷◌, map, ltb,
  ◌==◌, arith,
}
use truthbounty_api.WeightedVotes.Types.{
  Verdict, true_, false_, VerificationVote, ResolutionConfig, PartialConfig,
}
use truthbounty_api.WeightedVotes.{Arithmetic, update_config, calculate_vote_weight, resolve_claim}
use truthbounty_api.WeightedVotes.Ranking.{Ordered}
use truthbounty_api.WeightedVotes.Majority.{Majority, resolve_claim-Majority}

-- Shares are percentages; the stakes of the votes below are zero.
abbrev percents : Arithmetic ℕ
percents = record {
  zero_ = 0;
  one = 1;
  hundred = 100;
  tenth = 0;
  lowest = 0;
  lt = ltb;
  same = λ x y. x == y;
  truthy = λ x. not (x == 0);
  add = λ x y. x + y;
  sub = λ x y. x - y;
  mul = λ x y. (x * y) / 100;
  div = λ x y. (100 * x) / y;
  max_ = max;
  min_ = min;
  sqrt = λ x. x;
  parse_float = λ s. 0;
}

percents-Ordered : Ordered percents
percents-Ordered = record {
  asym = λ x y h. ground arith;
  trans = λ x y z h k. ground arith;
  sub_mono = λ x y z m h k. ground arith;
}

abbrev default_config : ResolutionConfig ℕ
default_config = record {
  min_total_weight = 100;
  confidence_threshold = 60;
  max_reputation_share = 40;
  tie_threshold = 5;
}

abbrev no_config : PartialConfig ℕ
no_config = record {
  min_total_weight = none;
  confidence_threshold = none;
  max_reputation_share = none;
  tie_threshold = none;
}

abbrev vote_by : String → Verdict → ℕ → VerificationVote ℕ
vote_by user verdict reputation = record {
  claim_id = "c";
  user_id = user;
  verdict = verdict;
  stake_amount = "0";
  user_reputation = reputation;
  timestamp = 0;
  event_id = "e";
}

abbrev three : List (VerificationVote ℕ)
three = vote_by "u" false_ 50 ∷ vote_by "v" true_ 40 ∷ vote_by "w" false_ 45 ∷ []

three_resolved :
    (resolve_claim percents default_config three no_config 7).resolved_verdict ≡ some false_
unfolding resolve_claim update_config
three_resolved = refl

-- One voter with two votes has more than the allowed share.
whale_unresolved :
    (resolve_claim percents default_config
      (vote_by "u" true_ 50 ∷ vote_by "v" false_ 60 ∷ vote_by "u" true_ 50 ∷ [])
      no_config
      7).resolved_verdict
    ≡ none
unfolding resolve_claim update_config
whale_unresolved = refl

resolve_claim-Majority_example :
    Majority percents
      (update_config no_config default_config)
      (map (calculate_vote_weight percents) three)
      false_
resolve_claim-Majority_example =
    resolve_claim-Majority percents percents-Ordered default_config three no_config 7 false_
      three_resolved
