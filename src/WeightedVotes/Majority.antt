-- ===== src/WeightedVotes/Majority.antt =====
-- What a verdict of the weighted votes has behind it.
-- Five tests of test/weighted-vote-resolution.spec.ts expect a verdict of votes that the code leaves
-- unresolved.
use truthbounty_api.Prelude.{
  ℕ, String, ◌≡◌, ◌≢◌, refl, sym, ap, ◌∙◌, inl, inr, none, some, Bool, true, false, List, [], ◌∷◌,
  map, if◌then◌else◌, Bool-cases,
}
use mathlib.Core.Option.{some-injective}
use truthbounty_api.WeightedVotes.Types.{
  Verdict, true_, false_, unsure, VerificationVote, WeightedVote, VerdictWeights, ResolutionConfig,
  PartialConfig,
}
use truthbounty_api.WeightedVotes.{
  Arithmetic, update_config, weight_for, calculate_vote_weight, add_weight, add_votes, sum_weights,
  no_weights, aggregate_votes, sorted_verdicts, get_max_individual_share, near_tie, confidence_of,
  final_verdict, resolution_of, determine_resolution, resolve_claim,
}
use truthbounty_api.WeightedVotes.Ranking.{Ordered, Ranked, sorted_verdicts-Ranked}

abbrev pub same_verdict : Verdict → Verdict → Bool
same_verdict true_ true_ = true
same_verdict true_ false_ = false
same_verdict true_ unsure = false
same_verdict false_ true_ = false
same_verdict false_ false_ = true
same_verdict false_ unsure = false
same_verdict unsure true_ = false
same_verdict unsure false_ = false
same_verdict unsure unsure = true

final_verdict-some :
    (tie low : Bool) (u v : Verdict)
    → final_verdict tie low u ≡ some v
    → (tie ≡ false) × ((low ≡ false) × (u ≡ v))
final_verdict-some true low u v h = cc
final_verdict-some false true u v h = cc
final_verdict-some false false u v h = (refl, (refl, some-injective _ _ h))

module _ {Num : Type 0} where
  -- The votes for a verdict.
  abbrev pub only : Verdict → List (WeightedVote Num) → List (WeightedVote Num)
  only u [] = []
  only u (v ∷ vs) =
      let rest = only u vs in if same_verdict u (v.vote).verdict then v ∷ rest else rest

module _ {Num : Type 0} (a : Arithmetic Num) where
  abbrev pub weight_of : List (WeightedVote Num) → Verdict → Num
  weight_of vs u = sum_weights a (only u vs) a.zero_

  abbrev pub total_of : List (WeightedVote Num) → Num
  total_of vs = sum_weights a vs a.zero_

  -- The weight is enough, no voter has too large a share, no verdict has more weight, every other
  -- verdict is further off than a tie, and the confidence is at least the threshold.
  pub record Majority (config : ResolutionConfig Num) (vs : List (WeightedVote Num)) (v : Verdict)
      : Type 0 where
    pub enough : a.lt (total_of vs) config.min_total_weight ≡ false
    pub no_dominance : a.lt config.max_reputation_share (get_max_individual_share a vs) ≡ false
    pub leads : (u : Verdict) → a.lt (weight_of vs v) (weight_of vs u) ≡ false
    pub clear :
        (u : Verdict)
        → u ≢ v
        → near_tie a config (total_of vs) (weight_of vs v) (weight_of vs u) ≡ false
    pub confident :
        a.lt (confidence_of a (total_of vs) (weight_of vs v)) config.confidence_threshold ≡ false

  add_weight_for :
      (u d : Verdict) (x : Num) (w : VerdictWeights Num)
      → weight_for u (add_weight a d x w)
        ≡ (if same_verdict u d then a.add (weight_for u w) x else weight_for u w)
  add_weight_for true_ true_ x w = refl
  add_weight_for true_ false_ x w = refl
  add_weight_for true_ unsure x w = refl
  add_weight_for false_ true_ x w = refl
  add_weight_for false_ false_ x w = refl
  add_weight_for false_ unsure x w = refl
  add_weight_for unsure true_ x w = refl
  add_weight_for unsure false_ x w = refl
  add_weight_for unsure unsure x w = refl

  -- The tally of a verdict is the sum over its votes.
  add_votes_for :
      (u : Verdict) (vs : List (WeightedVote Num)) (w : VerdictWeights Num)
      → weight_for u (add_votes a vs w) ≡ sum_weights a (only u vs) (weight_for u w)
  add_votes_for u [] w = refl
  add_votes_for u (v ∷ vs) w =
      let tallied = add_weight_for u (v.vote).verdict v.weight w in
      let rest = add_votes_for u vs (add_weight a (v.vote).verdict v.weight w) in
      elim (Bool-cases (same_verdict u (v.vote).verdict)) [
        | inl counted ↦
            let tallied' = rw counted at tallied in
            rest ∙ ap (sum_weights a (only u vs)) tallied' ∙ rw counted refl
        | inr skipped ↦
            let tallied' = rw skipped at tallied in
            rest ∙ ap (sum_weights a (only u vs)) tallied' ∙ rw skipped refl
      ]

  zero_for : (u : Verdict) → weight_for u (no_weights a) ≡ a.zero_
  zero_for true_ = refl
  zero_for false_ = refl
  zero_for unsure = refl

  weight_of_lem :
      (vs : List (WeightedVote Num)) (u : Verdict)
      → weight_for u (add_votes a vs (no_weights a)) ≡ weight_of vs u
  weight_of_lem vs u =
      add_votes_for u vs (no_weights a) ∙ ap (sum_weights a (only u vs)) (zero_for u)

  -- The verdict by the sorted entries, where the guards were passed.
  resolution_of-Majority :
      (laws : Ordered a) (config : ResolutionConfig Num) (claim_id : String)
      (vs : List (WeightedVote Num)) (now : ℕ) (v : Verdict)
      → a.lt (total_of vs) config.min_total_weight ≡ false
      → a.lt config.max_reputation_share (get_max_individual_share a vs) ≡ false
      → (s : Ranked a (add_votes a vs (no_weights a)))
      → (resolution_of a config
          (aggregate_votes a claim_id vs)
          now
          (sorted_verdicts a (add_votes a vs (no_weights a)))).resolved_verdict
        ≡ some v
      → Majority config vs v
  resolution_of-Majority laws config claim_id vs now v enough bounded s h =
      let w = add_votes a vs (no_weights a) in
      let first = weight_for s.first w in
      let total = total_of vs in
      let low = a.lt (confidence_of a total first) config.confidence_threshold in
      let shown =
        ap (λ es. (resolution_of a config (aggregate_votes a claim_id vs) now es).resolved_verdict)
          (sym s.shape)
        ∙ h in
      let parts =
        final_verdict-some (near_tie a config total first (s.second).1) low s.first v shown in
      let is_first : first ≡ weight_of vs v =
        weight_of_lem vs s.first ∙ ap (weight_of vs) (parts.1).1 in
      record {
        enough = enough;
        no_dominance = bounded;
        leads = λ u. rw (sym is_first, sym (weight_of_lem vs u)) (s.above u);
        clear = λ u ne.
            let second = s.next u (λ e. ne (e ∙ (parts.1).1)) in
            rw (sym is_first, sym (weight_of_lem vs u))
              (laws.sub_mono first (s.second).1 (weight_for u w) _ second parts.0);
        confident = rw (sym is_first) ((parts.1).0);
      }

  determine_resolution-Majority :
      (laws : Ordered a) (config : ResolutionConfig Num) (claim_id : String)
      (vs : List (WeightedVote Num)) (now : ℕ) (v : Verdict)
      → (determine_resolution a config (aggregate_votes a claim_id vs) now).resolved_verdict
        ≡ some v
      → Majority config vs v
  determine_resolution-Majority laws config claim_id vs now v h =
      elim (Bool-cases (a.lt (total_of vs) config.min_total_weight)) [
        | inl few ↦ let none_ : none ≡ some v = rw few at h in cc
        | inr enough ↦
            elim (Bool-cases (a.lt config.max_reputation_share (get_max_individual_share a vs))) [
              | inl whale ↦ let none_ : none ≡ some v = rw (enough, whale) at h in cc
              | inr bounded ↦
                  resolution_of-Majority laws config claim_id vs now v enough bounded
                    (sorted_verdicts-Ranked a laws (add_votes a vs (no_weights a)))
                    (rw (enough, bounded) at h)
            ]
      ]

  -- A claim that the weighted votes resolve has a majority behind its verdict, over the weights of
  -- the votes and the configuration of the call: the sum of the weights is at least the minimum,
  -- the largest share of a voter at most the limit, no verdict has more weight, every other verdict
  -- is further off than the margin of a tie, and the confidence reaches the threshold. `<` orders
  -- the weights, and the difference falls with its second argument (no weight is NaN).
  pub resolve_claim-Majority :
      (laws : Ordered a) (default_config : ResolutionConfig Num)
      (votes : List (VerificationVote Num)) (p : PartialConfig Num) (now : ℕ) (v : Verdict)
      → (resolve_claim a default_config votes p now).resolved_verdict ≡ some v
      → Majority (update_config p default_config) (map (calculate_vote_weight a) votes) v
  unfolding resolve_claim
  resolve_claim-Majority laws default_config [] p now v h = cc
  resolve_claim-Majority laws default_config (x ∷ xs) p now v h =
      determine_resolution-Majority laws (update_config p default_config) x.claim_id
        (map (calculate_vote_weight a) (x ∷ xs)) now v h
