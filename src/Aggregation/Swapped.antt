-- ===== src/Aggregation/Swapped.antt =====
-- The two verdicts of the aggregation stand on an equal footing.
use truthbounty_api.Prelude.{
  ℕ, suc, String, ◌≡◌, refl, ap, ◌∙◌, inl, inr, false, not, List, [], ◌∷◌, length, map, Bool-cases,
}
use truthbounty_api.Aggregation.{
  VerificationVerdict, true_, false_, ClaimStatus, verified_true, verified_false, inconclusive,
  Verification, AggregationResult, Arithmetic, Weights, compute_weight, add_verification,
  add_weights, total_weight, winning_confidence, status_of, decide, no_weights, aggregate,
}

abbrev pub other : VerificationVerdict → VerificationVerdict
other true_ = false_
other false_ = true_

abbrev pub other_status : ClaimStatus → ClaimStatus
other_status verified_true = verified_false
other_status verified_false = verified_true
other_status inconclusive = inconclusive

-- What the arithmetic of JavaScript keeps, also for infinities and NaN.
pub record Symmetric {Num : Type 0} (a : Arithmetic Num) : Type 0 where
  pub add_swap : (x y : Num) → a.add x y ≡ a.add y x
  pub max_swap : (x y : Num) → a.max_ x y ≡ a.max_ y x
  pub same_swap : (x y : Num) → a.same x y ≡ a.same y x

module _ {Num : Type 0} where
  abbrev pub swapped : Verification Num → Verification Num
  swapped v = record v { verdict = other v.verdict }

  abbrev pub swapped_weights : Weights Num → Weights Num
  swapped_weights w = record { true_weight = w.false_weight; false_weight = w.true_weight }

  abbrev pub swapped_result : AggregationResult Num → AggregationResult Num
  swapped_result r = record r {
    status = other_status r.status;
    true_weight = r.false_weight;
    false_weight = r.true_weight;
  }

  length-map-swapped : (vs : List (Verification Num)) → length (map swapped vs) ≡ length vs
  length-map-swapped [] = refl
  length-map-swapped (v ∷ vs) = ap (λ n. suc n) (length-map-swapped vs)

module _ {Num : Type 0} (a : Arithmetic Num) where
  -- The weights can be told apart: for numbers that are not NaN, `<` decides what `===` refuses.
  abbrev pub AreComparable : Weights Num → Type 0
  AreComparable w =
      a.same w.true_weight w.false_weight ≡ false
      → a.lt w.true_weight w.false_weight ≡ not (a.lt w.false_weight w.true_weight)

  add_verification-swapped :
      (v : VerificationVerdict) (x : Num) (w : Weights Num)
      → add_verification a (other v) x (swapped_weights w)
        ≡ swapped_weights (add_verification a v x w)
  add_verification-swapped true_ x w = refl
  add_verification-swapped false_ x w = refl

  add_weights-swapped :
      (vs : List (Verification Num)) (w : Weights Num)
      → add_weights a (map swapped vs) (swapped_weights w) ≡ swapped_weights (add_weights a vs w)
  add_weights-swapped [] w = refl
  add_weights-swapped (v ∷ vs) w =
      ap (add_weights a (map swapped vs))
        (add_verification-swapped v.verdict (compute_weight a v) w)
      ∙ add_weights-swapped vs (add_verification a v.verdict (compute_weight a v) w)

  status_of-swapped :
      (w : Weights Num)
      → a.lt w.true_weight w.false_weight ≡ not (a.lt w.false_weight w.true_weight)
      → status_of a (swapped_weights w) ≡ other_status (status_of a w)
  status_of-swapped w h = elim (Bool-cases (a.lt w.false_weight w.true_weight)) [
    | inl more ↦ rw (h, more) refl
    | inr less ↦ rw (h, less) refl
  ]

  decide-swapped :
      (laws : Symmetric a) (claim_id : String) (w : Weights Num) (count : ℕ)
      → AreComparable w
      → decide a claim_id (swapped_weights w) count ≡ swapped_result (decide a claim_id w count)
  decide-swapped laws claim_id w count comparable =
      let total = laws.add_swap w.false_weight w.true_weight in
      let tie = laws.same_swap w.false_weight w.true_weight in
      let most = laws.max_swap w.false_weight w.true_weight in
      elim (Bool-cases (a.same (total_weight a w) a.zero_)) [
        | inl empty ↦ rw (total, empty) refl
        | inr weighed ↦ elim (Bool-cases (a.same w.true_weight w.false_weight)) [
          | inl tied ↦ rw (total, weighed, tie, tied) refl
          | inr untied ↦ elim (Bool-cases (a.lt (winning_confidence a w) a.ten)) [
            | inl low ↦ rw (total, weighed, tie, untied, most, low) refl
            | inr high ↦
                rw
                  (total, weighed, tie, untied, most, high, status_of-swapped w (comparable untied))
                  refl
          ]
        ]
      ]

  -- When every verifier gives the other verdict, the aggregation of the claim has the other status,
  -- the same confidence and the two weights exchanged. The sum, the maximum and `===` of the
  -- arithmetic are symmetric, and `<` orders the weights of the two sides where `===` tells them
  -- apart (no weight is NaN).
  pub aggregate-swapped :
      (laws : Symmetric a) (claim_id : String) (vs : List (Verification Num))
      → AreComparable (add_weights a vs (no_weights a))
      → aggregate a claim_id (map swapped vs) ≡ swapped_result (aggregate a claim_id vs)
  unfolding aggregate
  aggregate-swapped laws claim_id [] comparable = refl
  aggregate-swapped laws claim_id (v ∷ vs) comparable =
      ap (λ w. decide a claim_id w (length (map swapped (v ∷ vs))))
        (add_weights-swapped (v ∷ vs) (no_weights a))
      ∙ ap (decide a claim_id (swapped_weights (add_weights a (v ∷ vs) (no_weights a))))
          (length-map-swapped (v ∷ vs))
      ∙ decide-swapped laws claim_id (add_weights a (v ∷ vs) (no_weights a)) (length (v ∷ vs))
          comparable
