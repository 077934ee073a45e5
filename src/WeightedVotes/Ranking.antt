-- ===== src/WeightedVotes/Ranking.antt =====
-- The sort of the three verdicts by their weights.
use truthbounty_api.Prelude.{◌≡◌, ◌≢◌, refl, inl, inr, true, false, List, [], ◌∷◌, Bool-cases}
use truthbounty_api.WeightedVotes.Types.{Verdict, true_, false_, unsure, VerdictWeights}
use truthbounty_api.WeightedVotes.{Arithmetic, weight_for, sorted_verdicts}

-- What `<` and the difference keep for numbers that are no NaN.
pub record Ordered {Num : Type 0} (a : Arithmetic Num) : Type 0 where
  pub asym : (x y : Num) → a.lt x y ≡ true → a.lt y x ≡ false
  pub trans : (x y z : Num) → a.lt x y ≡ false → a.lt y z ≡ false → a.lt x z ≡ false
  pub sub_mono :
      (x y z m : Num) → a.lt y z ≡ false → a.lt (a.sub x y) m ≡ false → a.lt (a.sub x z) m ≡ false

each : (P : Verdict → Type 0) → P true_ → P false_ → P unsure → (u : Verdict) → P u
each P p q r true_ = p
each P p q r false_ = q
each P p q r unsure = r

-- The same for the verdicts other than one.
each_but :
    (P : Verdict → Type 0) (v : Verdict)
    → (true_ ≢ v → P true_)
    → (false_ ≢ v → P false_)
    → (unsure ≢ v → P unsure)
    → (u : Verdict) → u ≢ v
    → P u
each_but P v p q r true_ = p
each_but P v p q r false_ = q
each_but P v p q r unsure = r

module _ {Num : Type 0} (a : Arithmetic Num) where
  -- The sorted entries: the first is the heaviest, and the second bounds all others.
  pub record Ranked (w : VerdictWeights Num) : Type 0 where
    pub first : Verdict
    pub second : Verdict × Num
    pub rest : List (Verdict × Num)
    pub shape : sorted_verdicts a w ≡ (first, weight_for first w) ∷ second ∷ rest
    pub above : (u : Verdict) → a.lt (weight_for first w) (weight_for u w) ≡ false
    pub next : (u : Verdict) → u ≢ first → a.lt second.1 (weight_for u w) ≡ false

  -- The entries in a given order.
  entries-Ranked :
      (w : VerdictWeights Num) (first : Verdict) (second : Verdict × Num)
      (rest : List (Verdict × Num))
      → sorted_verdicts a w ≡ (first, weight_for first w) ∷ second ∷ rest
      → ((u : Verdict) → a.lt (weight_for first w) (weight_for u w) ≡ false)
      → ((u : Verdict) → u ≢ first → a.lt second.1 (weight_for u w) ≡ false)
      → Ranked w
  entries-Ranked w first second rest shape above next = record {
    first = first;
    second = second;
    rest = rest;
    shape = shape;
    above = above;
    next = next;
  }

  module _ (laws : Ordered a) (w : VerdictWeights Num) where
    abbrev Below : Num → Verdict → Type 0
    Below x u = a.lt x (weight_for u w) ≡ false

    not_below : (x : Num) → a.lt x x ≡ false
    not_below x = elim (Bool-cases (a.lt x x)) [ inl h ↦ laws.asym x x h | inr h ↦ h ]

    -- The three orders in which the unsure votes outweigh the false ones.
    unsure-Ranked : a.lt w.false_weight w.unsure_weight ≡ true → Ranked w
    unsure-Ranked yz =
        let x = w.true_weight in
        let y = w.false_weight in
        let z = w.unsure_weight in
        let zy = laws.asym y z yz in
        elim (Bool-cases (a.lt x z)) [
          | inl xz ↦
              let above = each (Below z) (laws.asym x z xz) zy (not_below z) in
              elim (Bool-cases (a.lt x y)) [
                | inl xy ↦
                    entries-Ranked w unsure (false_, y) ((true_, x) ∷ []) (rw (yz, xz, xy) refl)
                      above
                      (each_but (Below y) unsure (λ _. laws.asym x y xy) (λ _. not_below y)
                        (λ ne. elim (ne refl) [ ]))
                | inr xy ↦
                    entries-Ranked w unsure (true_, x) ((false_, y) ∷ []) (rw (yz, xz, xy) refl)
                      above
                      (each_but (Below x) unsure (λ _. not_below x) (λ _. xy)
                        (λ ne. elim (ne refl) [ ]))
              ]
          | inr xz ↦
              entries-Ranked w true_ (unsure, z) ((false_, y) ∷ []) (rw (yz, xz) refl)
                (each (Below x) (not_below x) (laws.trans x z y xz zy) xz)
                (each_but (Below z) true_ (λ ne. elim (ne refl) [ ]) (λ _. zy) (λ _. not_below z))
        ]

    -- The three orders in which they do not.
    false-Ranked : a.lt w.false_weight w.unsure_weight ≡ false → Ranked w
    false-Ranked yz =
        let x = w.true_weight in
        let y = w.false_weight in
        let z = w.unsure_weight in
        elim (Bool-cases (a.lt x y)) [
          | inl xy ↦
              let above = each (Below y) (laws.asym x y xy) (not_below y) yz in
              elim (Bool-cases (a.lt x z)) [
                | inl xz ↦
                    entries-Ranked w false_ (unsure, z) ((true_, x) ∷ []) (rw (yz, xy, xz) refl)
                      above
                      (each_but (Below z) false_ (λ _. laws.asym x z xz) (λ ne. elim (ne refl) [ ])
                        (λ _. not_below z))
                | inr xz ↦
                    entries-Ranked w false_ (true_, x) ((unsure, z) ∷ []) (rw (yz, xy, xz) refl)
                      above
                      (each_but (Below x) false_ (λ _. not_below x) (λ ne. elim (ne refl) [ ])
                        (λ _. xz))
              ]
          | inr xy ↦
              entries-Ranked w true_ (false_, y) ((unsure, z) ∷ []) (rw (yz, xy) refl)
                (each (Below x) (not_below x) xy (laws.trans x y z xy yz))
                (each_but (Below y) true_ (λ ne. elim (ne refl) [ ]) (λ _. not_below y) (λ _. yz))
        ]

    pub sorted_verdicts-Ranked : Ranked w
    sorted_verdicts-Ranked = elim (Bool-cases (a.lt w.false_weight w.unsure_weight)) [
      | inl yz ↦ unsure-Ranked yz
      | inr yz ↦ false-Ranked yz
    ]
