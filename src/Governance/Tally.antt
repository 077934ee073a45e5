-- ===== src/Governance/Tally.antt =====
-- The counters of a proposal against the rows of the votes table, through every operation.
use truthbounty_api.Prelude.{
  ℕ, ◌+◌, String, ◌≡◌, refl, sym, ap, ◌∙◌, subst, inl, inr, Option, none, some, Bool, true, false,
  not, ◌&&◌, List, [], ◌∷◌, string_eq, ◌===◌, if◌then◌else◌, arith, Bool-cases, Option-cases,
  eq_of_beq, beq_refl,
}
use truthbounty_api.Prelude.Maps.{get, put, delete, get-put_self}
use mathlib.Core.Option.{some-injective}
use truthbounty_api.Prelude.Caches.{Coheres, fill-Coheres, write-Coheres, put-some, put-none}
use truthbounty_api.Governance.{
  Governance, Proposal, Vote, count_vote, has_vote, cache_row, find_one, invalidate_proposal,
  save_proposal,
}

abbrev pub same_flag : Bool → Bool → Bool
same_flag true b = b
same_flag false b = not b

module _ {Num : Type 0} where
  -- The number of votes on a proposal with a given answer.
  abbrev pub count : String → Bool → List (Vote Num) → ℕ
  count id b [] = 0
  count id b (v ∷ vs) =
      if v.proposal_id === id && same_flag v.support b then count id b vs + 1 else count id b vs

  -- No voter stands twice on one proposal.
  abbrev pub IsUnique : List (Vote Num) → Type 0
  IsUnique [] = Unit
  IsUnique (v ∷ vs) = (has_vote v.proposal_id v.voter vs ≡ false) × IsUnique vs

  pub record Counted (votes : List (Vote Num)) (id : String) (p : Proposal) : Type 0 where
    pub own : p.id ≡ id
    pub for_ : p.votes_for ≡ count id true votes
    pub against : p.votes_against ≡ count id false votes
    pub total : p.total_votes ≡ p.votes_for + p.votes_against

  -- The counters of every proposal are those of the votes table, no voter votes twice on a
  -- proposal, no vote stands on a proposal that does not exist, and the cache has the rows.
  pub record IsTallied (g : Governance Num) : Type 0 where
    pub coheres : Coheres g.proposals g.proposal_cache
    pub counted : (id : String) (p : Proposal) → get id g.proposals ≡ some p → Counted g.votes id p
    pub no_strays : (id : String) (b : Bool) → get id g.proposals ≡ none → count id b g.votes ≡ 0
    pub unique : IsUnique g.votes

  cache_row-IsTallied :
      (id : String) (g : Governance Num) (o : Option Proposal)
      → get id g.proposals ≡ o
      → IsTallied g
      → IsTallied (cache_row id g o).0
  cache_row-IsTallied id g none row h = h
  cache_row-IsTallied id g (some p) row h = record {
    coheres = fill-Coheres id p g.proposals g.proposal_cache row h.coheres;
    counted = h.counted;
    no_strays = h.no_strays;
    unique = h.unique;
  }

  pub find_one-IsTallied :
      (id : String) (g : Governance Num) → IsTallied g → IsTallied (find_one id g).0
  unfolding find_one
  find_one-IsTallied id g h = elim (Option-cases (get id g.proposal_cache)) [
    | inr hit ↦ rw (hit.1) h
    | inl miss ↦ rw miss (cache_row-IsTallied id g (get id g.proposals) refl h)
  ]

  cache_row_lem :
      (id : String) (g : Governance Num) (o : Option Proposal)
      → ((cache_row id g o).1 ≡ o)
        × (((cache_row id g o).0).proposals ≡ g.proposals)
        × (((cache_row id g o).0).votes ≡ g.votes)
  cache_row_lem id g none = (refl, refl, refl)
  cache_row_lem id g (some p) = (refl, refl, refl)

  -- What is found is the row, whether it comes from the cache or not.
  pub find_one_lem :
      (id : String) (g : Governance Num)
      → IsTallied g
      → ((find_one id g).1 ≡ get id g.proposals)
        × (((find_one id g).0).proposals ≡ g.proposals)
        × (((find_one id g).0).votes ≡ g.votes)
  unfolding find_one
  find_one_lem id g h = elim (Option-cases (get id g.proposal_cache)) [
    | inr hit ↦ rw (hit.1) (sym ((h.coheres).agrees id hit.0 hit.1), refl, refl)
    | inl miss ↦ rw miss (cache_row_lem id g (get id g.proposals))
  ]

  -- A write that leaves the counters of the proposal.
  pub save_proposal-IsTallied :
      (id : String) (p q : Proposal) (g : Governance Num)
      → get id g.proposals ≡ some p
      → Counted g.votes id q
      → IsTallied g
      → IsTallied (save_proposal id q g)
  unfolding invalidate_proposal
  save_proposal-IsTallied id p q g row counts h = record {
    coheres =
        subst (λ k. Coheres (put k q g.proposals) (delete id g.proposal_cache)) (sym counts.own)
          (write-Coheres id q g.proposals g.proposal_cache h.coheres);
    counted = λ j x found. elim (put-some q.id j q x g.proposals found) [
      | inl hit ↦
          subst (λ k. Counted g.votes k x) (sym counts.own ∙ hit.0)
            (subst (λ r. Counted g.votes id r) hit.1 counts)
      | inr other ↦ h.counted j x other
    ];
    no_strays = λ j b gone. h.no_strays j b (put-none q.id j q g.proposals gone).1;
    unique = h.unique;
  }

  count_push :
      (id j : String) (b : Bool) (v : Vote Num) (vs : List (Vote Num))
      → v.proposal_id ≡ id
      → (id === j) ≡ false
      → count j b (v ∷ vs) ≡ count j b vs
  count_push id j b v vs own other = rw (own, other) refl

  count_push_self :
      (id : String) (b : Bool) (v : Vote Num) (vs : List (Vote Num))
      → v.proposal_id ≡ id
      → count id b (v ∷ vs) ≡ (if same_flag v.support b then count id b vs + 1 else count id b vs)
  count_push_self id b v vs own = rw (own, beq_refl id) refl

  vote_by-Counted :
      (b : Bool) (id : String) (p : Proposal) (v : Vote Num) (vs : List (Vote Num))
      → count id true (v ∷ vs)
        ≡ (if same_flag b true then count id true vs + 1 else count id true vs)
      → count id false (v ∷ vs)
        ≡ (if same_flag b false then count id false vs + 1 else count id false vs)
      → Counted vs id p
      → Counted (v ∷ vs) id (count_vote b p)
  vote_by-Counted true id p v vs up keep h =
      let for_ = h.for_ in
      let against = h.against in
      let total = h.total in
      record {
        own = h.own;
        for_ = ap (λ n. n + 1) for_ ∙ sym up;
        against = against ∙ sym keep;
        total = omega arith;
      }
  vote_by-Counted false id p v vs keep up h =
      let for_ = h.for_ in
      let against = h.against in
      let total = h.total in
      record {
        own = h.own;
        for_ = for_ ∙ sym keep;
        against = ap (λ n. n + 1) against ∙ sym up;
        total = omega arith;
      }

  count_vote-Counted :
      (id : String) (p : Proposal) (v : Vote Num) (vs : List (Vote Num))
      → v.proposal_id ≡ id
      → Counted vs id p
      → Counted (v ∷ vs) id (count_vote v.support p)
  count_vote-Counted id p v vs own h =
      vote_by-Counted v.support id p v vs (count_push_self id true v vs own)
        (count_push_self id false v vs own) h

  other-Counted :
      (id j : String) (x : Proposal) (v : Vote Num) (vs : List (Vote Num))
      → v.proposal_id ≡ id
      → (id === j) ≡ false
      → Counted vs j x
      → Counted (v ∷ vs) j x
  other-Counted id j x v vs own other h = record {
    own = h.own;
    for_ = h.for_ ∙ sym (count_push id j true v vs own other);
    against = h.against ∙ sym (count_push id j false v vs own other);
    total = h.total;
  }

  pub vote-IsTallied :
      (id : String) (p : Proposal) (v : Vote Num) (g : Governance Num)
      → v.proposal_id ≡ id
      → get id g.proposals ≡ some p
      → has_vote id v.voter g.votes ≡ false
      → IsTallied g
      → IsTallied (save_proposal id (count_vote v.support p) (record g { votes = v ∷ g.votes }))
  unfolding invalidate_proposal
  vote-IsTallied id p v g own row new h =
      let q : Proposal = count_vote v.support p in
      let counts : Counted (v ∷ g.votes) id q =
        count_vote-Counted id p v g.votes own (h.counted id p row) in
      record {
        coheres =
            subst (λ k. Coheres (put k q g.proposals) (delete id g.proposal_cache)) (sym counts.own)
              (write-Coheres id q g.proposals g.proposal_cache h.coheres);
        counted = λ j x found. elim (Bool-cases (id === j)) [
          | inl same_id ↦
              let at_j : id ≡ j = eq_of_beq id j same_id in
              let is_q : some q ≡ some x =
                sym (get-put_self id q g.proposals)
                ∙ subst (λ k. get id (put k q g.proposals) ≡ some x) counts.own
                    (subst (λ k. get k (put q.id q g.proposals) ≡ some x) (sym at_j) found) in
              subst (λ k. Counted (v ∷ g.votes) k x) at_j
                (subst (λ r. Counted (v ∷ g.votes) id r) (some-injective _ _ is_q) counts)
          | inr other ↦ elim (put-some q.id j q x g.proposals found) [
            | inl hit ↦
                let same_id : (id === j) ≡ true =
                  subst (λ k. (id === k) ≡ true) (sym counts.own ∙ hit.0) (beq_refl id) in
                cc
            | inr before ↦ other-Counted id j x v g.votes own other (h.counted j x before)
          ]
        ];
        no_strays = λ j b gone.
            let apart = put-none q.id j q g.proposals gone in
            count_push id j b v g.votes own (subst (λ k. (k === j) ≡ false) counts.own apart.0)
            ∙ h.no_strays j b apart.1;
        unique = (subst (λ k. has_vote k v.voter g.votes ≡ false) (sym own) new, h.unique);
      }
