-- ===== src/Governance/Voting.antt =====
-- The operations of the governance service as steps: what every one of them keeps.
use truthbounty_api.Prelude.{
  ℕ, String, ◌≡◌, refl, sym, ap, ◌∙◌, subst, inl, inr, Option, none, some, Bool, true, false, List,
  ok, string_eq, Bool-cases, Option-cases, >>=-eq-ok, ok-injective,
}
use truthbounty_api.Prelude.Maps.{JsMap, get, put}
use truthbounty_api.Prelude.Caches.{add-Coheres, put-some, put-none}
use truthbounty_api.Governance.{
  Governance, Proposal, Vote, NewProposal, ProposalStatus, required, new_proposal, has_vote,
  find_one, create, save_if, change, activate, execute, cancel, add_vote, cast_vote,
  get_votes_for_proposal, is_active, is_pending, is_passed, is_cancellable,
}
use truthbounty_api.Governance.Tally.{
  Counted, IsTallied, find_one_lem, find_one-IsTallied, save_proposal-IsTallied, vote-IsTallied,
}

-- A change that leaves the id and the counters.
abbrev pub IsMild : (Proposal → Proposal) → Type 0
IsMild f =
    (p : Proposal)
    → ((f p).id ≡ p.id)
      × ((f p).votes_for ≡ p.votes_for)
      × ((f p).votes_against ≡ p.votes_against)
      × ((f p).total_votes ≡ p.total_votes)

module _ {Num : Type 0} where
  mild-Counted :
      (f : Proposal → Proposal) (id : String) (p : Proposal) (votes : List (Vote Num))
      → IsMild f
      → Counted votes id p
      → Counted votes id (f p)
  mild-Counted f id p votes mild h =
      let m = mild p in
      let total = h.total in
      record {
        own = m.0 ∙ h.own;
        for_ = m.1 ∙ h.for_;
        against = m.2 ∙ h.against;
        total = rw (m.1, m.2, m.3) total;
      }

  save_if-IsTallied :
      (id : String) (allowed : ProposalStatus → Bool) (f : Proposal → Proposal) (g : Governance Num)
      (o : Option Proposal)
      → IsMild f
      → get id g.proposals ≡ o
      → IsTallied g
      → IsTallied (save_if id allowed f g o).0
  save_if-IsTallied id allowed f g none mild row h = h
  save_if-IsTallied id allowed f g (some p) mild row h = elim (Bool-cases (allowed p.status)) [
    | inl may ↦ rw may (
        save_proposal-IsTallied id p (f p) g row
          (mild-Counted f id p g.votes mild (h.counted id p row)) h)
    | inr may_not ↦ rw may_not h
  ]

  change-IsTallied :
      (id : String) (allowed : ProposalStatus → Bool) (f : Proposal → Proposal) (g : Governance Num)
      → IsMild f
      → IsTallied g
      → IsTallied (change id allowed f g).0
  change-IsTallied id allowed f g mild h =
      let found = find_one_lem id g h in
      save_if-IsTallied id allowed f (find_one id g).0 (find_one id g).1 mild
        (ap (get id) found.1 ∙ sym found.0) (find_one-IsTallied id g h)

  add_vote-IsTallied :
      (id : String) (v : Vote Num) (g : Governance Num) (o : Option Proposal)
      → v.proposal_id ≡ id
      → get id g.proposals ≡ o
      → IsTallied g
      → IsTallied (add_vote id v g o).0
  add_vote-IsTallied id v g none own row h = h
  add_vote-IsTallied id v g (some p) own row h = elim (Bool-cases (is_active p.status)) [
    | inr closed ↦ rw closed h
    | inl live ↦ elim (Bool-cases (has_vote id v.voter g.votes)) [
      | inl voted ↦ rw (live, voted) h
      | inr new ↦ rw (live, new) (vote-IsTallied id p v g own row new h)
    ]
  ]

  -- One operation of the governance service; a new proposal has a new id.
  pub data Step (lower trim : String → String) (g : Governance Num) : Governance Num → Type 0 where
    finds : (id : String) → Step lower trim g (find_one id g).0
    creates :
        (id : String) (now : ℕ) (data_ : NewProposal) (r : Governance Num × Proposal)
        → get id g.proposals ≡ none
        → create lower trim id now data_ g ≡ ok r
        → Step lower trim g r.0
    activates : (id : String) (now : ℕ) → Step lower trim g (activate id now g).0
    executes : (id : String) (now : ℕ) → Step lower trim g (execute id now g).0
    cancels : (id : String) → Step lower trim g (cancel id g).0
    votes :
        (vote_id : String) (now : ℕ) (id voter : String) (support : Bool) (weight : Num)
        (metadata : Option String)
        → Step lower trim g (cast_vote lower vote_id now id voter support weight metadata g).0
    reads_votes : (id : String) → Step lower trim g (get_votes_for_proposal id g).0

  pub create_parts :
      (lower trim : String → String) (id : String) (now : ℕ) (data_ : NewProposal)
      (g : Governance Num) (r : Governance Num × Proposal)
      → create lower trim id now data_ g ≡ ok r
      → (title description proposer : String) × (r.0 ≡ record g {
        proposals =
            put id (new_proposal lower trim id now data_ title description proposer) g.proposals;
      })
  unfolding create
  create_parts lower trim id now data_ g r made =
      let first = >>=-eq-ok (required trim data_.title) _ made in
      let second = >>=-eq-ok (required trim data_.description) _ first.2 in
      let third = >>=-eq-ok (required trim data_.proposer) _ second.2 in
      (first.0, second.0, third.0, sym (ap (λ q. q.0) (ok-injective third.2)))

  created-IsTallied :
      (lower trim : String → String) (id : String) (now : ℕ) (data_ : NewProposal)
      (title description proposer : String) (g : Governance Num)
      → get id g.proposals ≡ none
      → IsTallied g
      → IsTallied (record g {
        proposals =
            put id (new_proposal lower trim id now data_ title description proposer) g.proposals;
      })
  created-IsTallied lower trim id now data_ title description proposer g fresh h =
      let q = new_proposal lower trim id now data_ title description proposer in
      let zero_counts : Counted g.votes id q = record {
        own = refl;
        for_ = sym (h.no_strays id true fresh);
        against = sym (h.no_strays id false fresh);
        total = refl;
      } in
      record {
        coheres = add-Coheres id q g.proposals g.proposal_cache fresh h.coheres;
        counted = λ j x found. elim (put-some id j q x g.proposals found) [
          | inl hit ↦
              subst (λ k. Counted g.votes k x) hit.0
                (subst (λ r. Counted g.votes id r) hit.1 zero_counts)
          | inr other ↦ h.counted j x other
        ];
        no_strays = λ j b gone. h.no_strays j b (put-none id j q g.proposals gone).1;
        unique = h.unique;
      }

  votes_cache-IsTallied :
      (m : JsMap String (List (Vote Num))) (g : Governance Num)
      → IsTallied g
      → IsTallied (record g { votes_cache = m })
  votes_cache-IsTallied m g h = record {
    coheres = h.coheres;
    counted = h.counted;
    no_strays = h.no_strays;
    unique = h.unique;
  }

  reads_votes-IsTallied :
      (id : String) (g : Governance Num) → IsTallied g → IsTallied (get_votes_for_proposal id g).0
  unfolding get_votes_for_proposal
  reads_votes-IsTallied id g h = elim (Option-cases (get id g.votes_cache)) [
    | inr hit ↦ rw (hit.1) h
    | inl miss ↦ rw miss (votes_cache-IsTallied _ g h)
  ]

  -- Every operation of the governance service, those that throw included, keeps the counters of
  -- every proposal equal to its rows in the votes table, with one vote for each voter.
  pub Step-IsTallied :
      (lower trim : String → String) (g t : Governance Num)
      → Step lower trim g t
      → IsTallied g
      → IsTallied t
  unfolding activate execute cancel cast_vote
  Step-IsTallied lower trim g t (finds id) h = find_one-IsTallied id g h
  Step-IsTallied lower trim g t (creates id now data_ r fresh made) h =
      let parts = create_parts lower trim id now data_ g r made in
      subst IsTallied (sym parts.3)
        (created-IsTallied lower trim id now data_ parts.0 parts.1 parts.2 g fresh h)
  Step-IsTallied lower trim g t (activates id now) h =
      change-IsTallied id is_pending _ g (λ p. (refl, refl, refl, refl)) h
  Step-IsTallied lower trim g t (executes id now) h =
      change-IsTallied id is_passed _ g (λ p. (refl, refl, refl, refl)) h
  Step-IsTallied lower trim g t (cancels id) h =
      change-IsTallied id is_cancellable _ g (λ p. (refl, refl, refl, refl)) h
  Step-IsTallied lower trim g t (votes vote_id now id voter support weight metadata) h =
      let found = find_one_lem id g h in
      add_vote-IsTallied id _ (find_one id g).0 (find_one id g).1 refl
        (ap (get id) found.1 ∙ sym found.0) (find_one-IsTallied id g h)
  Step-IsTallied lower trim g t (reads_votes id) h = reads_votes-IsTallied id g h
