-- ===== src/Governance/Outcome.antt =====
-- One vote for each wallet, and the statuses that the governance service reaches.
use truthbounty_api.Prelude.{
  ℕ, String, ◌≡◌, refl, sym, ap, ◌∙◌, subst, inl, inr, Option, none, some, Bool, true, false, List,
  ◌∷◌, ok, err, Exception, string_eq, Bool-cases, beq_refl,
}
use truthbounty_api.Prelude.Maps.{get, put, get-put_self}
use truthbounty_api.Governance.{
  Governance, Proposal, Vote, count_vote, has_vote, find_one, invalidate_proposal, save_proposal,
  add_vote, cast_vote, is_active, or_default,
}
use truthbounty_api.Governance.Tally.{IsTallied, find_one_lem}
use truthbounty_api.Governance.Voting.{votes, Step-IsTallied}

pub count_vote_status : (b : Bool) (p : Proposal) → (count_vote b p).status ≡ p.status
count_vote_status true p = refl
count_vote_status false p = refl

count_vote_id : (b : Bool) (p : Proposal) → (count_vote b p).id ≡ p.id
count_vote_id true p = refl
count_vote_id false p = refl

module _ {Num : Type 0} where
  -- A vote that was saved, on the proposal that was found.
  record Voted (id : String) (v : Vote Num) (g t : Governance Num) (o : Option Proposal)
      : Type 0 where
    pub proposal : Proposal
    pub found : o ≡ some proposal
    pub live : is_active proposal.status ≡ true
    pub new : has_vote id v.voter g.votes ≡ false
    pub after :
        t ≡ save_proposal id (count_vote v.support proposal) (record g { votes = v ∷ g.votes })

  add_vote-Voted :
      (id : String) (v w : Vote Num) (g : Governance Num) (o : Option Proposal)
      → (add_vote id v g o).1 ≡ ok w
      → Voted id v g (add_vote id v g o).0 o
  add_vote-Voted id v w g none h = cc
  add_vote-Voted id v w g (some p) h = elim (Bool-cases (is_active p.status)) [
    | inr closed ↦ let never : err Exception.bad_request ≡ ok w = rw closed at h in cc
    | inl live ↦ elim (Bool-cases (has_vote id v.voter g.votes)) [
      | inl voted ↦ let never : err Exception.conflict ≡ ok w = rw (live, voted) at h in cc
      | inr new ↦ record {
        proposal = p;
        found = refl;
        live = live;
        new = new;
        after = rw (live, new) refl;
      }
    ]
  ]

  add_vote_again :
      (id : String) (v : Vote Num) (g : Governance Num) (o : Option Proposal) (p : Proposal)
      → o ≡ some p
      → is_active p.status ≡ true
      → has_vote id v.voter g.votes ≡ true
      → (add_vote id v g o).1 ≡ err Exception.conflict
  add_vote_again id v g o p found live voted = rw (found, live, voted) refl

  saved_row :
      (id : String) (b : Bool) (p : Proposal) (g : Governance Num)
      → p.id ≡ id
      → get id (save_proposal id (count_vote b p) g).proposals ≡ some (count_vote b p)
  unfolding invalidate_proposal
  saved_row id b p g own =
      subst (λ k. get id (put k (count_vote b p) g.proposals) ≡ some (count_vote b p))
        (sym (count_vote_id b p ∙ own)) (get-put_self id (count_vote b p) g.proposals)

  listed_self :
      (id voter : String) (v : Vote Num) (vs : List (Vote Num))
      → v.proposal_id ≡ id
      → v.voter ≡ voter
      → has_vote id voter (v ∷ vs) ≡ true
  listed_self id voter v vs own by_ = rw (own, by_, beq_refl id, beq_refl voter) refl

  -- After a vote was cast, a vote on the same proposal by a wallet with the same lower-case text
  -- throws Conflict.
  pub cast_vote_twice :
      (lower trim : String → String) (vote_id vote_id' : String) (now now' : ℕ)
      (id voter voter' : String) (support support' : Bool) (weight weight' : Num)
      (metadata metadata' : Option String) (g : Governance Num) (w : Vote Num)
      → IsTallied g
      → (cast_vote lower vote_id now id voter support weight metadata g).1 ≡ ok w
      → lower voter' ≡ lower voter
      → (cast_vote lower vote_id' now' id voter' support' weight' metadata'
          (cast_vote lower vote_id now id voter support weight metadata g).0).1
        ≡ err Exception.conflict
  unfolding cast_vote invalidate_proposal
  cast_vote_twice lower trim vote_id vote_id' now now' id voter voter' support support' weight
        weight' metadata metadata' g w h first same_wallet =
      let t = (cast_vote lower vote_id now id voter support weight metadata g).0 in
      let after : IsTallied t =
        Step-IsTallied lower trim g t (votes vote_id now id voter support weight metadata) h in
      let v : Vote Num = record {
        id = vote_id;
        proposal_id = id;
        voter = lower voter;
        support = support;
        weight = weight;
        metadata = or_default "{}" metadata;
        created_at = now;
      } in
      let voted = add_vote-Voted id v w (find_one id g).0 (find_one id g).1 first in
      let loaded = find_one_lem id g h in
      let found = find_one_lem id t after in
      let p : Proposal = voted.proposal in
      let q : Proposal = count_vote support p in
      let row : get id t.proposals ≡ some q =
        ap (λ x. get id x.proposals) voted.after
        ∙ saved_row id support p
            (record (find_one id g).0 { votes = v ∷ ((find_one id g).0).votes })
            (h.counted id p (sym loaded.0 ∙ voted.found)).own in
      let listed : has_vote id (lower voter') t.votes ≡ true =
        ap (λ x. has_vote id (lower voter') x.votes) voted.after
        ∙ listed_self id (lower voter') v _ refl (sym same_wallet) in
      add_vote_again id _ (find_one id t).0 (find_one id t).1 q (found.0 ∙ row)
        (ap is_active (count_vote_status support p) ∙ voted.live)
        (ap (has_vote id (lower voter')) found.2 ∙ listed)
