-- ===== src/Governance/Tests.antt =====
-- The theorems on governance at a concrete proposal, with texts taken as they are.
use truthbounty_api.Prelude.{
  ℕ, String, ◌≡◌, refl, none, some, [], ◌∷◌, true, false, string_eq, ok, err, Exception,
}
use truthbounty_api.Prelude.Maps.{get}
use truthbounty_api.Governance.{
  Governance, Proposal, Vote, NewProposal, new_proposal, create, activate, execute, cast_vote,
  find_one, invalidate_proposal,
}
use truthbounty_api.Governance.Tally.{IsTallied}
use truthbounty_api.Governance.Voting.{creates, activates, votes, Step-IsTallied}
use truthbounty_api.Governance.Outcome.{cast_vote_twice}
use truthbounty_api.Governance.Statuses.{
  Reach, start, then_, empty_governance, Reach-IsTallied, Reach-execute,
}

abbrev same : String → String
same t = t

abbrev a_proposal : NewProposal
a_proposal = record {
  title = some "t";
  description = some "d";
  proposer = some "w";
  category = none;
  blockchain_tx_hash = none;
  metadata = none;
}

abbrev created : Governance ℕ × Proposal
created = (
  record {
    proposals = ("p", new_proposal same same "p" 1 a_proposal "t" "d" "w") ∷ [];
    votes = [];
    proposal_cache = [];
    votes_cache = [];
  },
  new_proposal same same "p" 1 a_proposal "t" "d" "w",
)

creates_proposal : create same same "p" 1 a_proposal empty_governance ≡ ok created
unfolding create empty_governance
creates_proposal = refl

nothing_stored : get "p" (empty_governance {Num = ℕ}).proposals ≡ none
unfolding empty_governance
nothing_stored = refl

created_reached : Reach same same created.0
created_reached = then_ start (creates "p" 1 a_proposal created nothing_stored creates_proposal)

abbrev activated : Governance ℕ
activated = (activate "p" 2 created.0).0

activated_reached : Reach same same activated
activated_reached = then_ created_reached (activates "p" 2)

abbrev a_vote : Vote ℕ
a_vote = record {
  id = "v";
  proposal_id = "p";
  voter = "w";
  support = true;
  weight = 1;
  metadata = "{}";
  created_at = 3;
}

first_vote : (cast_vote same "v" 3 "p" "w" true 1 none activated).1 ≡ ok a_vote
unfolding cast_vote activate find_one invalidate_proposal
first_vote = refl

Step-IsTallied_example : IsTallied (cast_vote same "v" 3 "p" "w" true 1 none activated).0
Step-IsTallied_example =
    Step-IsTallied same same activated (cast_vote same "v" 3 "p" "w" true 1 none activated).0
      (votes "v" 3 "p" "w" true 1 none) (Reach-IsTallied same same activated activated_reached)

cast_vote_twice_example :
    (cast_vote same "u" 4 "p" "w" false 1 none
      (cast_vote same "v" 3 "p" "w" true 1 none activated).0).1
    ≡ err Exception.conflict
cast_vote_twice_example =
    cast_vote_twice same same "v" "u" 3 4 "p" "w" "w" true false 1 1 none none activated a_vote
      (Reach-IsTallied same same activated activated_reached) first_vote refl

Reach-execute_example : (execute "p" 5 created.0).1 ≡ err Exception.bad_request
Reach-execute_example = Reach-execute same same created.0 "p" created.1 5 created_reached refl
