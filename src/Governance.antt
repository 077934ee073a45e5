-- ===== src/Governance.antt =====
-- src/governance/governance.service.ts, with its entities and its cache. Texts go through the
-- language's `toLowerCase` and `trim`, given as `lower` and `trim`; weights are only moved, so their
-- type is a parameter. Participation and quorum, which the service never writes, have no field.
pub mod Tally
pub mod Voting
pub mod Outcome
pub mod Statuses
mod Tests
use truthbounty_api.Prelude.{
  ℕ, suc, ◌+◌, String, Option, none, some, Bool, true, false, not, ◌&&◌, ◌||◌, List, [], ◌∷◌,
  Result, ok, err, Exception, string_eq, ◌===◌, if◌then◌else◌, ◌>>=◌, Eq,
}
use truthbounty_api.Prelude.Maps.{JsMap, get, put, delete}

pub data ProposalStatus : Type 0 where
  active passed rejected executed cancelled pending : ProposalStatus

pub data ProposalCategory : Type 0 where
  protocol_upgrade treasury parameter_change governance community : ProposalCategory

pub record Proposal : Type 0 where
  pub id : String
  pub title : String
  pub description : String
  pub proposer : String
  pub status : ProposalStatus
  pub category : ProposalCategory
  pub blockchain_tx_hash : Option String
  pub total_votes : ℕ
  pub votes_for : ℕ
  pub votes_against : ℕ
  pub voting_starts_at : Option ℕ
  pub executed_at : Option ℕ
  pub metadata : String
  pub created_at : ℕ

pub record Vote (Num : Type 0) : Type 0 where
  pub id : String
  pub proposal_id : String
  pub voter : String
  pub support : Bool
  pub weight : Num
  pub metadata : String
  pub created_at : ℕ

-- The two tables, newest vote first, and the cached entries.
pub record Governance (Num : Type 0) : Type 0 where
  pub proposals : JsMap String Proposal
  pub votes : List (Vote Num)
  pub proposal_cache : JsMap String Proposal
  pub votes_cache : JsMap String (List (Vote Num))

pub record NewProposal : Type 0 where
  pub title : Option String
  pub description : Option String
  pub proposer : Option String
  pub category : Option ProposalCategory
  pub blockchain_tx_hash : Option String
  pub metadata : Option String

abbrev pub is_pending : ProposalStatus → Bool
is_pending pending = true
is_pending _ = false

abbrev pub is_active : ProposalStatus → Bool
is_active active = true
is_active _ = false

abbrev pub is_passed : ProposalStatus → Bool
is_passed passed = true
is_passed _ = false

-- Neither EXECUTED nor CANCELLED.
abbrev pub is_cancellable : ProposalStatus → Bool
is_cancellable executed = false
is_cancellable cancelled = false
is_cancellable _ = true

-- The guard `!x?.trim()` of `create`.
abbrev pub required : (String → String) → Option String → Result String
required trim none = err Exception.bad_request
required trim (some t) = if trim t === "" then err Exception.bad_request else ok t

abbrev pub or_default {ℓ} : {A : Type ℓ} → A → Option A → A
or_default a none = a
or_default a (some b) = b

-- The saved row of `create`, with the columns' defaults.
abbrev pub new_proposal :
    (String → String)
    → (String → String)
    → String
    → ℕ
    → NewProposal
    → String
    → String
    → String
    → Proposal
new_proposal lower trim id now data_ title description proposer = record {
  id = id;
  title = trim title;
  description = trim description;
  proposer = lower proposer;
  status = pending;
  category = or_default protocol_upgrade data_.category;
  blockchain_tx_hash = data_.blockchain_tx_hash;
  total_votes = 0;
  votes_for = 0;
  votes_against = 0;
  voting_starts_at = none;
  executed_at = none;
  metadata = or_default "{}" data_.metadata;
  created_at = now;
}

-- The two counters that one vote moves.
abbrev pub count_vote : Bool → Proposal → Proposal
count_vote true p = record p { total_votes = p.total_votes + 1; votes_for = p.votes_for + 1 }
count_vote false p = record p {
  total_votes = p.total_votes + 1;
  votes_against = p.votes_against + 1;
}

module _ {Num : Type 0} where
  abbrev pub has_vote : String → String → List (Vote Num) → Bool
  has_vote proposal voter [] = false
  has_vote proposal voter (v ∷ vs) =
      (v.proposal_id === proposal && v.voter === voter) || has_vote proposal voter vs

  abbrev pub votes_on : String → List (Vote Num) → List (Vote Num)
  votes_on proposal [] = []
  votes_on proposal (v ∷ vs) =
      if v.proposal_id === proposal then v ∷ votes_on proposal vs else votes_on proposal vs

  abbrev pub cache_row :
      String → Governance Num → Option Proposal → Governance Num × Option Proposal
  cache_row id g none = (g, none)
  cache_row id g (some p) = (record g { proposal_cache = put id p g.proposal_cache }, some p)

  abbrev pub from_cache :
      String → Governance Num → Option Proposal → Governance Num × Option Proposal
  from_cache id g (some p) = (g, some p)
  from_cache id g none = cache_row id g (get id g.proposals)

  unfoldable pub find_one : String → Governance Num → Governance Num × Option Proposal
  find_one id g = from_cache id g (get id g.proposal_cache)

  unfoldable pub invalidate_proposal : String → Governance Num → Governance Num
  invalidate_proposal id g = record g {
    proposal_cache = delete id g.proposal_cache;
    votes_cache = delete id g.votes_cache;
  }

  unfoldable pub create :
      (String → String)
      → (String → String)
      → String
      → ℕ
      → NewProposal
      → Governance Num
      → Result (Governance Num × Proposal)
  create lower trim id now data_ g = required trim data_.title >>= λ title.
      required trim data_.description >>= λ description.
      required trim data_.proposer >>= λ proposer. ok (
        record g {
          proposals =
              put id (new_proposal lower trim id now data_ title description proposer) g.proposals;
        },
        new_proposal lower trim id now data_ title description proposer,
      )

  abbrev pub save_proposal : String → Proposal → Governance Num → Governance Num
  save_proposal id p g = invalidate_proposal id (record g { proposals = put p.id p g.proposals })

  -- A change of a found proposal whose status passes the guard.
  abbrev pub save_if :
      String
      → (ProposalStatus → Bool)
      → (Proposal → Proposal)
      → Governance Num
      → Option Proposal
      → Governance Num × Result Proposal
  save_if id allowed f g none = (g, err Exception.not_found)
  save_if id allowed f g (some p) =
      if allowed p.status
      then (save_proposal id (f p) g, ok (f p))
      else (g, err Exception.bad_request)

  abbrev pub change :
      String
      → (ProposalStatus → Bool)
      → (Proposal → Proposal)
      → Governance Num
      → Governance Num × Result Proposal
  change id allowed f g = save_if id allowed f (find_one id g).0 (find_one id g).1

  unfoldable pub activate : String → ℕ → Governance Num → Governance Num × Result Proposal
  activate id now g =
      change id is_pending (λ p. record p { status = active; voting_starts_at = some now }) g

  unfoldable pub execute : String → ℕ → Governance Num → Governance Num × Result Proposal
  execute id now g =
      change id is_passed (λ p. record p { status = executed; executed_at = some now }) g

  unfoldable pub cancel : String → Governance Num → Governance Num × Result Proposal
  cancel id g = change id is_cancellable (λ p. record p { status = cancelled }) g

  -- `castVote` after the proposal is found: its status, an earlier vote, the two writes.
  abbrev pub add_vote :
      String → Vote Num → Governance Num → Option Proposal → Governance Num × Result (Vote Num)
  add_vote id v g none = (g, err Exception.not_found)
  add_vote id v g (some p) =
      if not (is_active p.status)
      then (g, err Exception.bad_request)
      else if has_vote id v.voter g.votes
      then (g, err Exception.conflict)
      else (save_proposal id (count_vote v.support p) (record g { votes = v ∷ g.votes }), ok v)

  unfoldable pub cast_vote :
      (String → String)
      → String
      → ℕ
      → String
      → String
      → Bool
      → Num
      → Option String
      → Governance Num
      → Governance Num × Result (Vote Num)
  cast_vote lower vote_id now id voter support weight metadata g =
      add_vote id
        (record {
          id = vote_id;
          proposal_id = id;
          voter = lower voter;
          support = support;
          weight = weight;
          metadata = or_default "{}" metadata;
          created_at = now;
        })
        (find_one id g).0 (find_one id g).1

  abbrev pub load_votes :
      String → Governance Num → Option (List (Vote Num)) → Governance Num × List (Vote Num)
  load_votes id g (some vs) = (g, vs)
  load_votes id g none =
      (record g { votes_cache = put id (votes_on id g.votes) g.votes_cache }, votes_on id g.votes)

  unfoldable pub get_votes_for_proposal : String → Governance Num → Governance Num × List (Vote Num)
  get_votes_for_proposal id g = load_votes id g (get id g.votes_cache)
