-- ===== src/Governance/Statuses.antt =====
-- The statuses that the operations of the governance service reach.
use truthbounty_api.Prelude.{
  ℕ, String, ◌≡◌, refl, sym, ap, ◌∙◌, subst, inl, inr, Option, none, some, Bool, false, List, [],
  err, Exception, string_eq, Bool-cases,
}
use truthbounty_api.Prelude.Maps.{JsMap, get, put}
use truthbounty_api.Prelude.Caches.{put-some}
use truthbounty_api.Governance.{
  Governance, Proposal, Vote, ProposalStatus, executed, count_vote, has_vote, find_one,
  invalidate_proposal, save_if, change, activate, execute, cancel, add_vote, cast_vote,
  get_votes_for_proposal, load_votes, is_active, is_pending, is_passed, is_cancellable,
}
use truthbounty_api.Governance.Tally.{IsTallied, find_one_lem}
use truthbounty_api.Governance.Voting.{
  Step, finds, creates, activates, executes, cancels, votes, reads_votes, Step-IsTallied,
  create_parts,
}
use truthbounty_api.Governance.Outcome.{count_vote_status}

-- No row has the status PASSED.
abbrev pub IsUndecided : JsMap String Proposal → Type 0
IsUndecided rows = (id : String) (p : Proposal) → get id rows ≡ some p → is_passed p.status ≡ false

put-IsUndecided :
    (id : String) (q : Proposal) (rows : JsMap String Proposal)
    → is_passed q.status ≡ false
    → IsUndecided rows
    → IsUndecided (put id q rows)
put-IsUndecided id q rows not_passed h j x found = elim (put-some id j q x rows found) [
  | inl hit ↦ subst (λ r. is_passed r.status ≡ false) hit.1 not_passed
  | inr other ↦ h j x other
]

module _ {Num : Type 0} where
  save_if-IsUndecided :
      (id : String) (allowed : ProposalStatus → Bool) (f : Proposal → Proposal) (g : Governance Num)
      (o : Option Proposal)
      → ((p : Proposal) → is_passed (f p).status ≡ false)
      → IsUndecided g.proposals
      → IsUndecided ((save_if id allowed f g o).0).proposals
  unfolding invalidate_proposal
  save_if-IsUndecided id allowed f g none never h = h
  save_if-IsUndecided id allowed f g (some p) never h = elim (Bool-cases (allowed p.status)) [
    | inl may ↦ rw may (put-IsUndecided (f p).id (f p) g.proposals (never p) h)
    | inr may_not ↦ rw may_not h
  ]

  add_vote-IsUndecided :
      (id : String) (v : Vote Num) (g : Governance Num) (o : Option Proposal)
      → get id g.proposals ≡ o
      → IsUndecided g.proposals
      → IsUndecided ((add_vote id v g o).0).proposals
  unfolding invalidate_proposal
  add_vote-IsUndecided id v g none row h = h
  add_vote-IsUndecided id v g (some p) row h = elim (Bool-cases (is_active p.status)) [
    | inr closed ↦ rw closed h
    | inl live ↦ elim (Bool-cases (has_vote id v.voter g.votes)) [
      | inl voted ↦ rw (live, voted) h
      | inr new ↦
          rw (live, new)
            (put-IsUndecided (count_vote v.support p).id (count_vote v.support p) g.proposals
              (ap is_passed (count_vote_status v.support p) ∙ h id p row) h)
    ]
  ]

  change-IsUndecided :
      (id : String) (allowed : ProposalStatus → Bool) (f : Proposal → Proposal) (g : Governance Num)
      → ((p : Proposal) → is_passed (f p).status ≡ false)
      → IsTallied g
      → IsUndecided g.proposals
      → IsUndecided ((change id allowed f g).0).proposals
  change-IsUndecided id allowed f g never tallied h =
      save_if-IsUndecided id allowed f (find_one id g).0 (find_one id g).1 never
        (subst IsUndecided (sym (find_one_lem id g tallied).1) h)

  load_votes_rows :
      (id : String) (g : Governance Num) (o : Option (List (Vote Num)))
      → ((load_votes id g o).0).proposals ≡ g.proposals
  load_votes_rows id g none = refl
  load_votes_rows id g (some vs) = refl

  Step-IsUndecided :
      (lower trim : String → String) (g t : Governance Num)
      → Step lower trim g t
      → IsTallied g
      → IsUndecided g.proposals
      → IsUndecided t.proposals
  unfolding activate execute cancel cast_vote get_votes_for_proposal
  Step-IsUndecided lower trim g t (finds id) tallied h =
      subst IsUndecided (sym (find_one_lem id g tallied).1) h
  Step-IsUndecided lower trim g t (creates id now data_ r fresh made) tallied h =
      let parts = create_parts lower trim id now data_ g r made in
      subst (λ q. IsUndecided q.proposals) (sym parts.3) (put-IsUndecided id _ g.proposals refl h)
  Step-IsUndecided lower trim g t (activates id now) tallied h =
      change-IsUndecided id is_pending _ g (λ p. refl) tallied h
  Step-IsUndecided lower trim g t (executes id now) tallied h =
      change-IsUndecided id is_passed _ g (λ p. refl) tallied h
  Step-IsUndecided lower trim g t (cancels id) tallied h =
      change-IsUndecided id is_cancellable _ g (λ p. refl) tallied h
  Step-IsUndecided lower trim g t (votes vote_id now id voter support weight metadata) tallied h =
      let found = find_one_lem id g tallied in
      add_vote-IsUndecided id _ (find_one id g).0 (find_one id g).1
        (ap (get id) found.1 ∙ sym found.0) (subst IsUndecided (sym found.1) h)
  Step-IsUndecided lower trim g t (reads_votes id) tallied h =
      subst IsUndecided (sym (load_votes_rows id g (get id g.votes_cache))) h

  unfoldable pub empty_governance : Governance Num
  empty_governance = record { proposals = []; votes = []; proposal_cache = []; votes_cache = [] }

  -- What the operations of the service make of the empty tables.
  pub data Reach (lower trim : String → String) : Governance Num → Type 0 where
    start : Reach lower trim empty_governance
    then_ : {g t : Governance Num} → Reach lower trim g → Step lower trim g t → Reach lower trim t

  empty-IsTallied : IsTallied empty_governance
  unfolding empty_governance
  empty-IsTallied = record {
    coheres = record { cache_map = tt; agrees = λ id v hit. hit };
    counted = λ id p found. cc;
    no_strays = λ id b gone. refl;
    unique = tt;
  }

  -- In every state that the governance service reaches from empty tables, the counters of every
  -- proposal are those of its votes.
  pub Reach-IsTallied :
      (lower trim : String → String) (g : Governance Num) → Reach lower trim g → IsTallied g
  Reach-IsTallied lower trim g start = empty-IsTallied
  Reach-IsTallied lower trim g (then_ {g = b} before step) =
      Step-IsTallied lower trim b g step (Reach-IsTallied lower trim b before)

  Reach-IsUndecided :
      (lower trim : String → String) (g : Governance Num)
      → Reach lower trim g
      → IsUndecided g.proposals
  unfolding empty_governance
  Reach-IsUndecided lower trim g start = λ id p found. cc
  Reach-IsUndecided lower trim g (then_ {g = b} before step) =
      Step-IsUndecided lower trim b g step (Reach-IsTallied lower trim b before)
        (Reach-IsUndecided lower trim b before)

  refused :
      (id : String) (f : Proposal → Proposal) (g : Governance Num) (p : Proposal)
      → is_passed p.status ≡ false
      → (save_if id is_passed f g (some p)).1 ≡ err Exception.bad_request
  refused id f g p not_passed = rw not_passed refl

  -- In every state that the governance service reaches from empty tables, executing a proposal
  -- that exists throws BadRequest: no operation of the service gives the status PASSED.
  pub Reach-execute :
      (lower trim : String → String) (g : Governance Num) (id : String) (p : Proposal) (now : ℕ)
      → Reach lower trim g
      → get id g.proposals ≡ some p
      → (execute id now g).1 ≡ err Exception.bad_request
  unfolding execute
  Reach-execute lower trim g id p now reached row =
      let found = find_one_lem id g (Reach-IsTallied lower trim g reached) in
      let f : Proposal → Proposal = λ q. record q { status = executed; executed_at = some now } in
      ap (λ o. (save_if id is_passed f (find_one id g).0 o).1) (found.0 ∙ row)
      ∙ refused id f (find_one id g).0 p (Reach-IsUndecided lower trim g reached id p row)
