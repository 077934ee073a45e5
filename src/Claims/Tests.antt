-- ===== src/Claims/Tests.antt =====
-- The theorems on claims at a concrete claim, with natural numbers for the scores.
use truthbounty_api.Prelude.{
  ℕ, ◌+◌, ◌-◌, ◌*◌, ◌/◌, ◌≡◌, refl, Option, none, some, [], ◌∷◌, true, false, string_eq, ok, err,
  Exception, ltb, ◌==◌, min, sym, ap, ◌∙◌, inl, inr,
}
use truthbounty_api.Prelude.Maps.{get}
use truthbounty_api.Prelude.Caches.{put-some}
use truthbounty_api.Claims.Entity.{
  Claim, ClaimState, ClaimTransitionData, get_current_state, transition_to, transition, settle,
  state_of,
}
use truthbounty_api.Claims.Entity.Lifecycle.{Moved, transition_to-Moved}
use truthbounty_api.Claims.Entity.History.{Run, done, move}
use truthbounty_api.Claims.Service.{
  Store, CreateClaimDto, create_claim, new_claim, resolve_claim, finalize_claim, forget,
  invalidate_claim,
}
use truthbounty_api.Claims.Service.Changes.{IsCoherent}
use truthbounty_api.Claims.Service.Coherence.{resolves, finalizes, Step-IsCoherent}
use truthbounty_api.Claims.Service.Writes.{Step-keeps_final, create_then_resolve}
use truthbounty_api.Claims.Resolution.{
  Arithmetic, VoteWeightSummary, validate_votes, compute_confidence_score, resolve_votes,
}
use truthbounty_api.Claims.Resolution.Outcome.{Settled, resolve_votes-Settled}
use truthbounty_api.Claims.Resolution.Verdicts.{thrown, first_thrown, refusal, resolve_votes_throws}

abbrev fresh_claim : Claim ℕ
fresh_claim = record {
  id = "c1";
  title = "t";
  content = "x";
  source = none;
  metadata = none;
  resolved_verdict = none;
  confidence_score = none;
  finalized = false;
  created_at = 1;
  resolved_at = none;
}

abbrev final_claim : Claim ℕ
final_claim = record fresh_claim {
  resolved_verdict = some true;
  confidence_score = some 9;
  finalized = true;
  resolved_at = some 5;
}

abbrev verdict_data : Option (ClaimTransitionData ℕ)
verdict_data = some (record { verdict = some true; confidence = some 9 })

finalizes_fresh : transition_to ClaimState.finalized verdict_data 5 fresh_claim ≡ ok final_claim
unfolding transition_to transition settle state_of
finalizes_fresh = refl

final_claim_state : get_current_state final_claim ≡ ClaimState.finalized
unfolding state_of
final_claim_state = refl

one-Run : Run fresh_claim final_claim
one-Run = move ClaimState.finalized verdict_data 5 finalizes_fresh done

transition_to-Moved_example : Moved ClaimState.finalized fresh_claim final_claim
transition_to-Moved_example =
    transition_to-Moved ClaimState.finalized verdict_data 5 fresh_claim final_claim finalizes_fresh

abbrev a_store : Store ℕ
a_store = record {
  rows = ("c1", final_claim) ∷ [];
  claim_cache = [];
  latest_cache = none;
  user_cache = [];
}

abbrev open_store : Store ℕ
open_store = record {
  rows = ("c1", fresh_claim) ∷ [];
  claim_cache = [];
  latest_cache = none;
  user_cache = [];
}

abbrev no_claims : Store ℕ
no_claims = record { rows = []; claim_cache = []; latest_cache = none; user_cache = [] }

one_row-IsCoherent :
    (c : Claim ℕ)
    → c.id ≡ "c1"
    → IsCoherent
        (record { rows = ("c1", c) ∷ []; claim_cache = []; latest_cache = none; user_cache = [] })
one_row-IsCoherent c own = record {
  coheres = record { cache_map = tt; agrees = λ id d hit. cc };
  keyed = λ id d row. elim (put-some "c1" id c d [] row) [
    | inl hit ↦ sym (ap (λ x. x.id) hit.1) ∙ own ∙ hit.0
    | inr never ↦ cc
  ];
}

a_store-IsCoherent : IsCoherent a_store
a_store-IsCoherent = one_row-IsCoherent final_claim refl

open_store-IsCoherent : IsCoherent open_store
open_store-IsCoherent = one_row-IsCoherent fresh_claim refl

Step-IsCoherent_example : IsCoherent (resolve_claim "c1" true 9 5 open_store).0
Step-IsCoherent_example =
    Step-IsCoherent open_store (resolve_claim "c1" true 9 5 open_store).0 (resolves "c1" true 9 5)
      open_store-IsCoherent

Step-keeps_final_example : get "c1" ((finalize_claim "c1" 5 a_store).0).rows ≡ some final_claim
Step-keeps_final_example =
    Step-keeps_final a_store (finalize_claim "c1" 5 a_store).0 "c1" final_claim a_store-IsCoherent
      refl final_claim_state (finalizes "c1" 5)

abbrev a_dto : CreateClaimDto
a_dto = record { title = "t"; content = "x"; source = none; metadata = none }

abbrev created : Store ℕ × Claim ℕ
created = (
  record {
    rows = ("c2", new_claim "c2" a_dto 1) ∷ [];
    claim_cache = ("c2", new_claim "c2" a_dto 1) ∷ [];
    latest_cache = none;
    user_cache = [];
  },
  new_claim "c2" a_dto 1,
)

creates_claim : create_claim "c2" a_dto 1 no_claims ≡ ok created
unfolding create_claim
creates_claim = refl

create_then_resolve_example :
    (resolve_claim "c2" true 9 5 created.0 ≡ (created.0, err Exception.error))
    × (finalize_claim "c2" 5 created.0 ≡ (created.0, err Exception.error))
    × ((c : Claim ℕ) × ((resolve_claim "c2" true 9 5 (forget "c2" created.0)).1 ≡ ok c)
        × (get_current_state c ≡ ClaimState.resolved))
create_then_resolve_example =
    create_then_resolve "c2" a_dto 1 5 true 9 no_claims created tt creates_claim

-- Whole numbers in place of floating-point ones.
abbrev whole : Arithmetic ℕ
whole = record {
  zero_ = 0;
  one = 1;
  hundred = 100;
  lt = ltb;
  same = λ a b. a == b;
  is_finite = λ a. true;
  add = λ a b. a + b;
  sub = λ a b. a - b;
  mul = λ a b. a * b;
  div = λ a b. a / b;
  abs = λ a. a;
  min_ = min;
  fixed4 = λ a. a;
}

abbrev tied_votes : VoteWeightSummary ℕ
tied_votes = record { true_weight = 60; false_weight = 60 }

abbrev tied_claim : Claim ℕ
tied_claim = record fresh_claim {
  resolved_verdict = some false;
  confidence_score = some 0;
  finalized = true;
  resolved_at = some 6;
}

abbrev tied_store : Store ℕ
tied_store = record {
  rows = ("c1", tied_claim) ∷ [];
  claim_cache = [];
  latest_cache = none;
  user_cache = [];
}

resolves_tied :
    resolve_votes whole "c1" (some tied_votes) 5 6 open_store ≡ ok (tied_store, tied_claim)
unfolding resolve_votes compute_confidence_score transition_to transition settle state_of
    invalidate_claim
resolves_tied = refl

resolve_votes-Settled_example : Settled "c1" open_store tied_store tied_claim
resolve_votes-Settled_example =
    resolve_votes-Settled whole "c1" (some tied_votes) 5 6 open_store tied_store tied_claim
      open_store-IsCoherent resolves_tied

resolve_votes_throws_example :
    thrown (resolve_votes whole "c1" (some tied_votes) 5 6 a_store)
    ≡ first_thrown (thrown (validate_votes whole (some tied_votes))) (refusal (some final_claim))
resolve_votes_throws_example = resolve_votes_throws whole "c1" (some tied_votes) 5 6 a_store
