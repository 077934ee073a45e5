-- ===== src/Claims/Entity/Lifecycle.antt =====
-- The state machine of a claim: which moves succeed, where they end, and what no run of moves
-- changes.
use truthbounty_api.Prelude.{
  is_some, ℕ, ◌≡◌, ◌≢◌, refl, sym, ◌∙◌, ◌≤◌, Option, none, some, Bool, true, false, ◌&&◌, Result,
  ok, err, arith, ok-injective, subst,
}
use truthbounty_api.Claims.Entity.{
  Claim, ClaimState, pending, resolved, ClaimTransitionData, state_of, get_current_state,
  given_verdict, given_confidence, updated, stamped, settle, transition, transition_to,
}

-- The position of a state in the order of a claim's life.
abbrev pub rank : ClaimState → ℕ
rank pending = 0
rank resolved = 1
rank ClaimState.finalized = 2

-- The moves of the documented table, given whether both data are there.
abbrev pub allowed : ClaimState → ClaimState → Bool → Bool
allowed pending pending both = false
allowed pending resolved both = both
allowed pending ClaimState.finalized both = both
allowed resolved pending both = false
allowed resolved resolved both = true
allowed resolved ClaimState.finalized both = true
allowed ClaimState.finalized to both = false

abbrev pub succeeds {ℓ} : {A : Type ℓ} → Result A → Bool
succeeds (ok a) = true
succeeds (err e) = false

-- A value that is set keeps its value.
abbrev pub Keeps : Option ℕ → Option ℕ → Type 0
Keeps none o = Unit
Keeps (some t) o = o ≡ some t

pub Keeps-refl : (o : Option ℕ) → Keeps o o
Keeps-refl none = tt
Keeps-refl (some t) = refl

pub Keeps-trans : (o p q : Option ℕ) → Keeps o p → Keeps p q → Keeps o q
Keeps-trans none p q h k = tt
Keeps-trans (some t) none q h k = cc
Keeps-trans (some t) (some u) q h k = k ∙ h

stamped-Keeps : (o : Option ℕ) (now : ℕ) → Keeps o (stamped o now)
stamped-Keeps none now = tt
stamped-Keeps (some u) now = refl

updated-some {ℓ} :
    {A : Type ℓ} (new old : Option A) (a : A) → old ≡ some a → (b : A) × (updated new old ≡ some b)
updated-some none old a h = (a, h)
updated-some (some b) old a h = (b, refl)

-- The state that a settled claim is in, by its flag.
abbrev pub target_of : Bool → ClaimState
target_of true = ClaimState.finalized
target_of false = resolved

module _ {Score : Type 0} where
  succeeds-settle :
      (final : Bool) (v : Option Bool) (s : Option Score) (now : ℕ) (c : Claim Score)
      → succeeds (settle final v s now c) ≡ (is_some v && is_some s)
  unfolding settle
  succeeds-settle final none s now c = refl
  succeeds-settle final (some v) none now c = refl
  succeeds-settle final (some v) (some s) now c = refl

  succeeds-transition :
      (from to : ClaimState) (d : Option (ClaimTransitionData Score)) (now : ℕ) (c : Claim Score)
      → succeeds (transition from to d now c)
        ≡ allowed from to (is_some (given_verdict d) && is_some (given_confidence d))
  unfolding transition
  succeeds-transition pending pending d now c = refl
  succeeds-transition pending resolved d now c =
      succeeds-settle false (given_verdict d) (given_confidence d) now c
  succeeds-transition pending ClaimState.finalized d now c =
      succeeds-settle true (given_verdict d) (given_confidence d) now c
  succeeds-transition resolved pending d now c = refl
  succeeds-transition resolved resolved d now c = refl
  succeeds-transition resolved ClaimState.finalized d now c = refl
  succeeds-transition ClaimState.finalized to d now c = refl

  -- A transition of a claim succeeds exactly when the table allows it: not from FINALIZED, not to
  -- PENDING, and from PENDING only with a verdict and a confidence.
  pub transition_to-allowed :
      (target : ClaimState) (d : Option (ClaimTransitionData Score)) (now : ℕ) (c : Claim Score)
      → succeeds (transition_to target d now c)
        ≡ allowed
            (get_current_state c)
            target
            (is_some (given_verdict d) && is_some (given_confidence d))
  unfolding transition_to
  transition_to-allowed target d now c = succeeds-transition (get_current_state c) target d now c

  -- What a successful move does to a claim.
  pub record Moved (target : ClaimState) (c d : Claim Score) : Type 0 where
    pub reaches : get_current_state d ≡ target
    pub forwards : rank (get_current_state c) ≤ rank target
    pub was_open : get_current_state c ≢ ClaimState.finalized
    pub keeps_stamp : Keeps c.resolved_at d.resolved_at
    pub keeps_text :
        (d.id ≡ c.id)
        × (d.title ≡ c.title)
        × (d.content ≡ c.content)
        × (d.created_at ≡ c.created_at)

  resolved_state :
      (v : Option Bool) (s : Option Score) (b : Bool) (x : Score)
      → v ≡ some b
      → s ≡ some x
      → state_of false v s ≡ resolved
  unfolding state_of
  resolved_state v s b x hv hs = rw (hv, hs) refl

  resolved_fields :
      (f : Bool) (v : Option Bool) (s : Option Score)
      → state_of f v s ≡ resolved
      → (f ≡ false) × ((b : Bool) × (v ≡ some b)) × ((x : Score) × (s ≡ some x))
  unfolding state_of
  resolved_fields true v s h = cc
  resolved_fields false (some b) (some x) h = (refl, (b, refl), (x, refl))
  resolved_fields false (some b) none h = cc
  resolved_fields false none s h = cc

  finalized_state : (v : Option Bool) (s : Option Score) → state_of true v s ≡ ClaimState.finalized
  unfolding state_of
  finalized_state v s = refl

  filled_state :
      (final : Bool) (v : Bool) (s : Score) → state_of final (some v) (some s) ≡ target_of final
  unfolding state_of
  filled_state true v s = refl
  filled_state false v s = refl

  rank_pending :
      (c : Claim Score) (n : ℕ) → get_current_state c ≡ pending → rank (get_current_state c) ≤ n
  rank_pending c n before = rw before ground arith

  settle-Moved :
      (final : Bool) (v : Option Bool) (s : Option Score) (now : ℕ) (c d : Claim Score)
      → get_current_state c ≡ pending
      → settle final v s now c ≡ ok d
      → Moved (target_of final) c d
  unfolding settle
  settle-Moved final none s now c d before h = cc
  settle-Moved final (some v) none now c d before h = cc
  settle-Moved final (some v) (some s) now c d before h =
      subst (Moved (target_of final) c) (ok-injective h) (record {
        reaches = filled_state final v s;
        forwards = rank_pending c (rank (target_of final)) before;
        was_open = rw before (λ e. cc);
        keeps_stamp = stamped-Keeps c.resolved_at now;
        keeps_text = (refl, refl, refl, refl);
      })

  amend-Moved :
      (final : Bool) (nv : Option Bool) (ns : Option Score) (c : Claim Score)
      → get_current_state c ≡ resolved
      → Moved (target_of final) c (record c {
        resolved_verdict = updated nv c.resolved_verdict;
        confidence_score = updated ns c.confidence_score;
        finalized = final;
      })
  amend-Moved true nv ns c before = record {
    reaches = finalized_state (updated nv c.resolved_verdict) (updated ns c.confidence_score);
    forwards = rw before ground arith;
    was_open = rw before (λ e. cc);
    keeps_stamp = Keeps-refl c.resolved_at;
    keeps_text = (refl, refl, refl, refl);
  }
  amend-Moved false nv ns c before =
      let fields = resolved_fields c.finalized c.resolved_verdict c.confidence_score before in
      let v = updated-some nv c.resolved_verdict (fields.1).0 (fields.1).1 in
      let s = updated-some ns c.confidence_score (fields.2).0 (fields.2).1 in
      record {
        reaches =
            resolved_state (updated nv c.resolved_verdict) (updated ns c.confidence_score) v.0 s.0
              v.1 s.1;
        forwards = rw before ground arith;
        was_open = rw before (λ e. cc);
        keeps_stamp = Keeps-refl c.resolved_at;
        keeps_text = (refl, refl, refl, refl);
      }

  transition-Moved :
      (from target : ClaimState) (d : Option (ClaimTransitionData Score)) (now : ℕ)
      (c c' : Claim Score)
      → get_current_state c ≡ from
      → transition from target d now c ≡ ok c'
      → Moved target c c'
  unfolding transition
  transition-Moved ClaimState.finalized target d now c c' before h = cc
  transition-Moved pending pending d now c c' before h = cc
  transition-Moved resolved pending d now c c' before h = cc
  transition-Moved pending resolved d now c c' before h =
      settle-Moved false (given_verdict d) (given_confidence d) now c c' before h
  transition-Moved pending ClaimState.finalized d now c c' before h =
      settle-Moved true (given_verdict d) (given_confidence d) now c c' before h
  transition-Moved resolved resolved d now c c' before h =
      let open_ = (resolved_fields c.finalized c.resolved_verdict c.confidence_score before).0 in
      subst (Moved resolved c) (ok-injective h) (
        subst
          (λ f. Moved resolved c (record c {
            resolved_verdict = updated (given_verdict d) c.resolved_verdict;
            confidence_score = updated (given_confidence d) c.confidence_score;
            finalized = f;
          }))
          (sym open_) (amend-Moved false (given_verdict d) (given_confidence d) c before))
  transition-Moved resolved ClaimState.finalized d now c c' before h =
      subst (Moved ClaimState.finalized c) (ok-injective h)
        (amend-Moved true (given_verdict d) (given_confidence d) c before)

  -- A transition that succeeds ends in the target state, which lies no earlier in the order
  -- PENDING, RESOLVED, FINALIZED than the state before; the claim was not final before; a
  -- `resolvedAt` that was set, the id, the texts and the creation time are as before.
  pub transition_to-Moved :
      (target : ClaimState) (d : Option (ClaimTransitionData Score)) (now : ℕ) (c c' : Claim Score)
      → transition_to target d now c ≡ ok c'
      → Moved target c c'
  unfolding transition_to
  transition_to-Moved target d now c c' h =
      transition-Moved (get_current_state c) target d now c c' refl h
