-- ===== src/Blockchain/Indexing/Confirmation.antt =====
-- What `updateEventConfirmations` does to the stored events.
use truthbounty_api.Prelude.{
  ℕ, ◌-◌, ◌≤◌, ◌<◌, ◌≡◌, ◌≢◌, leb, true, false, refl, sym, ap, ◌∙◌, inl, inr, none, some, List, [],
  ◌∷◌, arith, Bool-cases, if◌then◌else◌, nat_eq, string_eq, pair_eq, option_eq, ok, ◌>>=◌,
}
use mathlib.Core.Path.{fun_ext}
use truthbounty_api.Prelude.Maps.{JsMap, get, values}
use truthbounty_api.Blockchain.Types.{EventId, PendingEvent, pending, confirmed, status_beq}
use truthbounty_api.Blockchain.State.{State, select, get_pending_events}
use truthbounty_api.Blockchain.State.Sweep.{
  mapped, Plan, planned, update, sweep, map_events, recount_all, at_events, sweep_lem,
}
use truthbounty_api.Blockchain.State.Invariant.{
  IsWellKeyed, get-map_events, map_events-IsWellKeyed, planned-id,
}
use truthbounty_api.Blockchain.Reorg.{calculate_confirmations, is_event_confirmed}
use truthbounty_api.Blockchain.Indexing.{confirm_each, update_event_confirmations, next_status}

-- The change that a pass at a head block plans: a pending event gets its number of confirmations,
-- and is confirmed once it is deep enough.
abbrev pub confirm_plan : ℕ → ℕ → Plan
confirm_plan depth head e =
    if status_beq e.status pending
    then some (next_status depth head e, calculate_confirmations e.block_number head)
    else none

abbrev pub confirm_event : ℕ → ℕ → ℕ → PendingEvent → PendingEvent
confirm_event depth head now e = planned (confirm_plan depth head e) now e

confirm_each-sweep :
    (depth head now : ℕ) (es : List PendingEvent) (s : State)
    → confirm_each depth head now (select (λ e. status_beq e.status pending) es) s
      ≡ sweep (confirm_plan depth head) now es s
unfolding confirm_each sweep update
confirm_each-sweep depth head now [] s = refl
confirm_each-sweep depth head now (e ∷ es) s = elim (Bool-cases (status_beq e.status pending)) [
  | inl hit ↦
      let move = some (next_status depth head e, calculate_confirmations e.block_number head) in
      let rest = select (λ x. status_beq x.status pending) es in
      ap (λ b. confirm_each depth head now (if b then e ∷ rest else rest) s) hit
      ∙ ap (◌>>=◌ (update move now e s)) (fun_ext (confirm_each-sweep depth head now es))
      ∙ ap
          (λ b.
            update (if b then move else none) now e s >>= sweep (confirm_plan depth head) now es)
          (sym hit)
  | inr miss ↦ rw miss (confirm_each-sweep depth head now es s)
]

-- Over a well-keyed map the pass never throws. Every stored event is changed by `confirm_event`;
-- blocks, history, limits and the number of events stay.
pub update_event_confirmations-map_events :
    (depth head now : ℕ) (s : State)
    → IsWellKeyed s.events
    → update_event_confirmations depth head now s
      ≡ ok (
          at_events s
            (map_events (confirm_event depth head now) s.events)
            (recount_all (confirm_plan depth head) (values s.events) s.chain_state))
unfolding update_event_confirmations get_pending_events
update_event_confirmations-map_events depth head now s w =
    confirm_each-sweep depth head now (values s.events) s
    ∙ sweep_lem (confirm_plan depth head) now s w.distinct w.keyed

pub confirm_event-IsWellKeyed :
    (depth head now : ℕ) (m : JsMap EventId PendingEvent)
    → IsWellKeyed m
    → IsWellKeyed (map_events (confirm_event depth head now) m)
confirm_event-IsWellKeyed depth head now m w =
    map_events-IsWellKeyed (confirm_event depth head now) m
      (λ e. planned-id (confirm_plan depth head e) now e) w

not_pending : (e : PendingEvent) → e.status ≢ pending → status_beq e.status pending ≡ false
not_pending e h = ground arith

pub confirm_event_cases :
    (depth head now : ℕ) (e : PendingEvent)
    → (e.status ≢ pending → confirm_event depth head now e ≡ e)
      × (e.status ≡ pending
          → depth ≤ head - e.block_number
          → confirm_event depth head now e ≡ record e {
            status = confirmed;
            confirmations = head - e.block_number;
            confirmed_at = some now;
          })
      × (e.status ≡ pending
          → head - e.block_number < depth
          → confirm_event depth head now e ≡ record e { confirmations = head - e.block_number })
unfolding is_event_confirmed calculate_confirmations
confirm_event_cases depth head now e = (
  λ h. rw (not_pending e h) refl,
  λ p h. let deep : leb depth (head - e.block_number) ≡ true = ground arith in rw (p, deep) refl,
  λ p h.
      let shallow : leb depth (head - e.block_number) ≡ false = ground arith in
      rw (p, shallow) refl,
)

-- From a state whose events stand under their own ids, no id twice, the pass never throws.
-- Afterwards each stored event that is pending and lies at least the confirmation depth below the
-- head is confirmed at the time of the pass; each other pending one stays pending; either has its
-- distance to the head (0 above the head) as the number of confirmations and its other fields as
-- before; each event that is not pending is the same; no event is added; and blocks and history are
-- the same.
pub update_event_confirmations_lem :
    (depth head now : ℕ) (s : State)
    → IsWellKeyed s.events
    → (t : State) × (update_event_confirmations depth head now s ≡ ok t)
      × ((id : EventId) (e : PendingEvent)
          → get id s.events ≡ some e
          → (e.status ≢ pending → get id t.events ≡ some e)
            × (e.status ≡ pending
                → depth ≤ head - e.block_number
                → get id t.events
                  ≡ some (record e {
                    status = confirmed;
                    confirmations = head - e.block_number;
                    confirmed_at = some now;
                  }))
            × (e.status ≡ pending
                → head - e.block_number < depth
                → get id t.events ≡ some (record e { confirmations = head - e.block_number })))
      × ((id : EventId) → get id s.events ≡ none → get id t.events ≡ none)
      × (t.blocks ≡ s.blocks)
      × (t.reorg_history ≡ s.reorg_history)
update_event_confirmations_lem depth head now s w =
    let f = confirm_event depth head now in
    (
      _,
      update_event_confirmations-map_events depth head now s w,
      λ id e g.
          let there = get-map_events f id s.events ∙ ap (mapped f) g in
          let cases = confirm_event_cases depth head now e in
          (
            λ h. there ∙ ap some (cases.0 h),
            λ p h. there ∙ ap some (cases.1 p h),
            λ p h. there ∙ ap some (cases.2 p h),
          ),
      λ id g. get-map_events f id s.events ∙ ap (mapped f) g,
      refl,
      refl,
    )
