-- ===== src/Blockchain/Reconcile/Revival.antt =====
-- What `reconcileOrphanedEvents` does to the stored events.
use truthbounty_api.Prelude.{
  ℕ, ◌===◌, ◌-◌, ◌≤◌, ◌<◌, ◌≡◌, refl, sym, ap, ◌∙◌, inl, inr, none, some, List, [], ◌∷◌, arith,
  Bool-cases, Bool, true, if◌then◌else◌, nat_eq, string_eq, pair_eq, option_eq, Result, ok, err,
  ◌>>=◌, Result-cases,
}
use truthbounty_api.Prelude.Maps.{JsMap, get, values}
use truthbounty_api.Blockchain.Types.{
  BlockId, BlockRecord, EventId, PendingEvent, confirmed, orphaned, status_beq, ChainState,
}
use truthbounty_api.Blockchain.State.Counting.{IsCounted}
use truthbounty_api.Prelude.Int.{pos, pos_part}
use truthbounty_api.Blockchain.State.{tally, State, select, get_orphaned_events}
use truthbounty_api.Blockchain.State.Sweep.{
  Plan, planned, sweep, map_events, recount_all, at_events, sweep_lem, mapped, recounted,
}
use truthbounty_api.Blockchain.State.Invariant.{
  IsWellKeyed, get-map_events, map_events-IsWellKeyed, planned-id,
}
use truthbounty_api.Blockchain.Reorg.{calculate_confirmations, is_event_confirmed}
use truthbounty_api.Blockchain.Reconcile.{reconcile_each, reconcile_orphaned_events}

abbrev revives : ℕ → ℕ → PendingEvent → Bool
revives depth head e = is_event_confirmed depth e.block_number head

-- The change that a pass plans: an orphaned event that is deep enough is confirmed.
abbrev pub revive_plan : ℕ → ℕ → Plan
revive_plan depth head e =
    if status_beq e.status orphaned
    then (if revives depth head e
        then some (confirmed, calculate_confirmations e.block_number head)
        else none)
    else none

abbrev pub revive_event : ℕ → ℕ → ℕ → PendingEvent → PendingEvent
revive_event depth head now e = planned (revive_plan depth head e) now e

abbrev pub revived_ids : ℕ → ℕ → List PendingEvent → List EventId
revived_ids depth head [] = []
revived_ids depth head (e ∷ es) =
    if revives depth head e then e.id ∷ revived_ids depth head es else revived_ids depth head es

abbrev orphans_of : List PendingEvent → List PendingEvent
orphans_of es = select (λ e. status_beq e.status orphaned) es

abbrev with_ids : List EventId → Result State → Result (List EventId × State)
with_ids ids r = r >>= λ t. ok (ids, t)

bind_ids :
    (m : Result State) (f : State → Result (List EventId × State)) (g : State → Result State)
    (id : EventId) (ids : List EventId)
    → ((t : State) → f t ≡ with_ids ids (g t))
    → (m >>= λ t. f t >>= λ r. ok (id ∷ r.0, r.1)) ≡ with_ids (id ∷ ids) (m >>= g)
bind_ids (err e) f g id ids h = refl
bind_ids (ok s) f g id ids h = elim (Result-cases (g s)) [
  | inl (t, e) ↦ rw (h s, e) refl
  | inr (x, e) ↦ rw (h s, e) refl
]

reconcile_each-sweep :
    (depth head now : ℕ) (es : List PendingEvent) (s : State)
    → reconcile_each depth head now (orphans_of es) s
      ≡ with_ids (revived_ids depth head (orphans_of es)) (sweep (revive_plan depth head) now es s)
unfolding reconcile_each sweep
reconcile_each-sweep depth head now [] s = refl
reconcile_each-sweep depth head now (e ∷ es) s = elim (Bool-cases (status_beq e.status orphaned)) [
  | inl old ↦ elim (Bool-cases (revives depth head e)) [
    | inl deep ↦
        rw (old, deep)
          (bind_ids _ (reconcile_each depth head now (orphans_of es))
            (sweep (revive_plan depth head) now es) e.id (revived_ids depth head (orphans_of es))
            (reconcile_each-sweep depth head now es))
    | inr shallow ↦ rw (old, shallow) (reconcile_each-sweep depth head now es s)
  ]
  | inr other ↦ rw other (reconcile_each-sweep depth head now es s)
]

-- Over a well-keyed map the pass never throws. It returns the ids of the orphaned events that are
-- deep enough, changes every stored event by `revive_event`, and leaves blocks and history alone.
pub reconcile_orphaned_events-map_events :
    (depth head now : ℕ) (s : State)
    → IsWellKeyed s.events
    → reconcile_orphaned_events depth head now s
      ≡ ok (
        revived_ids depth head (get_orphaned_events s),
        at_events s
            (map_events (revive_event depth head now) s.events)
            (recount_all (revive_plan depth head) (values s.events) s.chain_state),
      )
unfolding reconcile_orphaned_events get_orphaned_events
reconcile_orphaned_events-map_events depth head now s w =
    reconcile_each-sweep depth head now (values s.events) s
    ∙ ap (with_ids (revived_ids depth head (orphans_of (values s.events))))
        (sweep_lem (revive_plan depth head) now s w.distinct w.keyed)

pub revive_event-IsWellKeyed :
    (depth head now : ℕ) (m : JsMap EventId PendingEvent)
    → IsWellKeyed m
    → IsWellKeyed (map_events (revive_event depth head now) m)
revive_event-IsWellKeyed depth head now m w =
    map_events-IsWellKeyed (revive_event depth head now) m
      (λ e. planned-id (revive_plan depth head e) now e) w

-- An orphaned event that lies at least the confirmation depth below the head is confirmed by the
-- pass, whatever blocks are stored and whichever of them are canonical.
reconcile_confirms_orphan :
    (depth head now : ℕ) (s : State) (bs : JsMap BlockId BlockRecord) (id : EventId)
    (e : PendingEvent)
    → IsWellKeyed s.events
    → get id s.events ≡ some e
    → e.status ≡ orphaned
    → depth ≤ head - e.block_number
    → (ids : List EventId) × (t : State) × (f : PendingEvent) × (reconcile_orphaned_events depth
          head now
          (record s { blocks = bs })
        ≡ ok (ids, t))
      × (get id t.events ≡ some f)
      × (f.status ≡ confirmed)
      × (t.blocks ≡ bs)
unfolding is_event_confirmed calculate_confirmations
reconcile_confirms_orphan depth head now s bs id e w g p h = (
  revived_ids depth head (get_orphaned_events (record s { blocks = bs })),
  _,
  revive_event depth head now e,
  reconcile_orphaned_events-map_events depth head now (record s { blocks = bs }) w,
  get-map_events (revive_event depth head now) id s.events
      ∙ ap (mapped (revive_event depth head now)) g,
  ground arith,
  refl,
)

orphan_count :
    (depth head : ℕ) (es : List PendingEvent) (c : ChainState)
    → (recount_all (revive_plan depth head) es c).orphaned_event_count ≡ c.orphaned_event_count
orphan_count depth head [] c = refl
orphan_count depth head (e ∷ es) c =
    orphan_count depth head es (recounted (revive_plan depth head e) e c) ∙ ground arith

tally_revived_le :
    (depth head now : ℕ) (m : JsMap EventId PendingEvent)
    → tally orphaned (map_events (revive_event depth head now) m) ≤ tally orphaned m
tally_revived_le depth head now [] = omega arith
tally_revived_le depth head now ((j, e) ∷ m) = ground (arith, tally_revived_le depth head now m)

tally_revived_lt :
    (depth head now : ℕ) (m : JsMap EventId PendingEvent) (id : EventId) (e : PendingEvent)
    → get id m ≡ some e
    → e.status ≡ orphaned
    → is_event_confirmed depth e.block_number head ≡ true
    → tally orphaned (map_events (revive_event depth head now) m) < tally orphaned m
tally_revived_lt depth head now [] id e g p h = cc
tally_revived_lt depth head now ((j, f) ∷ m) id e g p h = elim (Bool-cases (j === id)) [
  | inl same ↦
      let q : some f ≡ some e = rw same at g in ground (arith, q, tally_revived_le depth head now m)
  | inr other ↦
      let tail : get id m ≡ some e = rw other at g in
      ground (arith, tally_revived_lt depth head now m id e tail p h)
]

pos-injective : {m n : ℕ} → pos m ≡ pos n → m ≡ n
pos-injective h = ap pos_part h

-- A pass that revives an event leaves the stored counts wrong: from a state whose counts are right
-- it ends in one whose counts are not, since the count of orphaned events is not lowered.
reconcile_breaks_counts :
    (depth head now : ℕ) (s : State) (id : EventId) (e : PendingEvent)
    → IsCounted s
    → IsWellKeyed s.events
    → get id s.events ≡ some e
    → e.status ≡ orphaned
    → depth ≤ head - e.block_number
    → (ids : List EventId) × (t : State) × (reconcile_orphaned_events depth head now s
        ≡ ok (ids, t))
      × ¬ IsCounted t
unfolding is_event_confirmed calculate_confirmations
reconcile_breaks_counts depth head now s id e c w g p h = (
  revived_ids depth head (get_orphaned_events s),
  _,
  reconcile_orphaned_events-map_events depth head now s w,
  λ c'.
      let same =
        pos-injective (
          sym (c'.orphans) ∙ orphan_count depth head (values s.events) s.chain_state ∙ c.orphans) in
      omega (arith, same, tally_revived_lt depth head now s.events id e g p (ground arith)),
)
