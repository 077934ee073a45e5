-- ===== src/Blockchain/Reconcile/Rollback.antt =====
-- What a rollback does to the stored events and blocks.
use truthbounty_api.Prelude.{
  ℕ, ◌≡◌, refl, ap, ◌∙◌, inl, inr, Option, none, some, List, [], ◌∷◌, arith, Bool-cases, Bool, true,
  false, if◌then◌else◌, nat_eq, string_eq, pair_eq, option_eq, ok, Option-cases, ◌===◌, ◌||◌,
  eq_of_beq,
}
use truthbounty_api.Prelude.Maps.{JsMap, get, put, get-put}
use truthbounty_api.Blockchain.Types.{
  BlockId, BlockRecord, EventId, PendingEvent, ReorgEvent, Status, pending, confirmed, orphaned,
  ChainState,
}
use truthbounty_api.Blockchain.State.{
  State, with_status, get_event, recount, mark_blocks_non_canonical, record_reorg, includes, unmark,
}
use truthbounty_api.Blockchain.State.Counting.{update_event_status-some}
use truthbounty_api.Blockchain.State.Sweep.{mapped}
use truthbounty_api.Blockchain.State.Invariant.{IsWellKeyed, update-IsWellKeyed}
use truthbounty_api.Blockchain.Reorg.{block_range}
use truthbounty_api.Blockchain.Reconcile.{rollback_event, rollback_affected_events, handle_reorg}

abbrev pub orphan : ℕ → PendingEvent → PendingEvent
orphan now e = with_status orphaned none now e

abbrev pub has : List EventId → EventId → Bool
has [] id = false
has (j ∷ js) id = j === id || has js id

-- What a rollback by some ids makes of the entry under an id.
abbrev pub rolled : List EventId → ℕ → EventId → Option PendingEvent → Option PendingEvent
rolled ids now id o = if has ids id then mapped (orphan now) o else o

-- A state after a rollback: its events by `rolled`, and all else but the counts as before.
pub record RolledBack (ids : List EventId) (now : ℕ) (s t : State) : Type 0 where
  pub events : (id : EventId) → get id t.events ≡ rolled ids now id (get id s.events)
  pub blocks : t.blocks ≡ s.blocks
  pub history : t.reorg_history ≡ s.reorg_history
  pub last_block : (t.chain_state).last_processed_block ≡ (s.chain_state).last_processed_block

rolled_twice :
    (hit : Bool) (ids : List EventId) (now : ℕ) (id : EventId) (o : Option PendingEvent)
    → rolled ids now id (if hit then mapped (orphan now) o else o)
      ≡ (if hit || has ids id then mapped (orphan now) o else o)
rolled_twice hit ids now id o = ground arith

recount_last :
    (st old : Status) (c : ChainState)
    → (recount st old c).last_processed_block ≡ c.last_processed_block
recount_last pending old c = refl
recount_last confirmed old c = ground arith
recount_last orphaned old c = ground arith

get-rolled_gone :
    (id j : EventId) (now : ℕ) (m : JsMap EventId PendingEvent)
    → get id m ≡ none
    → get j m ≡ rolled (id ∷ []) now j (get j m)
get-rolled_gone id j now m gone = elim (Bool-cases (id === j)) [
  | inl same ↦
      let gone' : get j m ≡ none = rw (eq_of_beq id j same) at gone in rw (same, gone') refl
  | inr other ↦ rw other refl
]

get-rolled_found :
    (id j : EventId) (now : ℕ) (m : JsMap EventId PendingEvent) (e : PendingEvent)
    → get id m ≡ some e
    → (if id === j then some (orphan now e) else get j m) ≡ rolled (id ∷ []) now j (get j m)
get-rolled_found id j now m e found = elim (Bool-cases (id === j)) [
  | inl same ↦
      let found' : get j m ≡ some e = rw (eq_of_beq id j same) at found in rw (same, found') refl
  | inr other ↦ rw other refl
]

rollback_event-RolledBack :
    (id : EventId) (now : ℕ) (s : State)
    → (t : State) × (rollback_event id now s ≡ ok t)
      × RolledBack (id ∷ []) now s t
      × (IsWellKeyed s.events → IsWellKeyed t.events)
unfolding rollback_event get_event
rollback_event-RolledBack id now s = elim (Option-cases (get id s.events)) [
  | inl gone ↦ (
    s,
    rw (gone, rollback_event) refl,
    record {
      events = λ j. get-rolled_gone id j now s.events gone;
      blocks = refl;
      history = refl;
      last_block = refl;
    },
    λ w. w,
  )
  | inr (e, found) ↦ (
    record s {
      events = put id (orphan now e) s.events;
      chain_state = recount orphaned e.status s.chain_state;
    },
    rw (found, rollback_event) (update_event_status-some id orphaned none now s e found),
    record {
      events =
          λ j. get-put id j (orphan now e) s.events ∙ get-rolled_found id j now s.events e found;
      blocks = refl;
      history = refl;
      last_block = recount_last orphaned e.status s.chain_state;
    },
    λ w. update-IsWellKeyed id orphaned none now s.events w found,
  )
]

or_false_or : (b c : Bool) → ((b || false) || c) ≡ (b || c)
or_false_or true c = refl
or_false_or false c = refl

RolledBack-cons :
    (id : EventId) (ids : List EventId) (now : ℕ) (s t u : State)
    → RolledBack (id ∷ []) now s t
    → RolledBack ids now t u
    → RolledBack (id ∷ ids) now s u
RolledBack-cons id ids now s t u a b = record {
  events = λ j.
      b.events j
      ∙ ap (rolled ids now j) (a.events j)
      ∙ rolled_twice (has (id ∷ []) j) ids now j (get j s.events)
      ∙ ap (λ b. if b then mapped (orphan now) (get j s.events) else get j s.events)
          (or_false_or (id === j) (has ids j));
  blocks = b.blocks ∙ a.blocks;
  history = b.history ∙ a.history;
  last_block = b.last_block ∙ a.last_block;
}

rollback_affected_events_parts :
    (ids : List EventId) (now : ℕ) (s : State)
    → (t : State) × (rollback_affected_events ids now s ≡ ok t)
      × RolledBack ids now s t
      × (IsWellKeyed s.events → IsWellKeyed t.events)
unfolding rollback_affected_events
rollback_affected_events_parts [] now s = (
  s,
  refl,
  record { events = λ j. refl; blocks = refl; history = refl; last_block = refl },
  λ w. w,
)
rollback_affected_events_parts (id ∷ ids) now s =
    let (t, e, a, v) = rollback_event-RolledBack id now s in
    let (u, f, b, w) = rollback_affected_events_parts ids now t in
    (u, rw e f, RolledBack-cons id ids now s t u a b, λ x. w (v x))

-- A rollback never throws: the stored events among the given ids become orphaned, every other entry
-- of the map is as before, and so are blocks, history and the last processed block.
rollback_affected_events-RolledBack :
    (ids : List EventId) (now : ℕ) (s : State)
    → (t : State) × (rollback_affected_events ids now s ≡ ok t) × RolledBack ids now s t
rollback_affected_events-RolledBack ids now s =
    let (t, e, a, w) = rollback_affected_events_parts ids now s in (t, e, a)

-- A block as `markBlocksNonCanonical` leaves it.
abbrev pub unmarked : List ℕ → BlockRecord → BlockRecord
unmarked ns b = if includes ns b.block_number then record b { is_canonical = false } else b

get-unmark :
    (ns : List ℕ) (id : BlockId) (m : JsMap BlockId BlockRecord)
    → get id (unmark ns m) ≡ mapped (unmarked ns) (get id m)
get-unmark ns id [] = refl
get-unmark ns id ((j, b) ∷ m) = elim (Bool-cases (j === id)) [
  | inl same ↦ rw same refl
  | inr other ↦ rw other (get-unmark ns id m)
]

pub handle_reorg_parts :
    (r : ReorgEvent) (now : ℕ) (s : State)
    → (t : State) × (handle_reorg r now s ≡ ok t)
      × ((id : EventId) → get id t.events ≡ rolled r.orphaned_events now id (get id s.events))
      × ((id : BlockId)
          → get id t.blocks
            ≡ mapped
                (unmarked (block_range r.affected_block_start r.affected_block_end))
                (get id s.blocks))
      × ((t.chain_state).last_processed_block ≡ (s.chain_state).last_processed_block)
      × (IsWellKeyed s.events → IsWellKeyed t.events)
unfolding handle_reorg mark_blocks_non_canonical record_reorg
handle_reorg_parts r now s =
    let (t, e, a, w) = rollback_affected_events_parts r.orphaned_events now s in
    let ns = block_range r.affected_block_start r.affected_block_end in
    (
      record_reorg r (mark_blocks_non_canonical ns t),
      rw e refl,
      a.events,
      λ id. get-unmark ns id t.blocks ∙ ap (λ m. mapped (unmarked ns) (get id m)) a.blocks,
      a.last_block,
      w,
    )
