-- ===== src/Blockchain/State/Counts.antt =====
-- The two counts of the chain state against the events that are stored, under every operation. The
-- code's callers do not all meet the conditions: processBlock on a block again saves its ids again,
-- and reconcileOrphanedEvents updates orphaned events.
use truthbounty_api.Prelude.{
  ℕ, String, ◌≡◌, ◌≢◌, refl, sym, ◌∙◌, Option, none, some, List, nat_eq, string_eq, pair_eq,
  option_eq, ok, ok-injective, subst,
}
use truthbounty_api.Prelude.Maps.{get}
use truthbounty_api.Blockchain.Types.{
  EventId, BlockInfo, PendingEvent, Status, pending, orphaned, ReorgEvent,
}
use truthbounty_api.Blockchain.State.{
  State, save_pending_event, update_event_status, delete_events, clear_all_state, save_block,
  mark_blocks_non_canonical, record_reorg, update_chain_state,
}
use truthbounty_api.Blockchain.State.Counting.{
  IsCounted, update_event_status-some, save_pending_event-IsCounted, update_event_status-IsCounted,
  delete_events-IsCounted, save_block-IsCounted,
}

-- The calls that change the state, with what they need to keep the counts: a saved event is new and
-- not orphaned, and an event that is updated is not orphaned and does not become pending again.
pub data Step : State → State → Type 0 where
  saves_block : (block : BlockInfo) (now : ℕ) (s : State) → Step s (save_block block now s)
  saves_event :
      (e : PendingEvent) (s : State)
      → get e.id s.events ≡ none
      → e.status ≢ orphaned
      → Step s (save_pending_event e s)
  updates :
      (id : EventId) (st : Status) (n : Option ℕ) (now : ℕ) (s : State) (e : PendingEvent)
      {t : State}
      → get id s.events ≡ some e
      → e.status ≢ orphaned
      → (st ≡ pending → e.status ≡ pending)
      → update_event_status id st n now s ≡ ok t
      → Step s t
  marks : (ns : List ℕ) (s : State) → Step s (mark_blocks_non_canonical ns s)
  records : (r : ReorgEvent) (s : State) → Step s (record_reorg r s)
  advances : (n : ℕ) (h : String) (d : ℕ) (s : State) → Step s (update_chain_state n h d s)
  deletes : (ids : List EventId) (s : State) → Step s (delete_events ids s)
  clears : (s : State) → Step s (clear_all_state s)

pub data Reach (s : State) : State → Type 0 where
  here : Reach s s
  next : {t u : State} → Reach s t → Step t u → Reach s u

-- One such call keeps the counts right.
Step-IsCounted : {s t : State} → Step s t → IsCounted s → IsCounted t
unfolding mark_blocks_non_canonical record_reorg update_chain_state clear_all_state
Step-IsCounted (saves_block block now s) c = save_block-IsCounted block now s c
Step-IsCounted (saves_event e s new n) c = save_pending_event-IsCounted e s new n c
Step-IsCounted (updates id st n now s e {t = t} g ne back h) c =
    subst IsCounted (ok-injective (sym (update_event_status-some id st n now s e g) ∙ h))
      (update_event_status-IsCounted id st n now s e g ne back c)
Step-IsCounted (marks ns s) c = record {
  distinct = c.distinct;
  pendings = c.pendings;
  orphans = c.orphans;
}
Step-IsCounted (records r s) c = record {
  distinct = c.distinct;
  pendings = c.pendings;
  orphans = c.orphans;
}
Step-IsCounted (advances n h d s) c = record {
  distinct = c.distinct;
  pendings = c.pendings;
  orphans = c.orphans;
}
Step-IsCounted (deletes ids s) c = delete_events-IsCounted ids s c
Step-IsCounted (clears s) c = record { distinct = tt; pendings = refl; orphans = refl }

-- From a state whose counts are right and that stores no id twice, after any sequence of saves of
-- blocks and events, updates of a status, marks of blocks, records of reorgs, advances of the chain,
-- deletions and clears, the stored counts of pending and orphaned events are those of the events in
-- the map, and no id is stored twice, where each saved event has a new id and is not orphaned, and
-- each updated event is stored, is not orphaned, and becomes pending only if it was.
pub Reach-IsCounted : {s t : State} → IsCounted s → Reach s t → IsCounted t
Reach-IsCounted c here = c
Reach-IsCounted c (next r st) = Step-IsCounted st (Reach-IsCounted c r)
