-- ===== src/Blockchain/Tests.antt =====
-- The theorems on the chain's state at concrete blocks and events.
use mathlib.Core.List.{Mem}
use truthbounty_api.Prelude.{
  ℕ, List, ◌≤◌, ◌<◌, ◌-◌, String, ◌≡◌, ◌≢◌, refl, ◌↔◌, none, some, [], ◌∷◌, true, false, string_eq,
  pair_eq, option_eq, nat_eq, ok,
}
use truthbounty_api.Prelude.Int.{pos}
use truthbounty_api.Prelude.Maps.{get}
use truthbounty_api.Blockchain.Types.{
  BlockInfo, BlockRecord, BlockId, EventId, PendingEvent, ReorgEvent, Status, pending, confirmed,
  orphaned,
}
use truthbounty_api.Blockchain.State.{
  State, empty_chain, block_record, save_pending_event, get_canonical_block, get_blocks_at_height,
  tally,
}
use truthbounty_api.Blockchain.State.Counting.{IsCounted}
use truthbounty_api.Blockchain.State.Counts.{saves_event, here, next, Reach-IsCounted}
use truthbounty_api.Blockchain.State.Invariant.{IsWellKeyed}
use truthbounty_api.Blockchain.Reorg.{find_divergence_point, divergence_from, goes_on}
use truthbounty_api.Blockchain.Reconcile.{
  handle_reorg, reconcile_orphaned_events, verify_state_consistency,
}
use truthbounty_api.Blockchain.Reconcile.Affected.{IsAffected, handle_reorg_lem}
use truthbounty_api.Blockchain.Reconcile.Depth.{IsDeepOrphan, reconcile_orphaned_events_lem}
use truthbounty_api.Blockchain.Reconcile.Consistency.{verify_state_consistency_iff}
use truthbounty_api.Blockchain.Indexing.{Indexer, update_event_confirmations, process_block}
use truthbounty_api.Blockchain.Indexing.Confirmation.{update_event_confirmations_lem}
use truthbounty_api.Blockchain.Indexing.Totality.{IsSettled, process_block_total}

abbrev block : ℕ → String → String → BlockInfo
block n hash parent = record { number = n; hash = hash; timestamp = n; parent_hash = parent }

abbrev event_id : String → EventId
event_id tx = ("a", (tx, some 0))

abbrev event : String → Status → PendingEvent
event tx st = record {
  id = event_id tx;
  block_number = 1;
  block_hash = "a";
  event_type = "ClaimCreated";
  payload = "";
  transaction_hash = tx;
  log_index = 0;
  status = st;
  confirmations = 0;
  created_at = 5;
  confirmed_at = none;
}

abbrev blank : State
blank = record {
  blocks = [];
  events = [];
  reorg_history = [];
  chain_state = empty_chain;
  max_blocks_in_memory = 2;
  max_events_in_memory = 1;
  max_reorg_history_entries = 1;
}

abbrev stored : ℕ → String → String → BlockId × BlockRecord
stored n hash parent = ((n, hash), block_record (block n hash parent) 0)

abbrev three_blocks : State
three_blocks = record blank { blocks = stored 1 "a" "g" ∷ stored 2 "b" "a" ∷ stored 3 "c" "b" ∷ [] }

-- One confirmed and one pending event, over the limit of one.
abbrev two_events : State
two_events = record blank {
  events = (event_id "x", event "x" confirmed) ∷ (event_id "y", event "y" pending) ∷ [];
  chain_state = record empty_chain { pending_event_count = pos 1 };
}

-- Two blocks and one orphaned event at height 1.
abbrev with_orphan : State
with_orphan = record three_blocks {
  events = (event_id "x", event "x" orphaned) ∷ [];
  chain_state = record empty_chain { orphaned_event_count = pos 1 };
}

abbrev a_reorg : ReorgEvent
a_reorg = record {
  detected_at = 9;
  reorg_depth = 1;
  affected_block_start = pos 1;
  affected_block_end = 1;
  orphaned_events = event_id "y" ∷ [];
  reprocessed_events = [];
}

two_events-IsWellKeyed : IsWellKeyed two_events.events
two_events-IsWellKeyed = record { distinct = (refl, (refl, tt)); keyed = (refl, (refl, tt)) }

with_orphan-IsWellKeyed : IsWellKeyed with_orphan.events
with_orphan-IsWellKeyed = record { distinct = (refl, tt); keyed = (refl, tt) }

blank-IsCounted : IsCounted blank
blank-IsCounted = record { distinct = tt; pendings = refl; orphans = refl }

with_orphan-IsCounted : IsCounted with_orphan
with_orphan-IsCounted = record { distinct = (refl, tt); pendings = refl; orphans = refl }

Reach-IsCounted_example : IsCounted (save_pending_event (event "y" pending) blank)
Reach-IsCounted_example =
    Reach-IsCounted blank-IsCounted
      (next here (saves_event (event "y" pending) blank refl (λ e. cc)))

-- Block 4 is not stored, so that the walk stops at once.
abbrev next_block : BlockInfo
next_block = block 4 "z" "y"

other_hash : (block_record (block 3 "c" "b") 0).block_hash ≢ next_block.parent_hash
other_hash e = let never : false ≡ true = (string_eq.beq_iff "c" "y").1 e in cc

tip_missing : get_canonical_block 4 three_blocks ≡ none
unfolding get_canonical_block get_blocks_at_height
tip_missing = refl

last_found : get_canonical_block 3 three_blocks ≡ some (block_record (block 3 "c" "b") 0)
unfolding get_canonical_block get_blocks_at_height
last_found = refl

depth_zero : find_divergence_point three_blocks next_block ≡ 0
unfolding find_divergence_point divergence_from goes_on get_canonical_block get_blocks_at_height
depth_zero = refl

handle_reorg_lem_example :
    (t : State) × (handle_reorg a_reorg 9 two_events ≡ ok t)
    × ((id : EventId) (e : PendingEvent)
        → get id two_events.events ≡ some e
        → (Mem id a_reorg.orphaned_events → get id t.events ≡ some (record e { status = orphaned }))
          × (¬ Mem id a_reorg.orphaned_events → get id t.events ≡ some e))
    × ((id : EventId) → get id two_events.events ≡ none → get id t.events ≡ none)
    × ((id : BlockId) (b : BlockRecord)
        → get id two_events.blocks ≡ some b
        → (IsAffected a_reorg b.block_number
            → get id t.blocks ≡ some (record b { is_canonical = false }))
          × (¬ IsAffected a_reorg b.block_number → get id t.blocks ≡ some b))
    × ((id : BlockId) → get id two_events.blocks ≡ none → get id t.blocks ≡ none)
    × ((t.chain_state).last_processed_block ≡ 0)
handle_reorg_lem_example = handle_reorg_lem a_reorg 9 two_events

reconcile_orphaned_events_lem_example :
    (ids : List EventId) × (t : State) × (reconcile_orphaned_events 2 10 9 with_orphan
      ≡ ok (ids, t))
    × ((id : EventId) (e : PendingEvent)
        → get id with_orphan.events ≡ some e
        → (IsDeepOrphan 2 10 e
            → (get id t.events
                ≡ some (record e {
                  status = confirmed;
                  confirmations = 10 - e.block_number;
                  confirmed_at = some 9;
                }))
              × Mem id ids)
          × (¬ IsDeepOrphan 2 10 e → get id t.events ≡ some e))
    × ((id : EventId)
        → Mem id ids
        → (e : PendingEvent) × (get id with_orphan.events ≡ some e) × IsDeepOrphan 2 10 e)
    × ((id : EventId) → get id with_orphan.events ≡ none → get id t.events ≡ none)
    × (t.blocks ≡ with_orphan.blocks)
    × (t.reorg_history ≡ with_orphan.reorg_history)
reconcile_orphaned_events_lem_example =
    reconcile_orphaned_events_lem 2 10 9 with_orphan with_orphan-IsWellKeyed

verify_state_consistency_iff_example : ((verify_state_consistency two_events).0 ≡ true) ↔ (
    ((two_events.chain_state).pending_event_count ≡ pos (tally pending two_events.events))
    × ((two_events.chain_state).orphaned_event_count ≡ pos (tally orphaned two_events.events)))
verify_state_consistency_iff_example = verify_state_consistency_iff two_events

update_event_confirmations_lem_example :
    (t : State) × (update_event_confirmations 2 10 9 two_events ≡ ok t)
    × ((id : EventId) (e : PendingEvent)
        → get id two_events.events ≡ some e
        → (e.status ≢ pending → get id t.events ≡ some e)
          × (e.status ≡ pending
              → 2 ≤ 10 - e.block_number
              → get id t.events
                ≡ some (record e {
                  status = confirmed;
                  confirmations = 10 - e.block_number;
                  confirmed_at = some 9;
                }))
          × (e.status ≡ pending
              → 10 - e.block_number < 2
              → get id t.events ≡ some (record e { confirmations = 10 - e.block_number })))
    × ((id : EventId) → get id two_events.events ≡ none → get id t.events ≡ none)
    × (t.blocks ≡ two_events.blocks)
    × (t.reorg_history ≡ two_events.reorg_history)
update_event_confirmations_lem_example =
    update_event_confirmations_lem 2 10 9 two_events two_events-IsWellKeyed

abbrev indexer : Indexer
indexer = record { state = two_events; confirmation_depth = 2; head_block_number = 0 }

process_block_total_example :
    (j : Indexer) × (process_block (block 4 "d" "c") [] 9 indexer ≡ ok j)
    × IsWellKeyed (j.state).events
    × (j.head_block_number ≡ 4)
    × (((j.state).chain_state).last_processed_block ≡ 4)
    × (((j.state).chain_state).last_canonical_hash ≡ "d")
    × IsSettled 2 4 (j.state).events
process_block_total_example =
    process_block_total (block 4 "d" "c") [] 9 indexer two_events-IsWellKeyed
