-- ===== src/Blockchain/State.antt =====
-- src/blockchain/state.service.ts: `BlockchainStateService`, its two maps, its history and its
-- counts. `new Date()` is the argument `now`.
pub mod Eviction
pub mod Confirmed
pub mod Tally
pub mod Counting
pub mod Counts
pub mod Sweep
pub mod Invariant
use truthbounty_api.Prelude.{
  ℕ, ◌-◌, String, ◌===◌, ◌==◌, nat_eq, string_eq, pair_eq, option_eq, Bool, true, false, ◌&&◌,
  Option, none, some, List, [], ◌∷◌, ◌++◌, map, if◌then◌else◌, leb, ltb, length, take, min, suc,
  Result, ok, err, error,
}
use truthbounty_api.Prelude.Int.{ℤ, pos, ◌+ℤ◌, ◌-ℤ◌}
use truthbounty_api.Prelude.Maps.{JsMap, get, put, delete, delete_all, values}
use truthbounty_api.Prelude.Sorting.{sort_by}
use truthbounty_api.Blockchain.Types.{
  BlockId, EventId, BlockInfo, BlockRecord, Status, pending, confirmed, orphaned, status_beq,
  PendingEvent, ReorgEvent, ChainState, StateMemoryStats,
}

pub record State : Type 0 where
  pub blocks : JsMap BlockId BlockRecord
  pub events : JsMap EventId PendingEvent
  pub reorg_history : List ReorgEvent
  pub chain_state : ChainState
  pub max_blocks_in_memory : ℕ
  pub max_events_in_memory : ℕ
  pub max_reorg_history_entries : ℕ

abbrev pub empty_chain : ChainState
empty_chain = record {
  last_processed_block = 0;
  last_canonical_hash = "";
  confirmed_depth = 0;
  pending_event_count = pos 0;
  orphaned_event_count = pos 0;
  last_reorg_time = none;
}

abbrev pub id_numbers : JsMap BlockId BlockRecord → List (BlockId × ℕ)
id_numbers [] = []
id_numbers ((id, b) ∷ m) = (id, b.block_number) ∷ id_numbers m

abbrev pub firsts : {B : Type 0} {C : Type 0} → List (B × C) → List B
firsts [] = []
firsts ((b, c) ∷ l) = b ∷ firsts l

-- The oldest blocks by number, as many as there are too many.
unfoldable pub evict_old_blocks : State → State
evict_old_blocks s = if leb (length s.blocks) s.max_blocks_in_memory then s else record s {
  blocks =
      delete_all
        (firsts (
          take (length s.blocks - s.max_blocks_in_memory)
            (sort_by (λ (p : BlockId × ℕ). p.1) (id_numbers s.blocks))))
        s.blocks;
}

abbrev pub block_record : BlockInfo → ℕ → BlockRecord
block_record block now = record {
  id = (block.number, block.hash);
  block_number = block.number;
  block_hash = block.hash;
  parent_hash = block.parent_hash;
  timestamp = block.timestamp;
  is_canonical = true;
  created_at = now;
}

unfoldable pub save_block : BlockInfo → ℕ → State → State
save_block block now s =
    evict_old_blocks
      (record s { blocks = put (block.number, block.hash) (block_record block now) s.blocks })

unfoldable pub get_block : ℕ → String → State → Option BlockRecord
get_block number hash s = get (number, hash) s.blocks

abbrev pub blocks_at : ℕ → List BlockRecord → List BlockRecord
blocks_at n [] = []
blocks_at n (b ∷ bs) = if b.block_number == n then b ∷ blocks_at n bs else blocks_at n bs

abbrev pub find_block : (BlockRecord → Bool) → List BlockRecord → Option BlockRecord
find_block p [] = none
find_block p (b ∷ bs) = if p b then some b else find_block p bs

unfoldable pub get_blocks_at_height : ℕ → State → List BlockRecord
get_blocks_at_height n s = blocks_at n (values s.blocks)

unfoldable pub get_canonical_block : ℕ → State → Option BlockRecord
unfolding get_blocks_at_height
get_canonical_block n s = find_block (λ b. b.is_canonical) (get_blocks_at_height n s)

unfoldable pub get_canonical_block_by_hash : String → State → Option BlockRecord
get_canonical_block_by_hash h s =
    find_block (λ b. b.block_hash === h && b.is_canonical) (values s.blocks)

abbrev pub confirmed_times : JsMap EventId PendingEvent → List (EventId × Option ℕ)
confirmed_times [] = []
confirmed_times ((id, e) ∷ m) =
    if status_beq e.status confirmed
    then (id, e.confirmed_at) ∷ confirmed_times m
    else confirmed_times m

-- An event with no time comes first.
abbrev pub time_rank : Option ℕ → ℕ
time_rank none = 0
time_rank (some t) = suc t

-- Confirmed events only, the earliest confirmed first.
unfoldable pub evict_old_events : State → State
evict_old_events s = if leb (length s.events) s.max_events_in_memory then s else record s {
  events =
      let sorted = sort_by (λ (p : EventId × Option ℕ). time_rank p.1) (confirmed_times s.events) in
      delete_all
        (firsts (take (min (length s.events - s.max_events_in_memory) (length sorted)) sorted))
        s.events;
}

abbrev pub add_pending : Status → ChainState → ChainState
add_pending pending c = record c { pending_event_count = c.pending_event_count +ℤ pos 1 }
add_pending _ c = c

unfoldable pub save_pending_event : PendingEvent → State → State
save_pending_event e s =
    evict_old_events
      (record s { events = put e.id e s.events; chain_state = add_pending e.status s.chain_state })

unfoldable pub get_event : EventId → State → Option PendingEvent
get_event id s = get id s.events

abbrev pub select : (PendingEvent → Bool) → List PendingEvent → List PendingEvent
select p [] = []
select p (e ∷ es) = if p e then e ∷ select p es else select p es

unfoldable pub get_events_by_block : ℕ → State → List PendingEvent
get_events_by_block n s = select (λ e. e.block_number == n) (values s.events)

unfoldable pub get_pending_events : State → List PendingEvent
get_pending_events s = select (λ e. status_beq e.status pending) (values s.events)

unfoldable pub get_orphaned_events : State → List PendingEvent
get_orphaned_events s = select (λ e. status_beq e.status orphaned) (values s.events)

abbrev pub or_else : Option ℕ → ℕ → ℕ
or_else none n = n
or_else (some m) n = m

-- The event as `updateEventStatus` leaves it.
abbrev pub with_status : Status → Option ℕ → ℕ → PendingEvent → PendingEvent
with_status confirmed c now e = record e {
  status = confirmed;
  confirmations = or_else c e.confirmations;
  confirmed_at = some now;
}
with_status status c now e = record e { status = status; confirmations = or_else c e.confirmations }

-- The counts, by the new status and the old.
abbrev pub recount : Status → Status → ChainState → ChainState
recount confirmed pending c = record c { pending_event_count = c.pending_event_count -ℤ pos 1 }
recount orphaned pending c = record c {
  pending_event_count = c.pending_event_count -ℤ pos 1;
  orphaned_event_count = c.orphaned_event_count +ℤ pos 1;
}
recount orphaned _ c = record c { orphaned_event_count = c.orphaned_event_count +ℤ pos 1 }
recount _ _ c = c

unfoldable pub update_event_status : EventId → Status → Option ℕ → ℕ → State → Result State
update_event_status id status confirmations now s = elim (get id s.events) [
  | none ↦ err error
  | some e ↦ ok (record s {
    events = put id (with_status status confirmations now e) s.events;
    chain_state = recount status e.status s.chain_state;
  })
]

abbrev pub includes : List ℕ → ℕ → Bool
includes [] n = false
includes (m ∷ ms) n = if m == n then true else includes ms n

abbrev pub unmark : List ℕ → JsMap BlockId BlockRecord → JsMap BlockId BlockRecord
unmark ns [] = []
unmark ns ((id, b) ∷ m) =
    (id, (if includes ns b.block_number then record b { is_canonical = false } else b))
    ∷ unmark ns m

unfoldable pub mark_blocks_non_canonical : List ℕ → State → State
mark_blocks_non_canonical ns s = record s { blocks = unmark ns s.blocks }

-- `while (history.length > max) history.shift()`
abbrev pub trim : ℕ → List ReorgEvent → List ReorgEvent
trim n [] = []
trim n (r ∷ rs) = if ltb n (length (r ∷ rs)) then trim n rs else r ∷ rs

unfoldable pub record_reorg : ReorgEvent → State → State
record_reorg r s = record s {
  reorg_history = trim s.max_reorg_history_entries (s.reorg_history ++ (r ∷ []));
  chain_state = record (s.chain_state) { last_reorg_time = some r.detected_at };
}

-- `updateChainState` as the indexer calls it.
unfoldable pub update_chain_state : ℕ → String → ℕ → State → State
update_chain_state last hash depth s = record s {
  chain_state = record (s.chain_state) {
    last_processed_block = last;
    last_canonical_hash = hash;
    confirmed_depth = depth;
  };
}

abbrev pub uncount : Status → ChainState → ChainState
uncount pending c = record c { pending_event_count = c.pending_event_count -ℤ pos 1 }
uncount orphaned c = record c { orphaned_event_count = c.orphaned_event_count -ℤ pos 1 }
uncount confirmed c = c

unfoldable pub delete_event : EventId → State → State
delete_event id s = elim (get id s.events) [
  | none ↦ s
  | some e ↦ record s { events = delete id s.events; chain_state = uncount e.status s.chain_state }
]

unfoldable pub delete_events : List EventId → State → State
unfolding delete_event
delete_events [] s = s
delete_events (id ∷ ids) s = delete_events ids (delete_event id s)

unfoldable pub clear_all_state : State → State
clear_all_state s = record s {
  blocks = [];
  events = [];
  reorg_history = [];
  chain_state = empty_chain;
}

-- How many events have a status.
abbrev pub tally : Status → JsMap EventId PendingEvent → ℕ
tally st [] = 0
tally st ((id, e) ∷ m) = if status_beq e.status st then suc (tally st m) else tally st m

unfoldable pub get_memory_stats : State → StateMemoryStats
get_memory_stats s = record {
  current_block_count = length s.blocks;
  current_event_count = length s.events;
  current_reorg_history_count = length s.reorg_history;
  max_blocks_in_memory = s.max_blocks_in_memory;
  max_events_in_memory = s.max_events_in_memory;
  max_reorg_history_entries = s.max_reorg_history_entries;
  confirmed_event_count = tally confirmed s.events;
  pending_event_count = tally pending s.events;
  orphaned_event_count = tally orphaned s.events;
}
