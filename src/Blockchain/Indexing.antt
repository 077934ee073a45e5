-- ===== src/Blockchain/Indexing.antt =====
-- src/blockchain/event-indexing.service.ts: `EventIndexingService`, over the state service, the
-- detector's confirmation depth and its own head block number.
pub mod Confirmation
pub mod Totality
use truthbounty_api.Prelude.{
  ℕ, ◌==◌, ◌===◌, string_eq, String, Bool, true, false, Option, none, some, List, [], ◌∷◌,
  if◌then◌else◌, Result, ok, err, ◌>>=◌, ◌&&◌, length, ◌+◌, suc,
}
use truthbounty_api.Blockchain.Types.{
  BlockInfo, EventId, PendingEvent, ReorgEvent, Status, pending, confirmed, orphaned, status_beq,
}
use truthbounty_api.Blockchain.State.{
  State, save_block, save_pending_event, get_pending_events, update_event_status,
  update_chain_state, get_events_by_block, select,
}
use truthbounty_api.Blockchain.Reorg.{
  detect_reorg, calculate_confirmations, is_event_confirmed, range_from, events_in,
}
use truthbounty_api.Blockchain.Reconcile.{handle_reorg, reconcile_orphaned_events}

pub record Indexer : Type 0 where
  pub state : State
  pub confirmation_depth : ℕ
  pub head_block_number : ℕ

-- An event as the caller hands it over; `none` is a field that is missing.
pub record RawEvent : Type 0 where
  pub type : Option String
  pub payload : String
  pub transaction_hash : String
  pub log_index : Option ℕ

abbrev type_or_unknown : Option String → String
type_or_unknown none = "unknown"
type_or_unknown (some t) = if t === "" then "unknown" else t

abbrev index_or_zero : Option ℕ → ℕ
index_or_zero none = 0
index_or_zero (some i) = i

abbrev pub pending_event : BlockInfo → ℕ → RawEvent → PendingEvent
pending_event block now e = record {
  id = (block.hash, (e.transaction_hash, e.log_index));
  block_number = block.number;
  block_hash = block.hash;
  event_type = type_or_unknown e.type;
  payload = e.payload;
  transaction_hash = e.transaction_hash;
  log_index = index_or_zero e.log_index;
  status = pending;
  confirmations = 0;
  created_at = now;
  confirmed_at = none;
}

unfoldable pub index_event : BlockInfo → ℕ → RawEvent → State → State
index_event block now e s = save_pending_event (pending_event block now e) s

unfoldable pub index_events : BlockInfo → ℕ → List RawEvent → State → State
unfolding index_event
index_events block now [] s = s
index_events block now (e ∷ es) s = index_events block now es (index_event block now e s)

-- The new status of an event that is listed as pending.
abbrev pub next_status : ℕ → ℕ → PendingEvent → Status
next_status depth head e =
    if is_event_confirmed depth e.block_number head && status_beq e.status pending
    then confirmed
    else e.status

unfoldable pub confirm_each : ℕ → ℕ → ℕ → List PendingEvent → State → Result State
confirm_each depth head now [] s = ok s
confirm_each depth head now (e ∷ es) s =
    update_event_status e.id (next_status depth head e)
      (some (calculate_confirmations e.block_number head)) now s
    >>= λ s'. confirm_each depth head now es s'

unfoldable pub update_event_confirmations : ℕ → ℕ → ℕ → State → Result State
unfolding confirm_each
update_event_confirmations depth head now s = confirm_each depth head now (get_pending_events s) s

abbrev pub after_reorg : Option ReorgEvent → ℕ → State → Result State
after_reorg none now s = ok s
after_reorg (some r) now s = handle_reorg r now s

-- All six steps of `processBlock`.
unfoldable pub process_block : BlockInfo → List RawEvent → ℕ → Indexer → Result Indexer
process_block block events now i = do
  s ←
      after_reorg (detect_reorg block ((i.state).chain_state).last_processed_block now i.state) now
        i.state
  let indexed = index_events block now events (save_block block now s)
  updated ← update_event_confirmations i.confirmation_depth block.number now indexed
  r ← reconcile_orphaned_events i.confirmation_depth block.number now updated
  ok (record {
    state = update_chain_state block.number block.hash i.confirmation_depth r.1;
    confirmation_depth = i.confirmation_depth;
    head_block_number = block.number;
  })

-- Blocks from 0 to the last processed one.
unfoldable pub get_confirmed_events : State → List PendingEvent
get_confirmed_events s =
    select (λ e. status_beq e.status confirmed)
      (events_in s (range_from 0 (suc (s.chain_state).last_processed_block)))
