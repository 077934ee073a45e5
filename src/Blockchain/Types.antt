-- ===== src/Blockchain/Types.antt =====
-- src/blockchain/types.ts. Hashes are texts; times are milliseconds and are passed in by the
-- caller; a block's id `number:hash` and an event's id `hash:tx:logIndex` are kept as tuples, which
-- the code joins with colons.
use truthbounty_api.Prelude.{ℕ, String, Option, List, Bool}
use truthbounty_api.Prelude.Int.{ℤ}

abbrev pub BlockId : Type 0
BlockId = ℕ × String

abbrev pub EventId : Type 0
EventId = String × (String × Option ℕ)

pub record BlockInfo : Type 0 where
  pub number : ℕ
  pub hash : String
  pub timestamp : ℕ
  pub parent_hash : String

pub record BlockRecord : Type 0 where
  pub id : BlockId
  pub block_number : ℕ
  pub block_hash : String
  pub parent_hash : String
  pub timestamp : ℕ
  pub is_canonical : Bool
  pub created_at : ℕ

pub data Status : Type 0 where
  pending confirmed orphaned : Status

abbrev pub status_beq : Status → Status → Bool
status_beq pending pending = Bool.true
status_beq confirmed confirmed = Bool.true
status_beq orphaned orphaned = Bool.true
status_beq _ _ = Bool.false

-- `payload` stands for the text of `data`, which no code of this part reads.
pub record PendingEvent : Type 0 where
  pub id : EventId
  pub block_number : ℕ
  pub block_hash : String
  pub event_type : String
  pub payload : String
  pub transaction_hash : String
  pub log_index : ℕ
  pub status : Status
  pub confirmations : ℕ
  pub created_at : ℕ
  pub confirmed_at : Option ℕ

-- `affected_block_start` may lie below zero.
pub record ReorgEvent : Type 0 where
  pub detected_at : ℕ
  pub reorg_depth : ℕ
  pub affected_block_start : ℤ
  pub affected_block_end : ℕ
  pub orphaned_events : List EventId
  pub reprocessed_events : List EventId

-- The two counts are decremented without a test, so they are integers.
pub record ChainState : Type 0 where
  pub last_processed_block : ℕ
  pub last_canonical_hash : String
  pub confirmed_depth : ℕ
  pub pending_event_count : ℤ
  pub orphaned_event_count : ℤ
  pub last_reorg_time : Option ℕ

pub record StateMemoryStats : Type 0 where
  pub current_block_count : ℕ
  pub current_event_count : ℕ
  pub current_reorg_history_count : ℕ
  pub max_blocks_in_memory : ℕ
  pub max_events_in_memory : ℕ
  pub max_reorg_history_entries : ℕ
  pub confirmed_event_count : ℕ
  pub pending_event_count : ℕ
  pub orphaned_event_count : ℕ
