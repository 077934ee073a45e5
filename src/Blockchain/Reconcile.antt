-- ===== src/Blockchain/Reconcile.antt =====
-- src/blockchain/reconciliation.service.ts: `ReconciliationService`. An `update_event_status` that
-- throws ends the loop, as the `await` does.
pub mod Rollback
pub mod Affected
pub mod Revival
pub mod Depth
pub mod Consistency
use truthbounty_api.Prelude.{
  ℕ, suc, Bool, true, false, not, ◌&&◌, Option, none, some, List, [], ◌∷◌, ◌++◌, if◌then◌else◌,
  Result, ok, err, ◌>>=◌, length, ◌==◌,
}
use truthbounty_api.Prelude.Int.{ℤ, pos, negsuc}
use truthbounty_api.Blockchain.Types.{
  EventId, PendingEvent, ReorgEvent, Status, pending, confirmed, orphaned,
}
use truthbounty_api.Blockchain.State.{
  State, get_event, update_event_status, mark_blocks_non_canonical, record_reorg,
  get_orphaned_events, get_pending_events,
}
use truthbounty_api.Blockchain.Reorg.{block_range, calculate_confirmations, is_event_confirmed}

unfoldable pub rollback_event : EventId → ℕ → State → Result State
rollback_event id now s = elim (get_event id s) [
  | none ↦ ok s
  | some e ↦ update_event_status id orphaned none now s
]

unfoldable pub rollback_affected_events : List EventId → ℕ → State → Result State
unfolding rollback_event
rollback_affected_events [] now s = ok s
rollback_affected_events (id ∷ ids) now s =
    rollback_event id now s >>= λ s'. rollback_affected_events ids now s'

unfoldable pub handle_reorg : ReorgEvent → ℕ → State → Result State
handle_reorg r now s = do
  s' ← rollback_affected_events r.orphaned_events now s
  ok (
      record_reorg r
        (mark_blocks_non_canonical (block_range r.affected_block_start r.affected_block_end) s'))

pub data Issue : Type 0 where
  pending_mismatch orphaned_mismatch : Issue

abbrev count_is : ℕ → ℤ → Bool
count_is n (pos m) = n == m
count_is n (negsuc m) = false

abbrev pub issues_of : State → List Issue
issues_of s =
    (if count_is (length (get_pending_events s)) (s.chain_state).pending_event_count
      then []
      else pending_mismatch ∷ [])
    ++ (if count_is (length (get_orphaned_events s)) (s.chain_state).orphaned_event_count
        then []
        else orphaned_mismatch ∷ [])

unfoldable pub verify_state_consistency : State → Bool × List Issue
verify_state_consistency s = (length (issues_of s) == 0, issues_of s)

-- The loop of `reconcileOrphanedEvents`, with the ids that it collects.
unfoldable pub reconcile_each :
    ℕ → ℕ → ℕ → List PendingEvent → State → Result (List EventId × State)
reconcile_each depth head now [] s = ok ([], s)
reconcile_each depth head now (e ∷ es) s =
    let confirm =
      update_event_status e.id confirmed (some (calculate_confirmations e.block_number head)) now s
      >>= λ s'. reconcile_each depth head now es s' >>= λ r. ok (e.id ∷ r.0, r.1) in
    let skip = reconcile_each depth head now es s in
    if is_event_confirmed depth e.block_number head then confirm else skip

unfoldable pub reconcile_orphaned_events : ℕ → ℕ → ℕ → State → Result (List EventId × State)
unfolding reconcile_each
reconcile_orphaned_events depth head now s = reconcile_each depth head now (get_orphaned_events s) s
