-- ===== src/Blockchain/Reconcile/Consistency.antt =====
-- `verifyStateConsistency` against the events that are stored.
use truthbounty_api.Prelude.{ℕ, ◌≡◌, refl, ◌↔◌, true, [], ◌∷◌, arith, length}
use truthbounty_api.Prelude.Int.{ℤ, pos, negsuc}
use truthbounty_api.Prelude.Maps.{JsMap, values}
use truthbounty_api.Blockchain.Types.{EventId, PendingEvent, Status, pending, orphaned, status_beq}
use truthbounty_api.Blockchain.State.{State, select, tally, get_pending_events, get_orphaned_events}
use truthbounty_api.Blockchain.Reconcile.{verify_state_consistency, count_is}

length-select :
    (st : Status) (m : JsMap EventId PendingEvent)
    → length (select (λ e. status_beq e.status st) (values m)) ≡ tally st m
length-select st [] = refl
length-select st ((k, e) ∷ m) = ground (arith, length-select st m)

count_is_iff : (n : ℕ) (z : ℤ) → (count_is n z ≡ true) ↔ (z ≡ pos n)
count_is_iff n (pos m) = ground arith
count_is_iff n (negsuc m) = ground arith

-- The check reports a consistent state exactly when the stored count of pending events and the
-- stored count of orphaned events are those of the events in the map.
pub verify_state_consistency_iff :
    (s : State)
    → ((verify_state_consistency s).0 ≡ true) ↔ (
        ((s.chain_state).pending_event_count ≡ pos (tally pending s.events))
        × ((s.chain_state).orphaned_event_count ≡ pos (tally orphaned s.events)))
unfolding verify_state_consistency get_pending_events get_orphaned_events
verify_state_consistency_iff s =
    rw (length-select pending s.events, length-select orphaned s.events)
      (ground (
        arith,
        count_is_iff (tally pending s.events) (s.chain_state).pending_event_count,
        count_is_iff (tally orphaned s.events) (s.chain_state).orphaned_event_count,
      ))
