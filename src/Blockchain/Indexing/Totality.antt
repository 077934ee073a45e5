-- ===== src/Blockchain/Indexing/Totality.antt =====
-- `processBlock` as a whole: it never throws, and what holds after each block.
use truthbounty_api.Prelude.{
  ℕ, ◌-◌, ◌<◌, ◌≡◌, ◌≢◌, refl, sym, ap, ◌∙◌, subst, Option, none, some, List, [], ◌∷◌, arith, ok,
  nat_eq, string_eq, pair_eq, option_eq,
}
use truthbounty_api.Prelude.Maps.{JsMap, get, values}
use truthbounty_api.Blockchain.Types.{BlockInfo, EventId, PendingEvent, ReorgEvent, confirmed}
use truthbounty_api.Blockchain.State.{State, save_block, update_chain_state, get_orphaned_events}
use truthbounty_api.Blockchain.State.Sweep.{map_events, at_events, mapped, recount_all}
use truthbounty_api.Blockchain.State.Invariant.{
  IsWellKeyed, save_block-events, save_pending_event-IsWellKeyed, get-map_events,
}
use truthbounty_api.Blockchain.Reorg.{detect_reorg, is_event_confirmed, calculate_confirmations}
use truthbounty_api.Blockchain.Reconcile.{reconcile_orphaned_events}
use mathlib.Core.Option.{some-injective}
use truthbounty_api.Blockchain.Reconcile.Rollback.{handle_reorg_parts}
use truthbounty_api.Blockchain.Reconcile.Revival.{
  reconcile_orphaned_events-map_events, revive_event, revive_event-IsWellKeyed, revive_plan,
  revived_ids,
}
use truthbounty_api.Blockchain.Indexing.Confirmation.{
  update_event_confirmations-map_events, confirm_event, confirm_event-IsWellKeyed, confirm_plan,
}
use truthbounty_api.Blockchain.Indexing.{
  Indexer, RawEvent, index_event, index_events, after_reorg, process_block, pending_event,
  update_event_confirmations,
}

index_events-IsWellKeyed :
    (block : BlockInfo) (now : ℕ) (es : List RawEvent) (s : State)
    → IsWellKeyed s.events
    → IsWellKeyed (index_events block now es s).events
unfolding index_events index_event
index_events-IsWellKeyed block now [] s w = w
index_events-IsWellKeyed block now (e ∷ es) s w =
    index_events-IsWellKeyed block now es _
      (save_pending_event-IsWellKeyed (pending_event block now e) s w)

after_reorg-IsWellKeyed :
    (r : Option ReorgEvent) (now : ℕ) (s : State)
    → IsWellKeyed s.events
    → (t : State) × (after_reorg r now s ≡ ok t) × IsWellKeyed t.events
after_reorg-IsWellKeyed none now s w = (s, refl, w)
after_reorg-IsWellKeyed (some r) now s w =
    let (t, e, _, _, _, keep) = handle_reorg_parts r now s in (t, e, keep w)

abbrev after_block : BlockInfo → ℕ → State → Indexer
after_block block depth s = record {
  state = update_chain_state block.number block.hash depth s;
  confirmation_depth = depth;
  head_block_number = block.number;
}

process_block-steps :
    (block : BlockInfo) (events : List RawEvent) (now : ℕ) (i : Indexer) (s u v : State)
    (ids : List EventId)
    → after_reorg
        (detect_reorg block ((i.state).chain_state).last_processed_block now i.state)
        now
        i.state
      ≡ ok s
    → update_event_confirmations i.confirmation_depth block.number now
        (index_events block now events (save_block block now s))
      ≡ ok u
    → reconcile_orphaned_events i.confirmation_depth block.number now u ≡ ok (ids, v)
    → process_block block events now i ≡ ok (after_block block i.confirmation_depth v)
unfolding process_block
process_block-steps block events now i s u v ids e f g = rw (e, f, g) refl

-- After both passes an event that is not confirmed is not yet deep enough.
abbrev pub IsSettled : ℕ → ℕ → JsMap EventId PendingEvent → Type 0
IsSettled depth head m =
    (id : EventId) (e : PendingEvent)
    → get id m ≡ some e
    → e.status ≢ confirmed
    → head - e.block_number < depth

settled_event :
    (depth head now : ℕ) (e : PendingEvent)
    → (revive_event depth head now (confirm_event depth head now e)).status ≢ confirmed
    → head - (revive_event depth head now (confirm_event depth head now e)).block_number < depth
unfolding is_event_confirmed calculate_confirmations
settled_event depth head now e h = ground arith

passes-IsSettled :
    (depth head now : ℕ) (m : JsMap EventId PendingEvent)
    → IsSettled depth head
        (map_events (revive_event depth head now) (map_events (confirm_event depth head now) m))
passes-IsSettled depth head now m id e g n = settled (get id m) found
  where
    found :
        mapped (revive_event depth head now) (mapped (confirm_event depth head now) (get id m))
        ≡ some e
    found =
        sym (
          get-map_events (revive_event depth head now) id
            (map_events (confirm_event depth head now) m)
          ∙ ap (mapped (revive_event depth head now))
              (get-map_events (confirm_event depth head now) id m))
        ∙ g

    settled :
        (o : Option PendingEvent)
        → mapped (revive_event depth head now) (mapped (confirm_event depth head now) o) ≡ some e
        → head - e.block_number < depth
    settled none h = cc
    settled (some x) h =
        let p = some-injective _ e h in
        subst (λ y. y.status ≢ confirmed → head - y.block_number < depth) p
          (settled_event depth head now x) n

-- From an indexer whose events are well keyed, `processBlock` returns for every block and every list
-- of events; nothing is thrown on the way. Afterwards the events are well keyed again, the block is
-- the head and the last processed one with its hash as the canonical one, and every stored event
-- that lies at least the confirmation depth below the block is confirmed.
pub process_block_total :
    (block : BlockInfo) (events : List RawEvent) (now : ℕ) (i : Indexer)
    → IsWellKeyed (i.state).events
    → (j : Indexer) × (process_block block events now i ≡ ok j)
      × IsWellKeyed (j.state).events
      × (j.head_block_number ≡ block.number)
      × (((j.state).chain_state).last_processed_block ≡ block.number)
      × (((j.state).chain_state).last_canonical_hash ≡ block.hash)
      × IsSettled i.confirmation_depth block.number (j.state).events
unfolding update_chain_state
process_block_total block events now i w =
    let depth = i.confirmation_depth in
    let r = detect_reorg block ((i.state).chain_state).last_processed_block now i.state in
    let (s, e, ws) = after_reorg-IsWellKeyed r now i.state w in
    let t = index_events block now events (save_block block now s) in
    let wt : IsWellKeyed t.events =
      index_events-IsWellKeyed block now events (save_block block now s)
        (subst IsWellKeyed (sym (save_block-events block now s)) ws) in
    let u : State =
      at_events t (map_events (confirm_event depth block.number now) t.events)
        (recount_all (confirm_plan depth block.number) (values t.events) t.chain_state) in
    let wu = confirm_event-IsWellKeyed depth block.number now t.events wt in
    let v : State =
      at_events u (map_events (revive_event depth block.number now) u.events)
        (recount_all (revive_plan depth block.number) (values u.events) u.chain_state) in
    (
      after_block block depth v,
      process_block-steps block events now i s u v
          (revived_ids depth block.number (get_orphaned_events u)) e
          (update_event_confirmations-map_events depth block.number now t wt)
          (reconcile_orphaned_events-map_events depth block.number now u wu),
      revive_event-IsWellKeyed depth block.number now u.events wu,
      refl,
      refl,
      refl,
      passes-IsSettled depth block.number now t.events,
    )
