-- ===== src/Blockchain/State/Counting.antt =====
-- The two counts of the chain state against the events that are stored, for each operation.
use truthbounty_api.Prelude.{
  ℕ, ◌+◌, ◌-◌, ◌≡◌, ◌≢◌, refl, sym, ap, ◌∙◌, inl, inr, Option, none, some, List, [], ◌∷◌, arith,
  Bool-cases, Option-cases, if◌then◌else◌, nat_eq, string_eq, pair_eq, option_eq, leb, length, min,
  take, ok,
}
use truthbounty_api.Prelude.Int.{pos, ◌+ℤ◌, ◌-ℤ◌}
use truthbounty_api.Prelude.Maps.{get, put, IsMap, put-IsMap, delete-IsMap, delete_all-IsMap}
use truthbounty_api.Blockchain.Types.{
  EventId, BlockInfo, PendingEvent, Status, pending, confirmed, orphaned, status_beq, ChainState,
}
use truthbounty_api.Blockchain.State.Tally.{
  tally-put_new, tally-put_old, tally-delete, tally-delete_all, OnlyConfirmed-by_time,
}
use truthbounty_api.Blockchain.State.Confirmed.{by_time}
use truthbounty_api.Blockchain.State.{
  State, tally, save_pending_event, update_event_status, delete_event, delete_events,
  evict_old_events, firsts, with_status, save_block, evict_old_blocks, add_pending, recount,
  uncount,
}

-- The stored counts are those of the events, and no id is stored twice.
pub record IsCounted (s : State) : Type 0 where
  pub distinct : IsMap s.events
  pub pendings : (s.chain_state).pending_event_count ≡ pos (tally pending s.events)
  pub orphans : (s.chain_state).orphaned_event_count ≡ pos (tally orphaned s.events)

pub evict_old_events-IsCounted : (s : State) → IsCounted s → IsCounted (evict_old_events s)
unfolding evict_old_events
evict_old_events-IsCounted s c = elim (Bool-cases (leb (length s.events) s.max_events_in_memory)) [
  | inl fits ↦ rw (fits, evict_old_events) c
  | inr full ↦
      let k = min (length s.events - s.max_events_in_memory) (length (by_time s.events)) in
      let only = OnlyConfirmed-by_time k s.events c.distinct in
      let ids = firsts (take k (by_time s.events)) in
      rw (full, evict_old_events)
        (record {
          distinct = delete_all-IsMap ids s.events c.distinct;
          pendings =
              c.pendings
              ∙ ap pos (sym (tally-delete_all pending ids s.events (λ e. cc) c.distinct only));
          orphans =
              c.orphans
              ∙ ap pos (sym (tally-delete_all orphaned ids s.events (λ e. cc) c.distinct only));
        })
]

abbrev Counts : ChainState → ℕ → ℕ → Type 0
Counts c p o = (c.pending_event_count ≡ pos p) × (c.orphaned_event_count ≡ pos o)

abbrev bit : Status → Status → ℕ
bit st old = if status_beq old st then 1 else 0

add_pending-Counts :
    (st : Status) (c : ChainState) {p o p' o' : ℕ}
    → st ≢ orphaned
    → Counts c p o
    → p' ≡ p + bit pending st
    → o' ≡ o + bit orphaned st
    → Counts (add_pending st c) p' o'
unfolding ◌+ℤ◌
add_pending-Counts pending c n h e f = (ground arith, ground arith)
add_pending-Counts confirmed c n h e f = (ground arith, ground arith)
add_pending-Counts orphaned c n h e f = absurd (n refl)

recount-Counts :
    (st old : Status) (c : ChainState) {p o p' o' : ℕ}
    → old ≢ orphaned
    → (st ≡ pending → old ≡ pending)
    → Counts c p o
    → p' + bit pending old ≡ p + bit pending st
    → o' + bit orphaned old ≡ o + bit orphaned st
    → Counts (recount st old c) p' o'
unfolding ◌+ℤ◌ ◌-ℤ◌
recount-Counts pending pending c n back h e f = (ground arith, ground arith)
recount-Counts pending confirmed c n back h e f = cc (back refl)
recount-Counts confirmed pending c n back h e f = (ground arith, ground arith)
recount-Counts confirmed confirmed c n back h e f = (ground arith, ground arith)
recount-Counts orphaned pending c n back h e f = (ground arith, ground arith)
recount-Counts orphaned confirmed c n back h e f = (ground arith, ground arith)
recount-Counts st orphaned c n back h e f = absurd (n refl)

uncount-Counts :
    (old : Status) (c : ChainState) {p o p' o' : ℕ}
    → Counts c p o
    → p' + bit pending old ≡ p
    → o' + bit orphaned old ≡ o
    → Counts (uncount old c) p' o'
unfolding ◌-ℤ◌
uncount-Counts pending c h e f = (ground arith, ground arith)
uncount-Counts confirmed c h e f = (ground arith, ground arith)
uncount-Counts orphaned c h e f = (ground arith, ground arith)

pub save_pending_event-IsCounted :
    (e : PendingEvent) (s : State)
    → get e.id s.events ≡ none
    → e.status ≢ orphaned
    → IsCounted s
    → IsCounted (save_pending_event e s)
unfolding save_pending_event
save_pending_event-IsCounted e s new n c =
    let h =
      add_pending-Counts e.status s.chain_state n (c.pendings, c.orphans)
        (tally-put_new pending e.id e s.events new) (tally-put_new orphaned e.id e s.events new) in
    evict_old_events-IsCounted _
      (record { distinct = put-IsMap e.id e s.events c.distinct; pendings = h.0; orphans = h.1 })

with_status-status :
    (st : Status) (n : Option ℕ) (now : ℕ) (e : PendingEvent) → (with_status st n now e).status ≡ st
with_status-status pending n now e = refl
with_status-status confirmed n now e = refl
with_status-status orphaned n now e = refl

-- `update_event_status` by the event that it finds.
pub update_event_status-some :
    (id : EventId) (st : Status) (n : Option ℕ) (now : ℕ) (s : State) (e : PendingEvent)
    → get id s.events ≡ some e
    → update_event_status id st n now s
      ≡ ok (record s {
        events = put id (with_status st n now e) s.events;
        chain_state = recount st e.status s.chain_state;
      })
unfolding update_event_status
update_event_status-some id st n now s e g = rw (g, update_event_status) refl

pub update_event_status-IsCounted :
    (id : EventId) (st : Status) (n : Option ℕ) (now : ℕ) (s : State) (e : PendingEvent)
    → get id s.events ≡ some e
    → e.status ≢ orphaned
    → (st ≡ pending → e.status ≡ pending)
    → IsCounted s
    → IsCounted (record s {
      events = put id (with_status st n now e) s.events;
      chain_state = recount st e.status s.chain_state;
    })
update_event_status-IsCounted id st n now s e g ne back c =
    let v = with_status st n now e in
    let same = with_status-status st n now e in
    let h =
      recount-Counts st e.status s.chain_state ne back (c.pendings, c.orphans)
        (tally-put_old pending id v e s.events g
          ∙ ap (λ x. tally pending s.events + bit pending x) same)
        (tally-put_old orphaned id v e s.events g
          ∙ ap (λ x. tally orphaned s.events + bit orphaned x) same) in
    record { distinct = put-IsMap id v s.events c.distinct; pendings = h.0; orphans = h.1 }

pub delete_event-IsCounted :
    (id : EventId) (s : State) → IsCounted s → IsCounted (delete_event id s)
unfolding delete_event
delete_event-IsCounted id s c = elim (Option-cases (get id s.events)) [
  | inl gone ↦ rw (gone, delete_event) c
  | inr (e, found) ↦
      let h =
        uncount-Counts e.status s.chain_state (c.pendings, c.orphans)
          (tally-delete pending id e s.events found) (tally-delete orphaned id e s.events found) in
      rw (found, delete_event)
        (record { distinct = delete-IsMap id s.events c.distinct; pendings = h.0; orphans = h.1 })
]

pub delete_events-IsCounted :
    (ids : List EventId) (s : State) → IsCounted s → IsCounted (delete_events ids s)
unfolding delete_events
delete_events-IsCounted [] s c = c
delete_events-IsCounted (id ∷ ids) s c =
    delete_events-IsCounted ids (delete_event id s) (delete_event-IsCounted id s c)

pub evict_old_blocks-IsCounted : (s : State) → IsCounted s → IsCounted (evict_old_blocks s)
unfolding evict_old_blocks
evict_old_blocks-IsCounted s c = elim (Bool-cases (leb (length s.blocks) s.max_blocks_in_memory)) [
  | inl fits ↦ rw (fits, evict_old_blocks) c
  | inr full ↦
      rw (full, evict_old_blocks)
        (record { distinct = c.distinct; pendings = c.pendings; orphans = c.orphans })
]

pub save_block-IsCounted :
    (block : BlockInfo) (now : ℕ) (s : State) → IsCounted s → IsCounted (save_block block now s)
unfolding save_block
save_block-IsCounted block now s c =
    evict_old_blocks-IsCounted _
      (record { distinct = c.distinct; pendings = c.pendings; orphans = c.orphans })
