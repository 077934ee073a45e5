-- ===== src/Blockchain/State/Invariant.antt =====
-- The shape of the map of events that the loops rely on, and that every operation keeps.
use truthbounty_api.Prelude.{
  ℕ, ◌-◌, ◌≡◌, refl, ◌∙◌, inl, inr, Option, none, some, List, [], ◌∷◌, arith, ◌===◌, nat_eq,
  string_eq, pair_eq, option_eq, Bool-cases, leb, length, min, take, eq_of_beq,
}
use truthbounty_api.Prelude.Maps.{
  JsMap, get, put, delete, delete_all, IsMap, put-IsMap, delete_all-IsMap,
}
use truthbounty_api.Blockchain.Types.{EventId, BlockInfo, PendingEvent, Status}
use truthbounty_api.Blockchain.State.Sweep.{IsKeyed, map_events, with_status-id, planned, mapped}
use truthbounty_api.Blockchain.State.Confirmed.{by_time}
use truthbounty_api.Blockchain.State.{
  State, save_pending_event, evict_old_events, firsts, with_status, save_block, evict_old_blocks,
}

-- No id is stored twice, and each event stands under its own.
pub record IsWellKeyed (m : JsMap EventId PendingEvent) : Type 0 where
  pub distinct : IsMap m
  pub keyed : IsKeyed m

put-IsKeyed :
    (k : EventId) (e : PendingEvent) (m : JsMap EventId PendingEvent)
    → e.id ≡ k
    → IsKeyed m
    → IsKeyed (put k e m)
put-IsKeyed k e [] p h = (p, tt)
put-IsKeyed k e ((j, f) ∷ m) p h = elim (Bool-cases (j === k)) [
  | inl same ↦ rw same (p, h.1)
  | inr other ↦ rw other (h.0, put-IsKeyed k e m p h.1)
]

delete-IsKeyed : (k : EventId) (m : JsMap EventId PendingEvent) → IsKeyed m → IsKeyed (delete k m)
delete-IsKeyed k [] h = tt
delete-IsKeyed k ((j, f) ∷ m) h = elim (Bool-cases (j === k)) [
  | inl same ↦ rw same (h.1)
  | inr other ↦ rw other (h.0, delete-IsKeyed k m h.1)
]

delete_all-IsKeyed :
    (ks : List EventId) (m : JsMap EventId PendingEvent) → IsKeyed m → IsKeyed (delete_all ks m)
delete_all-IsKeyed [] m h = h
delete_all-IsKeyed (k ∷ ks) m h = delete_all-IsKeyed ks (delete k m) (delete-IsKeyed k m h)

pub put-IsWellKeyed :
    (k : EventId) (e : PendingEvent) (m : JsMap EventId PendingEvent)
    → e.id ≡ k
    → IsWellKeyed m
    → IsWellKeyed (put k e m)
put-IsWellKeyed k e m p w = record {
  distinct = put-IsMap k e m w.distinct;
  keyed = put-IsKeyed k e m p w.keyed;
}

get-id :
    (k : EventId) (m : JsMap EventId PendingEvent) {e : PendingEvent}
    → IsKeyed m
    → get k m ≡ some e
    → e.id ≡ k
get-id k [] h g = cc
get-id k ((j, f) ∷ m) h g = elim (Bool-cases (j === k)) [
  | inl same ↦ let p : some f ≡ some _ = rw same at g in ground (arith, p, h.0, eq_of_beq j k same)
  | inr other ↦ get-id k m h.1 (rw other at g)
]

pub update-IsWellKeyed :
    (k : EventId) (st : Status) (n : Option ℕ) (now : ℕ) (m : JsMap EventId PendingEvent)
    {e : PendingEvent}
    → IsWellKeyed m
    → get k m ≡ some e
    → IsWellKeyed (put k (with_status st n now e) m)
update-IsWellKeyed k st n now m {e} w g =
    put-IsWellKeyed k (with_status st n now e) m (with_status-id st n now e ∙ get-id k m w.keyed g)
      w

pub save_pending_event-IsWellKeyed :
    (e : PendingEvent) (s : State)
    → IsWellKeyed s.events
    → IsWellKeyed (save_pending_event e s).events
unfolding save_pending_event evict_old_events
save_pending_event-IsWellKeyed e s w = evicted _ (put-IsWellKeyed e.id e s.events refl w)
  where
    evicted : (t : State) → IsWellKeyed t.events → IsWellKeyed (evict_old_events t).events
    evicted t w = elim (Bool-cases (leb (length t.events) t.max_events_in_memory)) [
      | inl fits ↦ rw (fits, evict_old_events) w
      | inr full ↦
          let k = min (length t.events - t.max_events_in_memory) (length (by_time t.events)) in
          let ids = firsts (take k (by_time t.events)) in
          rw (full, evict_old_events)
            (record {
              distinct = delete_all-IsMap ids t.events w.distinct;
              keyed = delete_all-IsKeyed ids t.events w.keyed;
            })
    ]

pub save_block-events :
    (block : BlockInfo) (now : ℕ) (s : State) → (save_block block now s).events ≡ s.events
unfolding save_block evict_old_blocks
save_block-events block now s = ground arith

pub get-map_events :
    (f : PendingEvent → PendingEvent) (k : EventId) (m : JsMap EventId PendingEvent)
    → get k (map_events f m) ≡ mapped f (get k m)
get-map_events f k [] = refl
get-map_events f k ((j, e) ∷ m) = elim (Bool-cases (j === k)) [
  | inl same ↦ rw same refl
  | inr other ↦ rw other (get-map_events f k m)
]

-- A change of every event that leaves its id alone keeps the shape.
pub map_events-IsWellKeyed :
    (f : PendingEvent → PendingEvent) (m : JsMap EventId PendingEvent)
    → ((e : PendingEvent) → (f e).id ≡ e.id)
    → IsWellKeyed m
    → IsWellKeyed (map_events f m)
map_events-IsWellKeyed f m keeps w = record {
  distinct = distinct' m w.distinct;
  keyed = keyed' m w.keyed;
}
  where
    distinct' : (n : JsMap EventId PendingEvent) → IsMap n → IsMap (map_events f n)
    distinct' [] h = tt
    distinct' ((j, e) ∷ n) h = (rw (get-map_events f j n, h.0) refl, distinct' n h.1)

    keyed' : (n : JsMap EventId PendingEvent) → IsKeyed n → IsKeyed (map_events f n)
    keyed' [] h = tt
    keyed' ((j, e) ∷ n) h = (keeps e ∙ h.0, keyed' n h.1)

pub planned-id :
    (o : Option (Status × ℕ)) (now : ℕ) (e : PendingEvent) → (planned o now e).id ≡ e.id
planned-id none now e = refl
planned-id (some (st, n)) now e = with_status-id st (some n) now e
